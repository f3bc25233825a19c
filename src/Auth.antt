-- ===== src/Auth.antt =====
-- Logging in and staying logged in (apps/api/src/modules/auth/auth.service.ts).
pub mod Redirect
pub mod Sessions
pub mod Login
use signara.Prelude.{ℕ, String, Option, none, some, if◌then◌else◌, str_eq}
use signara.Exec.{Outcome, ok, throw, internal}
use signara.Text.{Text}

-- The claims of a refresh token and of a login state that `jwt.verify` accepts.
pub record RefreshClaims : Type 0 where
  pub type : Option String
  pub sub : Option ℕ

pub record StateClaims : Type 0 where
  pub type : Option String
  pub next : Option Text

pub record AuthEnv : Type 0 where
  pub now : ℕ
  pub uuid : ℕ → ℕ
  pub lower : String → String
  -- `name.split(' ')[0]` and `name.split(' ').slice(1).join(' ')`
  pub first_word : String → String
  pub other_words : String → String
  -- `auth.jwtAccessSecret`, `auth.jwtRefreshSecret` and `oidc.idpAdminGroup`
  pub access_secret : Option String
  pub refresh_secret : Option String
  pub admin_group : Option String
  -- `jwt.sign` of the access and refresh claims of a user, under a secret, with the n-th random id
  pub sign_access : String → ℕ → String → ℕ → String
  pub sign_refresh : String → ℕ → String → ℕ → String
  -- `jwt.verify` under a secret; `none` where it throws
  pub verify_refresh : String → String → Option RefreshClaims
  pub sign_state : String → StateClaims → String
  pub verify_state : String → String → Option StateClaims
  -- the SHA-256 of `${fingerprint}:${refreshToken}`, in hex
  pub fingerprint_hash : String → String → String

-- `requiredSecret(key, envName)`
abbrev pub required_secret : Option String → Outcome String
required_secret none = throw (internal "Missing secret — set it in .env")
required_secret (some s) =
    if str_eq s "" then throw (internal "Missing secret — set it in .env") else ok s

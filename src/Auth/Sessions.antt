-- ===== src/Auth/Sessions.antt =====
-- Refresh sessions (`refresh`, `revokeSession`, `logoutAll`, `createSession` and `issueTokenPair` of
-- auth.service.ts). A refresh is two calls of the database, between which other calls may come: it
-- looks the session up, and then revokes it only if it is not revoked yet.
pub mod Rotation
pub mod Steps
pub mod Ending
use signara.Prelude.{
  ℕ, ◌+◌, ◌*◌, String, Bool, true, false, not, ◌&&◌, ◌||◌, ◌==◌, str_eq, Option, none, some, List,
  [], ◌∷◌, ◌++◌, if◌then◌else◌, get_or, map_some, is_some, find, select, any, length, update_where,
  ltb,
}
use signara.Exec.{
  Exec, Outcome, ok, throw, unauthorized, internal, pure, lift, gets, modify, throw_if, ◌>>=◌, ◌>>◌,
}
use signara.Accounts.{User, LoginSession, Accounts, find_user, is_active_user}
use signara.Auth.{AuthEnv, RefreshClaims, required_secret}

pub record TokenPair : Type 0 where
  pub access_token : String
  pub refresh_token : String
  pub expires_in : ℕ

-- Thirty days, in milliseconds.
abbrev pub session_ms : ℕ
session_ms = 30 * 24 * 60 * 60 * 1000

-- `id, revokedAt: null`
abbrev pub is_claimed_by : ℕ → LoginSession → Bool
is_claimed_by id x = x.id == id && not (is_some x.revoked_at)

module _ (env : AuthEnv) where
  -- Two random ids are drawn, for the two tokens.
  unfoldable pub issue_token_pair : ℕ → String → Exec Accounts TokenPair
  issue_token_pair user_id email s = elim (required_secret env.access_secret) [
    | throw e ↦ (throw e, s)
    | ok access ↦ elim (required_secret env.refresh_secret) [
      | throw e ↦ (throw e, s)
      | ok refresh ↦ (
        ok (record {
          access_token = env.sign_access access user_id email s.tokens_drawn;
          refresh_token = env.sign_refresh refresh user_id email (s.tokens_drawn + 1);
          expires_in = 15 * 60;
        }),
        record s { tokens_drawn = s.tokens_drawn + 2 },
      )
    ]
  ]

  abbrev session_row : ℕ → ℕ → String → String → String → LoginSession
  session_row id user_id refresh_token fingerprint ip_address = record {
    id = id;
    user_id = user_id;
    refresh_token_hash = env.fingerprint_hash fingerprint refresh_token;
    ip_address = ip_address;
    expires_at = env.now + session_ms;
    revoked_at = none;
  }

  -- The primary key refuses an id that is taken (P2002).
  unfoldable pub create_session : ℕ → String → String → String → Exec Accounts (Unit {0})
  create_session user_id refresh_token fingerprint ip_address s =
      let id = env.uuid s.ids_drawn in
      if any (λ x. x.id == id) s.sessions
      then (throw (internal "P2002"), record s { ids_drawn = s.ids_drawn + 1 })
      else (
        ok tt,
        record s {
          sessions = s.sessions ++ session_row id user_id refresh_token fingerprint ip_address ∷ [];
          ids_drawn = s.ids_drawn + 1;
        },
      )

  -- The end of a login and of a refresh: a pair of tokens with its session.
  unfoldable pub start_session : ℕ → String → String → String → Exec Accounts TokenPair
  start_session user_id email fingerprint ip_address = do
    pair ← issue_token_pair user_id email
    create_session user_id pair.refresh_token fingerprint ip_address
    pure pair

  -- `claims.type !== 'refresh' || !claims.sub`
  abbrev refresh_subject : RefreshClaims → Option ℕ
  refresh_subject claims =
      if get_or (map_some (str_eq "refresh") claims.type) false then claims.sub else none

  unfoldable pub token_user : String → Outcome ℕ
  token_user refresh_token = elim (required_secret env.refresh_secret) [
    | throw e ↦ throw (unauthorized "Invalid or expired refresh token")
    | ok secret ↦ elim (env.verify_refresh secret refresh_token) [
      | none ↦ throw (unauthorized "Invalid or expired refresh token")
      | some claims ↦ elim (refresh_subject claims) [
        | none ↦ throw (unauthorized "Invalid refresh token")
        | some sub ↦ ok sub
      ]
    ]
  ]

  -- `refreshTokenHash: hash, userId: sub, revokedAt: null, expiresAt: { gt: now }`
  abbrev pub is_live_session : String → ℕ → LoginSession → Bool
  is_live_session hash user_id x =
      str_eq x.refresh_token_hash hash
      && x.user_id == user_id
      && not (is_some x.revoked_at)
      && ltb env.now x.expires_at

  abbrev check_user : LoginSession → Option User → Outcome (LoginSession × User)
  check_user x none = throw (internal "session without user")
  check_user x (some u) =
      if is_active_user u.status then ok (x, u) else throw (unauthorized "Account is not active")

  -- The first call: the session of a refresh token and its user.
  unfoldable pub find_session : String → String → Accounts → Outcome (LoginSession × User)
  unfolding token_user
  find_session refresh_token fingerprint s = elim (token_user refresh_token) [
    | throw e ↦ throw e
    | ok user_id ↦
        elim (find (is_live_session (env.fingerprint_hash fingerprint refresh_token) user_id)
          s.sessions) [
            | none ↦ throw (unauthorized "Invalid or expired refresh token")
            | some x ↦ check_user x (find_user x.user_id s.users)
          ]
  ]

  abbrev pub revoke_row : LoginSession → LoginSession
  revoke_row x = record x { revoked_at = some env.now }

  -- The second call: `updateMany` where the row is not revoked, which gives the number of rows.
  unfoldable pub claim_session : ℕ → Exec Accounts ℕ
  claim_session id s = (
    ok (length (select (is_claimed_by id) s.sessions)),
    record s { sessions = update_where (is_claimed_by id) revoke_row s.sessions },
  )

  -- What follows the lookup.
  unfoldable pub rotate_session : LoginSession → User → String → String → Exec Accounts TokenPair
  rotate_session x user fingerprint ip_address = do
    count ← claim_session x.id
    throw_if (not (count == 1)) (unauthorized "Invalid or expired refresh token")
    start_session x.user_id user.email fingerprint ip_address

  unfoldable pub refresh : String → String → String → Exec Accounts TokenPair
  refresh refresh_token fingerprint ip_address = do
    found ← λ s. (find_session refresh_token fingerprint s, s)
    rotate_session found.0 found.1 fingerprint ip_address

  unfoldable pub revoke_session : String → String → Accounts → Accounts
  revoke_session refresh_token fingerprint s = record s {
    sessions =
        update_where
          (λ x. str_eq x.refresh_token_hash (env.fingerprint_hash fingerprint refresh_token))
          revoke_row s.sessions;
  }

  unfoldable pub logout_all : ℕ → Accounts → Accounts
  logout_all user_id s = record s {
    sessions = update_where (λ x. x.user_id == user_id) revoke_row s.sessions;
  }

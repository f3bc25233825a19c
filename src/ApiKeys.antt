-- ===== src/ApiKeys.antt =====
-- API keys of a tenant (apps/api/src/modules/api-keys/api-keys.service.ts).
pub mod Scopes
use Prim.Native.String.{slice, ◌++◌ as ◌<>◌}
use signara.Prelude.{
  ℕ, ◌+◌, ◌*◌, String, Bool, true, false, not, ◌&&◌, ◌==◌, str_eq, Option, none, some, List, [],
  ◌∷◌, ◌++◌, if◌then◌else◌, get_or, map_some, is_some, find, select, any, update_where,
}
use signara.Exec.{
  Exec, Outcome, ok, throw, forbidden, not_found, internal, pure, gets, modify, require, ◌>>=◌,
  ◌>>◌,
}
use signara.User.{AuthenticatedUser, Org}
use signara.Accounts.{ApiKey, Accounts, caller_org}

pub record KeyInput : Type 0 where
  pub name : String
  pub scopes : Option (List String)
  pub expires_in_days : Option ℕ

-- What the caller is shown: the row and the key itself, once.
pub record CreatedKey : Type 0 where
  pub row : ApiKey
  pub key : String

pub record KeyEnv : Type 0 where
  pub now : ℕ
  pub uuid : ℕ → ℕ
  -- the n-th `randomBytes(28)`, in base64url
  pub random_key : ℕ → String
  pub sha256 : String → String

abbrev pub day_ms : ℕ
day_ms = 24 * 60 * 60 * 1000

module _ (env : KeyEnv) where
  -- `data.expiresInDays ? now + days : null`
  abbrev expiry : Option ℕ → Option ℕ
  expiry none = none
  expiry (some days) = if days == 0 then none else some (env.now + days * day_ms)

  abbrev pub plaintext : Accounts → String
  plaintext s = "sgn_" <> env.random_key s.tokens_drawn

  abbrev pub key_row : AuthenticatedUser → Org → KeyInput → Accounts → ApiKey
  key_row user org input s = record {
    id = env.uuid s.ids_drawn;
    organization_id = org.id;
    user_id = some user.id;
    name = input.name;
    key_hash = env.sha256 (plaintext s);
    prefix = slice (plaintext s) 0 10;
    scopes = get_or input.scopes [];
    expires_at = expiry input.expires_in_days;
    last_used_at = none;
    revoked_at = none;
  }

  -- The insert, whose unique index refuses a hash that is taken (P2002).
  unfoldable pub create : AuthenticatedUser → KeyInput → Exec Accounts CreatedKey
  create user input = do
    org ← require user.org (forbidden "No active tenant")
    λ s.
        let row = key_row user org input s in
        let drawn = record s { ids_drawn = s.ids_drawn + 1; tokens_drawn = s.tokens_drawn + 1 } in
        if any (λ k. str_eq k.key_hash row.key_hash) s.api_keys
        then (throw (internal "P2002"), drawn)
        else (
          ok (record { row = row; key = plaintext s }),
          record drawn { api_keys = s.api_keys ++ row ∷ [] },
        )

  unfoldable pub list : AuthenticatedUser → Exec Accounts (List ApiKey)
  list user = do
    org ← caller_org user
    gets (λ s. select (λ k. k.organization_id == org.id && not (is_some k.revoked_at)) s.api_keys)

  unfoldable pub revoke : AuthenticatedUser → ℕ → Exec Accounts Bool
  revoke user id = do
    org ← caller_org user
    k ← λ s.
        require (find (λ x. x.id == id && x.organization_id == org.id) s.api_keys)
          (not_found "API key not found") s
    modify (λ s. record s {
      api_keys =
          update_where (λ x. x.id == id) (λ x. record x { revoked_at = some env.now }) s.api_keys;
    })
    pure true

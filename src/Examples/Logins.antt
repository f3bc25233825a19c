-- ===== src/Examples/Logins.antt =====
-- Accounts of the small deployment: a login, refreshes of its session, an API key, and the theorems
-- there.
use signara.Prelude.{◌+◌, ◌≡◌, refl, true, false, none, some, [], ◌∷◌}
use signara.Exec.{ok, throw, unauthorized}
use signara.User.{AuthenticatedUser, Org, user}
use signara.Accounts.{
  User, LoginSession, ApiKey, Accounts, active_user, suspended_user, active_org, owner_role,
}
use signara.Auth.{AuthEnv}
use signara.Auth.Redirect.{slash, home, safe_next_path}
use signara.Auth.Redirect.Paths.{next_path_class}
use signara.Auth.Sessions.{
  TokenPair, rotate_session, start_session, issue_token_pair, create_session, claim_session,
}
use signara.Auth.Sessions.Steps.{here, rotated_once}
use signara.Auth.Login.{IdpClaims, login_with_idp}
use signara.Auth.Login.Reactivation.{login_reactivates}
use signara.ApiKeys.{KeyInput, CreatedKey, KeyEnv, create}
use signara.ApiKeys.Scopes.{authenticate-create}
use signara.Guards.{Route, Headers, admit, jwt_auth_guard, tenant_guard, permissions_guard}
use signara.Guards.Principal.{GuardEnv, authenticate_api_key, key_owner}
use signara.Guards.Keys.{IsUsableKey, HasKeyRights}
use signara.Guards.Admitted.{IsGranted, admit_grants, api_key_rights}

next_path_class_example :
    (safe_next_path (some (slash ∷ b'a' ∷ 10 ∷ [])) ≡ slash ∷ b'a' ∷ 10 ∷ [])
    × (safe_next_path (some (slash ∷ b'u' ∷ [])) ≡ home)
next_path_class_example = next_path_class (b'a' ∷ 10 ∷ []) (slash ∷ b'u' ∷ []) refl refl

abbrev auth_env : AuthEnv
auth_env = record {
  now = 1000;
  uuid = λ n. n + 100;
  lower = λ s. s;
  first_word = λ s. s;
  other_words = λ s. s;
  access_secret = some "access";
  refresh_secret = some "refresh";
  admin_group = none;
  sign_access = λ secret id email n. "access token";
  sign_refresh = λ secret id email n. "refresh token";
  verify_refresh = λ secret token. some (record { type = some "refresh"; sub = some 1 });
  sign_state = λ secret claims. "state";
  verify_state = λ secret state. none;
  fingerprint_hash = λ fingerprint token. token;
}

abbrev eve : User
eve = record {
  id = 1;
  email = "eve@example.com";
  display_name = none;
  timezone = "UTC";
  locale = "en";
  first_name = none;
  last_name = none;
  status = suspended_user;
  platform_role = user;
  auth_provider_id = some "eve";
  mfa_enabled = false;
  email_verified_at = none;
  last_login_at = none;
  deleted_at = none;
}

abbrev eves_session : LoginSession
eves_session = record {
  id = 5;
  user_id = 1;
  refresh_token_hash = "refresh token";
  ip_address = "192.0.2.1";
  expires_at = 9000;
  revoked_at = none;
}

abbrev accounts : Accounts
accounts = record {
  users = eve ∷ [];
  organizations =
      record {
        id = 7;
        name = b'A' ∷ [];
        slug = b'a' ∷ [];
        legal_name = none;
        tax_id = none;
        branding = none;
        status = active_org;
        deleted_at = none;
      }
      ∷ [];
  memberships =
      record { id = 2; organization_id = 7; user_id = 1; role = owner_role; role_id = none } ∷ [];
  roles = [];
  workspaces = [];
  workspace_members = [];
  teams = [];
  team_members = [];
  billing_accounts = [];
  sessions = eves_session ∷ [];
  api_keys = [];
  ids_drawn = 0;
  tokens_drawn = 0;
}

abbrev pair : TokenPair
pair = record { access_token = "access token"; refresh_token = "refresh token"; expires_in = 900 }

abbrev rotated : Accounts
rotated = (rotate_session auth_env eves_session eve "f" "192.0.2.1" accounts).1

eve_refreshes :
    rotate_session auth_env eves_session eve "f" "192.0.2.1" accounts ≡ (ok pair, rotated)
unfolding rotate_session start_session issue_token_pair create_session claim_session
eve_refreshes = refl

rotated_once_example :
    (rotate_session auth_env eves_session eve "g" "192.0.2.2" rotated).0
    ≡ throw (unauthorized "Invalid or expired refresh token")
rotated_once_example =
    rotated_once auth_env auth_env eves_session eve eve "f" "192.0.2.1" "g" "192.0.2.2" accounts
      rotated rotated pair eve_refreshes here

abbrev eves_claims : IdpClaims
eves_claims = record { sub = "eve"; email = "eve@example.com"; name = none; groups = none }

login_reactivates_example :
    (p : TokenPair) × ((login_with_idp auth_env eves_claims "f" "192.0.2.1" accounts).0 ≡ ok p)
login_reactivates_example =
    login_reactivates auth_env eves_claims "f" "192.0.2.1" "access" "refresh" eve accounts refl refl
      refl refl refl refl

abbrev adas_org : Org
adas_org = record { id = 7; role = "OWNER"; permissions = "apikeys.manage" ∷ [] }

abbrev ada : AuthenticatedUser
ada = record {
  id = 1;
  email = "ada@example.com";
  display_name = none;
  platform_role = user;
  org = some adas_org;
}

abbrev ada_row : User
ada_row = record eve { email = "ada@example.com"; status = active_user }

abbrev open_accounts : Accounts
open_accounts = record accounts { users = ada_row ∷ [] }

abbrev key_env : KeyEnv
key_env = record {
  now = 1000;
  uuid = λ n. n + 100;
  random_key = λ n. "0123456789abcdef";
  sha256 = λ s. s;
}

abbrev guard_env : GuardEnv
guard_env = record {
  now = 1000;
  trim = λ s. s;
  access_secret = some "access";
  has_jwks = false;
  decode = λ token. none;
  verify_hs256 = λ secret token. none;
  verify_rs256 = λ key token. none;
  signing_key = λ kid. none;
  sha256 = λ s. s;
  system_id = 0;
}

-- A key with a right that its owner has not.
abbrev key_input : KeyInput
key_input = record { name = "ci"; scopes = some ("billing.manage" ∷ []); expires_in_days = none }

abbrev with_key : Accounts
with_key = (create key_env ada key_input open_accounts).1

abbrev new_key : ApiKey
new_key = record {
  id = 100;
  organization_id = 7;
  user_id = some 1;
  name = "ci";
  key_hash = "sgn_0123456789abcdef";
  prefix = "sgn_012345";
  scopes = "billing.manage" ∷ [];
  expires_at = none;
  last_used_at = none;
  revoked_at = none;
}

abbrev created : CreatedKey
created = record { row = new_key; key = "sgn_0123456789abcdef" }

ada_creates : create key_env ada key_input open_accounts ≡ (ok created, with_key)
unfolding create
ada_creates = refl

authenticate-create_example :
    (caller : AuthenticatedUser) × ((authenticate_api_key guard_env "sgn_0123456789abcdef"
        with_key).0
      ≡ ok caller)
    × (caller.org ≡ some (record { id = 7; role = "API_KEY"; permissions = "billing.manage" ∷ [] }))
authenticate-create_example =
    authenticate-create key_env guard_env ada adas_org key_input ada_row open_accounts with_key
      created refl refl ada_creates refl refl refl

abbrev key_caller : AuthenticatedUser
key_caller = record {
  id = 1;
  email = "ada@example.com";
  display_name = some "ci";
  platform_role = user;
  org = some (record { id = 7; role = "API_KEY"; permissions = "billing.manage" ∷ [] });
}

abbrev key_used : Accounts
key_used = (authenticate_api_key guard_env "sgn_0123456789abcdef" with_key).1

key_accepted :
    authenticate_api_key guard_env "sgn_0123456789abcdef" with_key ≡ (ok key_caller, key_used)
unfolding create authenticate_api_key key_owner
key_accepted = refl

api_key_rights_example :
    (k : ApiKey) × IsUsableKey guard_env with_key "sgn_0123456789abcdef" k
    × (user ≡ user)
    × HasKeyRights with_key k key_caller
api_key_rights_example =
    api_key_rights guard_env "sgn_0123456789abcdef" with_key key_used key_caller key_accepted

abbrev billing_route : Route
billing_route = record {
  required_codes = some ("billing.manage" ∷ []);
  is_public = false;
  tenant_required = true;
}

abbrev key_headers : Headers
key_headers = record { x_api_key = some "sgn_0123456789abcdef"; authorization = none }

abbrev after_admit : Accounts
after_admit = (admit guard_env billing_route key_headers with_key).1

key_admitted :
    admit guard_env billing_route key_headers with_key ≡ (ok (some key_caller), after_admit)
unfolding admit jwt_auth_guard tenant_guard permissions_guard authenticate_api_key key_owner create
key_admitted = refl

admit_grants_example :
    (caller : AuthenticatedUser) × (some key_caller ≡ some caller)
    × IsGranted guard_env billing_route caller
admit_grants_example =
    admit_grants guard_env billing_route key_headers with_key after_admit refl key_admitted

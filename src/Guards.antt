-- ===== src/Guards.antt =====
-- What stands before every handler: the guards of apps/api/src/common/guards, in the order of
-- apps/api/src/app.module.ts (the caller, the tenant, the permissions).
pub mod Principal
pub mod Keys
pub mod Admitted
use signara.Prelude.{
  ℕ, String, Bool, true, false, not, ◌&&◌, ◌||◌, str_eq, Option, none, some, List, [], ◌∷◌,
  if◌then◌else◌, get_or, map_some, is_some, truthy, any, contains,
}
use signara.Exec.{Exec, Outcome, ok, throw, forbidden, unauthorized, pure, lift, ◌>>=◌, ◌>>◌}
use signara.User.{AuthenticatedUser, Org, PlatformRole, platform_admin}
use signara.Accounts.{Accounts}
use signara.Guards.Principal.{GuardEnv, extract_bearer, resolve_principal, authenticate_api_key}

-- The metadata that the decorators set on a route.
pub record Route : Type 0 where
  pub required_codes : Option (List String)
  pub is_public : Bool
  pub tenant_required : Bool

pub record Headers : Type 0 where
  pub x_api_key : Option String
  pub authorization : Option String

abbrev is_admin : PlatformRole → Bool
is_admin platform_admin = true
is_admin _ = false

-- `user.org?.permissions ?? []`
abbrev pub granted : AuthenticatedUser → List String
granted user = get_or (map_some (λ o. o.permissions) user.org) []

-- `requiredCodes.some((code) => granted.includes(code))`
abbrev pub has_any : List String → List String → Bool
has_any codes permissions = any (λ code. contains str_eq code permissions) codes

abbrev no_codes : Option (List String) → Bool
no_codes none = true
no_codes (some []) = true
no_codes (some (code ∷ codes)) = false

abbrev check_permissions : List String → Option AuthenticatedUser → Outcome Bool
check_permissions codes none = throw (forbidden "Authentication required")
check_permissions codes (some user) =
    if is_admin user.platform_role
    then ok true
    else if has_any codes (granted user)
    then ok true
    else throw (forbidden "Missing required permission")

unfoldable pub permissions_guard : Route → Option AuthenticatedUser → Outcome Bool
permissions_guard route user =
    if route.is_public || no_codes route.required_codes
    then ok true
    else check_permissions (get_or route.required_codes []) user

abbrev has_org : Option AuthenticatedUser → Bool
has_org none = false
has_org (some user) = is_some user.org

unfoldable pub tenant_guard : Route → Option AuthenticatedUser → Outcome Bool
tenant_guard route user =
    if route.is_public || not route.tenant_required
    then ok true
    else if has_org user
    then ok true
    else throw (forbidden "No active tenant. Join or create an organization to use this endpoint.")

module _ (env : GuardEnv) where
  abbrev key_caller : String → Exec Accounts (Option AuthenticatedUser)
  key_caller key = do user ← authenticate_api_key env key; pure (some user)

  abbrev token_caller : String → Exec Accounts (Option AuthenticatedUser)
  token_caller token = do user ← resolve_principal env token; pure (some user)

  -- `canActivate` of the JWT guard, with the caller that it puts on the request.
  unfoldable pub jwt_auth_guard : Route → Headers → Exec Accounts (Option AuthenticatedUser)
  jwt_auth_guard route headers s =
      let token = extract_bearer env headers.authorization in
      if truthy headers.x_api_key
      then key_caller (get_or headers.x_api_key "") s
      else if route.is_public
      then (ok none, s)
      else if truthy token
      then token_caller (get_or token "") s
      else (throw (unauthorized "Missing bearer token"), s)

  unfoldable pub admit : Route → Headers → Exec Accounts (Option AuthenticatedUser)
  admit route headers = do
    user ← jwt_auth_guard route headers
    tenant ← lift (tenant_guard route user)
    permitted ← lift (permissions_guard route user)
    pure user

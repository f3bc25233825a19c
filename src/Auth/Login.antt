-- ===== src/Auth/Login.antt =====
-- Logging in with the identity provider (`loginWithIdp` of auth.service.ts).
pub mod Reactivation
pub mod Frame
use signara.Prelude.{
  ℕ, ◌+◌, String, Bool, true, false, not, ◌&&◌, ◌==◌, str_eq, Option, none, some, List, [], ◌∷◌,
  ◌++◌, if◌then◌else◌, get_or, or_else, map_some, find, any, contains, update_where,
}
use signara.Exec.{
  Exec, Outcome, ok, throw, bad_request, unauthorized, internal, throw_if, ◌>>=◌, ◌>>◌,
}
use signara.User.{PlatformRole, user, platform_admin}
use signara.Accounts.{User, Accounts, active_user, is_active_user}
use signara.Auth.{AuthEnv}
use signara.Auth.Sessions.{TokenPair, start_session}

pub record IdpClaims : Type 0 where
  pub sub : String
  pub email : String
  pub name : Option String
  pub groups : Option (List String)

abbrev find_by_email : String → List User → Option User
find_by_email email users = find (λ u. str_eq u.email email) users

-- Another row has the provider's id, which is unique.
abbrev pub sub_taken : String → String → Accounts → Bool
sub_taken sub email s =
    any (λ u. not (str_eq u.email email) && get_or (map_some (str_eq sub) u.auth_provider_id) false)
      s.users

module _ (env : AuthEnv) where
  abbrev role_of : List String → PlatformRole
  role_of groups =
      if contains str_eq (get_or env.admin_group "signara-admins") groups
      then platform_admin
      else user

  -- The columns of the upsert's `update`.
  unfoldable pub login_update : IdpClaims → User → User
  login_update claims u = record u {
    auth_provider_id = some claims.sub;
    display_name = or_else claims.name u.display_name;
    email_verified_at = some env.now;
    status = active_user;
    last_login_at = some env.now;
    platform_role = role_of (get_or claims.groups []);
  }

  unfoldable pub login_create : ℕ → String → IdpClaims → User
  login_create id email claims = record {
    id = id;
    email = email;
    display_name = claims.name;
    timezone = "UTC";
    locale = "en";
    first_name = map_some env.first_word claims.name;
    last_name = map_some env.other_words claims.name;
    status = active_user;
    platform_role = role_of (get_or claims.groups []);
    auth_provider_id = some claims.sub;
    mfa_enabled = false;
    email_verified_at = some env.now;
    last_login_at = none;
    deleted_at = none;
  }

  unfoldable pub upsert_user : String → IdpClaims → Exec Accounts User
  unfolding login_update login_create
  upsert_user email claims s =
      if sub_taken claims.sub email s
      then (throw (internal "P2002"), s)
      else elim (find_by_email email s.users) [
        | some u ↦ (
          ok (login_update claims u),
          record s {
            users = update_where (λ x. str_eq x.email email) (login_update claims) s.users;
          },
        )
        | none ↦ (
          ok (login_create (env.uuid s.ids_drawn) email claims),
          record s {
            users = s.users ++ login_create (env.uuid s.ids_drawn) email claims ∷ [];
            ids_drawn = s.ids_drawn + 1;
          },
        )
      ]

  unfoldable pub login_with_idp : IdpClaims → String → String → Exec Accounts TokenPair
  login_with_idp claims fingerprint ip_address = do
    let email = env.lower claims.email
    throw_if (str_eq email "") (bad_request "Identity provider response missing email")
    u ← upsert_user email claims
    throw_if (not (is_active_user u.status)) (unauthorized "Account is not active")
    start_session env u.id email fingerprint ip_address

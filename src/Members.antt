-- ===== src/Members.antt =====
-- Members of a tenant and their profiles (apps/api/src/modules/users/users.service.ts).
pub mod Isolation
use Prim.Native.String.{len, slice}
use text.Mathlib.Text.{starts_with}
use signara.Prelude.{
  ℕ, ◌+◌, zero, suc, String, Bool, true, false, not, ◌&&◌, ◌||◌, ◌==◌, str_eq, Option, none, some,
  List, [], ◌∷◌, ◌++◌, if◌then◌else◌, get_or, or_else, map_some, is_some, find, select, any,
  contains, length, update_where, to_set,
}
use signara.Exec.{
  Exec, bad_request, conflict, forbidden, not_found, internal, throw, ok, pure, gets, modify,
  throw_if, require, ◌>>=◌, ◌>>◌,
}
use signara.User.{AuthenticatedUser, PlatformRole}
use signara.Accounts.{
  User, OrgMembership, Accounts, UserStatus, MemberRole, is_owner, invited_user, find_user,
}
use signara.Organizations.{resolve_system_role_id, add_members}

pub record MemberEnv : Type 0 where
  pub uuid : ℕ → ℕ
  pub lower : String → String
  pub trim : String → String

pub record Profile : Type 0 where
  pub display_name : Option String
  pub timezone : Option String
  pub locale : Option String

pub record Invite : Type 0 where
  pub email : String
  pub role : MemberRole
  pub workspace_ids : Option (List ℕ)

-- `s.includes('@')`, for the first `n` bytes of `s`
abbrev pub has_at : ℕ → String → Bool
has_at zero s = false
has_at (suc n) s = starts_with (slice s n (n + 1)) "@" || has_at n s

unfoldable pub update_profile : AuthenticatedUser → Profile → Accounts → Accounts
update_profile user input s = record s {
  users =
      update_where (λ u. u.id == user.id)
        (λ u. record u {
          display_name = or_else input.display_name u.display_name;
          timezone = get_or input.timezone u.timezone;
          locale = get_or input.locale u.locale;
        })
        s.users;
}

abbrev role_name : AuthenticatedUser → String
role_name user = get_or (map_some (λ o. o.role) user.org) ""

abbrev pub assert_can_manage : AuthenticatedUser → Exec Accounts (Unit {0})
assert_can_manage user =
    throw_if (not (str_eq (role_name user) "OWNER") && not (str_eq (role_name user) "ADMIN"))
      (forbidden "Only organization owners and administrators can manage members")

abbrev has_email : String → ℕ → Accounts → Bool
has_email email user_id s =
    get_or (map_some (λ u. str_eq u.email email) (find_user user_id s.users)) false

abbrev pub is_member : ℕ → String → Accounts → Bool
is_member organization_id email s =
    any (λ m. m.organization_id == organization_id && has_email email m.user_id s) s.memberships

-- `workspaces.length !== new Set(data.workspaceIds).size`, for the workspaces that are found
abbrev pub missing_workspaces : ℕ → List ℕ → Accounts → Bool
missing_workspaces organization_id ids s =
    let found =
      select (λ w. w.organization_id == organization_id && contains (λ a b. a == b) w.id ids)
        s.workspaces in
    not (length found == length (to_set (λ a b. a == b) ids))

abbrev pub has_workspaces : Option (List ℕ) → Bool
has_workspaces ids = not (length (get_or ids []) == 0)

abbrev pub member_row : ℕ → ℕ → ℕ → MemberRole → Option ℕ → OrgMembership
member_row id organization_id user_id role role_id = record {
  id = id;
  organization_id = organization_id;
  user_id = user_id;
  role = role;
  role_id = role_id;
}

abbrev pub invited : ℕ → String → User
invited id email = record {
  id = id;
  email = email;
  display_name = none;
  timezone = "UTC";
  locale = "en";
  first_name = none;
  last_name = none;
  status = invited_user;
  platform_role = PlatformRole.user;
  auth_provider_id = none;
  mfa_enabled = false;
  email_verified_at = none;
  last_login_at = none;
  deleted_at = none;
}

-- The insert, whose unique index refuses a second membership of a user (P2002).
abbrev pub insert_membership : OrgMembership → Exec Accounts (Unit {0})
insert_membership m s =
    if any (λ x. x.organization_id == m.organization_id && x.user_id == m.user_id) s.memberships
    then (throw (internal "P2002"), record s { ids_drawn = s.ids_drawn + 1 })
    else (ok tt, record s { memberships = s.memberships ++ m ∷ []; ids_drawn = s.ids_drawn + 1 })

-- `workspaceMember.createMany({ skipDuplicates: true })`
abbrev pub join_all : ℕ → List ℕ → Accounts → Accounts
join_all user_id [] s = s
join_all user_id (w ∷ ws) s =
    join_all user_id ws
      (record s { workspace_members = add_members w (user_id ∷ []) s.workspace_members })

module _ (env : MemberEnv) where
  -- `findUnique` of the user by the address, or the user that is created for it.
  unfoldable pub find_or_invite : String → Exec Accounts User
  find_or_invite email s = elim (find (λ u. str_eq u.email email) s.users) [
    | some u ↦ (ok u, s)
    | none ↦ (
      ok (invited (env.uuid s.ids_drawn) email),
      record s {
        users = s.users ++ invited (env.uuid s.ids_drawn) email ∷ [];
        ids_drawn = s.ids_drawn + 1;
      },
    )
  ]

  -- The membership and the workspaces of the invited user.
  unfoldable pub enroll : ℕ → ℕ → Invite → Exec Accounts OrgMembership
  enroll organization_id user_id input = do
    role_id ← gets (resolve_system_role_id input.role)
    id ← gets (λ s. env.uuid s.ids_drawn)
    insert_membership (member_row id organization_id user_id input.role role_id)
    modify (join_all user_id (get_or input.workspace_ids []))
    pure (member_row id organization_id user_id input.role role_id)

  unfoldable pub invite_member : AuthenticatedUser → Invite → Exec Accounts OrgMembership
  unfolding find_or_invite enroll
  invite_member user input = do
    org ← require user.org (forbidden "No active tenant")
    let email = env.trim (env.lower input.email)
    throw_if (not (has_at (len email) email)) (bad_request "Invalid email address")
    taken ← gets (is_member org.id email)
    throw_if taken (conflict "User is already a member")
    missing ← gets (missing_workspaces org.id (get_or input.workspace_ids []))
    throw_if (has_workspaces input.workspace_ids && missing)
        (not_found "One or more workspaces are not in the active organization")
    member ← find_or_invite email
    enroll org.id member.id input

abbrev pub with_role : MemberRole → Option ℕ → OrgMembership → OrgMembership
with_role role role_id m = record m { role = role; role_id = role_id }

-- `update({ where: { id, organizationId } })`, which throws where there is no such row (P2025).
unfoldable pub update_member_role : AuthenticatedUser → ℕ → MemberRole → Exec Accounts (Unit {0})
update_member_role user member_id role = do
  org ← require user.org (forbidden "No active tenant")
  assert_can_manage user
  role_id ← gets (resolve_system_role_id role)
  known ← gets (λ s. any (λ m. m.id == member_id && m.organization_id == org.id) s.memberships)
  throw_if (not known) (internal "P2025")
  modify (λ s. record s {
    memberships =
        update_where (λ m. m.id == member_id && m.organization_id == org.id)
          (with_role role role_id) s.memberships;
  })

-- `delete({ where: { id } })`, where the id is the key of the table.
abbrev pub delete_first : (OrgMembership → Bool) → List OrgMembership → List OrgMembership
delete_first p [] = []
delete_first p (x ∷ xs) = if p x then xs else x ∷ delete_first p xs

unfoldable pub remove_member : AuthenticatedUser → ℕ → Exec Accounts (Unit {0})
remove_member user member_id = do
  org ← require user.org (forbidden "No active tenant")
  assert_can_manage user
  found ← gets (λ s. find (λ m. m.id == member_id) s.memberships)
  m ← require found (not_found "Member not found")
  throw_if (not (m.organization_id == org.id)) (not_found "Member not found")
  throw_if (is_owner m.role) (bad_request "Cannot remove the organization owner")
  modify (λ s. record s { memberships = delete_first (λ m. m.id == member_id) s.memberships })

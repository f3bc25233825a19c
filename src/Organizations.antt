-- ===== src/Organizations.antt =====
-- Tenants with their workspaces and teams
-- (apps/api/src/modules/organizations/organizations.service.ts).
pub mod Slugs
pub mod Candidates
pub mod Tenants
use signara.Prelude.{
  ℕ, ◌+◌, ◌-◌, ◌/◌, ◌%◌, String, Bool, true, false, not, ◌&&◌, ◌||◌, ◌==◌, str_eq, leb, ltb, Option,
  none, some, List, [], ◌∷◌, ◌++◌, if◌then◌else◌, get_or, or_else, map_some, is_some, is_id, find,
  select, any, every, contains, map, length, update_where, to_set, reverse, suc, zero,
}
use signara.Exec.{
  Exec, Outcome, ok, throw, conflict, forbidden, not_found, internal, pure, lift, gets, modify,
  throw_if, require, ◌>>=◌, ◌>>◌,
}
use signara.Text.{Text, text_eq, is_blank_text}
use signara.User.{AuthenticatedUser, Org}
use signara.Accounts.{
  Organization, OrgMembership, Role, Workspace, Team, Belongs, BillingAccount, Visibility, Accounts,
  MemberRole, owner_role, admin_role, manager_role, auditor_role, member_role, active_org,
  community, active_billing, organization_visibility, caller_org,
}

abbrev pub dash : ℕ
dash = b'-'

-- `[a-z0-9-]`
abbrev pub is_slug_char : ℕ → Bool
is_slug_char c = (leb b'a' c && leb c b'z') || (leb b'0' c && leb c b'9') || c == dash

-- `.replace(/[^a-z0-9-]+/g, '-')`: each longest run of other characters becomes one dash. The flag
-- says that the character before was in such a run.
unfoldable pub replace_runs : Bool → Text → Text
replace_runs in_run [] = []
replace_runs in_run (c ∷ s) =
    let kept = replace_runs false s in
    let dropped = replace_runs true s in
    if is_slug_char c then c ∷ kept else if in_run then dropped else dash ∷ dropped

-- `^-+`
unfoldable pub drop_dashes : Text → Text
drop_dashes [] = []
drop_dashes (c ∷ s) = if c == dash then drop_dashes s else c ∷ s

-- `.replace(/^-+|-+$/g, '')`
unfoldable pub trim_dashes : Text → Text
unfolding drop_dashes
trim_dashes s = reverse (drop_dashes (reverse (drop_dashes s)))

-- `s.slice(0, n)`
unfoldable pub first : ℕ → Text → Text
first zero s = []
first (suc n) [] = []
first (suc n) (c ∷ s) = c ∷ first n s

-- `${n}` for a number below 100
abbrev pub decimal : ℕ → Text
decimal n = if ltb n 10 then (b'0' + n) ∷ [] else (b'0' + n / 10) ∷ (b'0' + n % 10) ∷ []

pub record OrgEnv : Type 0 where
  pub uuid : ℕ → ℕ
  pub lower : Text → Text
  pub trim : Text → Text

abbrev pub has_slug : Text → Organization → Bool
has_slug slug o = text_eq o.slug slug

-- `i === 0 ? baseSlug : `${baseSlug.slice(0, 56)}-${i + 1}``
unfoldable pub candidate : Text → ℕ → Text
unfolding first
candidate base zero = base
candidate base (suc i) = first 56 base ++ dash ∷ decimal (i + 2)

-- The rest of the loop, from `i` on with `left` turns to go.
unfoldable pub try_slugs : Text → ℕ → ℕ → Accounts → Option Text
try_slugs base i zero s = none
try_slugs base i (suc left) s =
    let rest = try_slugs base (i + 1) left s in
    if any (has_slug (candidate base i)) s.organizations then rest else some (candidate base i)

abbrev pub role_key : MemberRole → String
role_key owner_role = "ORGANIZATION_OWNER"
role_key admin_role = "ADMINISTRATOR"
role_key manager_role = "MANAGER"
role_key auditor_role = "AUDITOR"
role_key member_role = "USER"

-- `resolveSystemRoleId` of apps/api/src/common/roles.ts
abbrev pub resolve_system_role_id : MemberRole → Accounts → Option ℕ
resolve_system_role_id role s =
    map_some (λ r. r.id) (find (λ r. str_eq r.name (role_key role)) s.roles)

abbrev role_of : AuthenticatedUser → String
role_of user = get_or (map_some (λ o. o.role) user.org) ""

abbrev is_manager : AuthenticatedUser → Bool
is_manager user = contains str_eq (role_of user) ("OWNER" ∷ "ADMIN" ∷ "MANAGER" ∷ [])

abbrev is_admin : AuthenticatedUser → Bool
is_admin user = contains str_eq (role_of user) ("OWNER" ∷ "ADMIN" ∷ [])

abbrev assert_manager : AuthenticatedUser → Exec Accounts (Unit {0})
assert_manager user =
    throw_if (not (is_manager user)) (forbidden "Insufficient role for this operation")

abbrev pub in_tenant : ℕ → ℕ → Accounts → Bool
in_tenant organization_id id s =
    any (λ w. w.id == id && w.organization_id == organization_id) s.workspaces

-- `assertWorkspaceInTenant`, for a workspace that is named
abbrev assert_workspace : ℕ → Option ℕ → Exec Accounts (Unit {0})
assert_workspace organization_id none s = (ok tt, s)
assert_workspace organization_id (some id) s =
    throw_if (not (in_tenant organization_id id s))
      (not_found "Workspace not found in the active organization") s

pub record OrgInput : Type 0 where
  pub name : Text
  pub slug : Option Text
  pub legal_name : Option Text

pub record OrgUpdate : Type 0 where
  pub name : Option Text
  pub legal_name : Option Text
  pub tax_id : Option Text
  pub branding : Option String

pub record WorkspaceInput : Type 0 where
  pub name : Text
  pub slug : Option Text
  pub description : Option Text
  pub visibility : Option Visibility

pub record TeamInput : Type 0 where
  pub name : Text
  pub description : Option Text
  pub workspace_id : Option ℕ
  pub member_ids : Option (List ℕ)

-- `createMany({ skipDuplicates: true })`
unfoldable pub add_members : ℕ → List ℕ → List Belongs → List Belongs
add_members group_id [] rows = rows
add_members group_id (u ∷ us) rows =
    if any (λ b. b.group_id == group_id && b.user_id == u) rows
    then add_members group_id us rows
    else add_members group_id us (rows ++ record { group_id = group_id; user_id = u } ∷ [])

unfoldable pub unique_org_slug : Text → Accounts → Outcome Text
unfolding try_slugs
unique_org_slug base s =
    if is_blank_text base
    then throw (conflict "Could not derive a slug from the organization name")
    else elim (try_slugs base 0 20 s) [
      | none ↦ throw (conflict "Could not allocate a unique slug, try a more specific name")
      | some slug ↦ ok slug
    ]

abbrev pub updated : OrgUpdate → Organization → Organization
updated input o = record o {
  name = get_or input.name o.name;
  legal_name = or_else input.legal_name o.legal_name;
  tax_id = or_else input.tax_id o.tax_id;
  branding = or_else input.branding o.branding;
}

unfoldable pub update_current : AuthenticatedUser → OrgUpdate → Exec Accounts (Unit {0})
update_current user input = do
  org ← require user.org (forbidden "No active tenant")
  throw_if (not (is_admin user))
      (forbidden "Only owners and administrators can update the organization")
  known ← gets (λ s. any (λ o. o.id == org.id) s.organizations)
  throw_if (not known) (internal "P2025")
  modify (λ s. record s {
    organizations = update_where (λ o. o.id == org.id) (updated input) s.organizations;
  })

-- The insert, whose unique index refuses a slug that the tenant has (P2002).
abbrev pub insert_workspace : Workspace → Exec Accounts Workspace
insert_workspace w s =
    if any (λ x. x.organization_id == w.organization_id && text_eq x.slug w.slug) s.workspaces
    then (throw (internal "P2002"), record s { ids_drawn = s.ids_drawn + 1 })
    else (ok w, record s { workspaces = s.workspaces ++ w ∷ []; ids_drawn = s.ids_drawn + 1 })

-- `memberIds.size !== new Set(data.memberIds).size`, for the members that are found
abbrev missing_members : ℕ → List ℕ → Accounts → Bool
missing_members organization_id ids s =
    let members =
      select (λ m. m.organization_id == organization_id && contains (λ a b. a == b) m.user_id ids)
        s.memberships in
    not (
      length (to_set (λ a b. a == b) (map (λ m. m.user_id) members))
      == length (to_set (λ a b. a == b) ids))

abbrev has_ids : Option (List ℕ) → Bool
has_ids ids = not (length (get_or ids []) == 0)

abbrev team_row : ℕ → ℕ → TeamInput → Team
team_row id organization_id input = record {
  id = id;
  organization_id = organization_id;
  workspace_id = input.workspace_id;
  name = input.name;
  description = input.description;
}

abbrev pub org_row : ℕ → Text → Text → Option Text → Organization
org_row id name slug legal_name = record {
  id = id;
  name = name;
  slug = slug;
  legal_name = legal_name;
  tax_id = none;
  branding = none;
  status = active_org;
  deleted_at = none;
}

module _ (env : OrgEnv) where
  unfoldable pub slugify : Text → Text
  unfolding replace_runs trim_dashes first
  slugify input = first 60 (trim_dashes (replace_runs false (env.lower input)))

  abbrev workspace_row : ℕ → ℕ → ℕ → WorkspaceInput → Workspace
  workspace_row id organization_id user_id input = record {
    id = id;
    organization_id = organization_id;
    name = input.name;
    slug = get_or input.slug (slugify input.name);
    description = input.description;
    visibility = get_or input.visibility organization_visibility;
    is_default = false;
    created_by_id = some user_id;
  }

  unfoldable pub create_workspace : AuthenticatedUser → WorkspaceInput → Exec Accounts Workspace
  create_workspace user input = do
    assert_manager user
    org ← caller_org user
    id ← gets (λ s. env.uuid s.ids_drawn)
    insert_workspace (workspace_row id org.id user.id input)

  unfoldable pub create_team : AuthenticatedUser → TeamInput → Exec Accounts Team
  create_team user input = do
    assert_manager user
    org ← caller_org user
    assert_workspace org.id input.workspace_id
    missing ← gets (missing_members org.id (get_or input.member_ids []))
    throw_if (has_ids input.member_ids && missing)
        (not_found "One or more team members are not in the active organization")
    id ← gets (λ s. env.uuid s.ids_drawn)
    modify (λ s. record s {
      teams = s.teams ++ team_row id org.id input ∷ [];
      team_members = add_members id (get_or input.member_ids []) s.team_members;
      ids_drawn = s.ids_drawn + 1;
    })
    pure (team_row id org.id input)

  -- `legalName?.trim() || null`
  abbrev pub trimmed : Option Text → Option Text
  trimmed none = none
  trimmed (some t) = if is_blank_text (env.trim t) then none else some (env.trim t)

  -- `data.slug ? slugify(data.slug) : slugify(name)`
  abbrev pub base_slug : Option Text → Text → Text
  base_slug none name = slugify name
  base_slug (some slug) name = if is_blank_text slug then slugify name else slugify slug

  -- The organization with its owner, its plan and its default workspace, in one insert.
  unfoldable pub insert_organization :
      AuthenticatedUser → Organization → Option ℕ → Accounts → Accounts
  insert_organization user o role_id s = record s {
    organizations = s.organizations ++ o ∷ [];
    memberships =
        s.memberships
        ++ record {
          id = env.uuid (s.ids_drawn + 1);
          organization_id = o.id;
          user_id = user.id;
          role = owner_role;
          role_id = role_id;
        }
          ∷ [];
    billing_accounts =
        s.billing_accounts
        ++ record {
          id = env.uuid (s.ids_drawn + 2);
          organization_id = o.id;
          plan = community;
          status = active_billing;
          seats_limit = 1;
        }
          ∷ [];
    workspaces =
        s.workspaces
        ++ record {
          id = env.uuid (s.ids_drawn + 3);
          organization_id = o.id;
          name =
              b'D' ∷ b'e' ∷ b'f' ∷ b'a' ∷ b'u' ∷ b'l' ∷ b't' ∷ b' ' ∷ b'W' ∷ b'o' ∷ b'r' ∷ b'k'
              ∷ b's' ∷ b'p' ∷ b'a' ∷ b'c' ∷ b'e' ∷ [];
          slug = b'd' ∷ b'e' ∷ b'f' ∷ b'a' ∷ b'u' ∷ b'l' ∷ b't' ∷ [];
          description = none;
          visibility = organization_visibility;
          is_default = true;
          created_by_id = some user.id;
        }
          ∷ [];
    ids_drawn = s.ids_drawn + 4;
  }

  unfoldable pub create_organization : AuthenticatedUser → OrgInput → Exec Accounts Organization
  create_organization user input = do
    throw_if (is_some user.org) (
        conflict
          "You already belong to an organization. New members join through an invite from its owner.")
    let name = env.trim input.name
    throw_if (ltb (length name) 2) (conflict "Organization name is too short")
    slug ← λ s. (unique_org_slug (base_slug input.slug name) s, s)
    role_id ← gets (resolve_system_role_id owner_role)
    id ← gets (λ s. env.uuid s.ids_drawn)
    modify (insert_organization user (org_row id name slug (trimmed input.legal_name)) role_id)
    pure (org_row id name slug (trimmed input.legal_name))

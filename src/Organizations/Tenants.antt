-- ===== src/Organizations/Tenants.antt =====
-- The invariant of the tenants' slugs, for the calls of
-- apps/api/src/modules/organizations/organizations.service.ts.
use signara.Prelude.{
  ◌≡◌, refl, subst, ap, sym, Bool, false, ◌==◌, arith, Bool-cases, Option-cases, update_where, List,
  [], ◌∷◌, ◌++◌, any, inl, inr,
}
use signara.Organizations.Candidates.{unique_org_slug-free}
use signara.Exec.{Outcome-cases}
use signara.Text.{Text, text_eq}
use signara.User.{AuthenticatedUser}
use signara.Accounts.{Organization, Accounts}
use signara.Organizations.{
  OrgEnv, OrgInput, has_slug, unique_org_slug, create_organization, insert_organization, base_slug,
  org_row, trimmed, updated, OrgUpdate, WorkspaceInput, TeamInput, update_current, create_workspace,
  create_team,
}

-- No two tenants have the same slug.
unfoldable pub IsSlugged : List Organization → Type 0
IsSlugged [] = Unit
IsSlugged (o ∷ os) = (any (has_slug o.slug) os ≡ false) × IsSlugged os

text_eq_comm : (s t : Text) → text_eq s t ≡ text_eq t s
text_eq_comm [] [] = refl
text_eq_comm [] (c ∷ t) = refl
text_eq_comm (c ∷ s) [] = refl
text_eq_comm (c ∷ s) (d ∷ t) = ground (arith, text_eq_comm s t)

any-append :
    (p : Organization → Bool) (os : List Organization) (o : Organization)
    → any p os ≡ false
    → p o ≡ false
    → any p (os ++ o ∷ []) ≡ false
any-append p [] o h k = ground arith
any-append p (x ∷ os) o h k = ground (arith, any-append p os o)

append-IsSlugged :
    (os : List Organization) (o : Organization)
    → IsSlugged os
    → any (has_slug o.slug) os ≡ false
    → IsSlugged (os ++ o ∷ [])
unfolding IsSlugged
append-IsSlugged [] o h free = (refl, tt)
append-IsSlugged (x ∷ os) o (fresh, h) free = (
  any-append (has_slug x.slug) os o fresh (ground (arith, text_eq_comm o.slug x.slug)),
  append-IsSlugged os o h (ground arith),
)

create_organization-IsSlugged :
    (env : OrgEnv) (user : AuthenticatedUser) (input : OrgInput) (s : Accounts)
    → IsSlugged s.organizations
    → IsSlugged (create_organization env user input s).1.organizations
unfolding create_organization insert_organization
create_organization-IsSlugged env user input s h =
    elim (Outcome-cases (unique_org_slug (base_slug env input.slug (env.trim input.name)) s)) [
      | inl (slug, e) ↦ ground (
        arith,
        e,
        h,
        append-IsSlugged s.organizations
            (org_row (env.uuid s.ids_drawn) (env.trim input.name) slug
              (trimmed env input.legal_name))
            h (unique_org_slug-free (base_slug env input.slug (env.trim input.name)) s slug e),
      )
      | inr (x, e) ↦ ground (arith, e, h)
    ]

update_where-slugs :
    (p : Organization → Bool) (f : Organization → Organization) (slug : Text)
    (os : List Organization)
    → ((o : Organization) → (f o).slug ≡ o.slug)
    → any (has_slug slug) (update_where p f os) ≡ any (has_slug slug) os
update_where-slugs p f slug [] h = refl
update_where-slugs p f slug (o ∷ os) h =
    ground (arith, ap (λ t. text_eq t slug) (h o), update_where-slugs p f slug os h)

update_where-IsSlugged :
    (p : Organization → Bool) (f : Organization → Organization) (os : List Organization)
    → ((o : Organization) → (f o).slug ≡ o.slug)
    → IsSlugged os
    → IsSlugged (update_where p f os)
unfolding IsSlugged
update_where-IsSlugged p f [] h k = k
update_where-IsSlugged p f (o ∷ os) h (fresh, k) = (
  elim (Bool-cases (p o)) [
    | inl e ↦ ground (
      arith,
      e,
      update_where-slugs p f o.slug os h,
      fresh,
      ap (λ t. any (has_slug t) (update_where p f os)) (h o),
    )
    | inr e ↦ ground (arith, e, update_where-slugs p f o.slug os h, fresh)
  ],
  update_where-IsSlugged p f os h k,
)

-- A call of the service that writes.
pub data OrgCall : Type 0 where
  found_tenant : OrgInput → OrgCall
  rename : OrgUpdate → OrgCall
  open_workspace : WorkspaceInput → OrgCall
  form_team : TeamInput → OrgCall

unfoldable pub run : OrgEnv → AuthenticatedUser → OrgCall → Accounts → Accounts
run env user (found_tenant input) s = (create_organization env user input s).1
run env user (rename input) s = (update_current user input s).1
run env user (open_workspace input) s = (create_workspace env user input s).1
run env user (form_team input) s = (create_team env user input s).1

update_current-IsSlugged :
    (user : AuthenticatedUser) (input : OrgUpdate) (s : Accounts)
    → IsSlugged s.organizations
    → IsSlugged (update_current user input s).1.organizations
unfolding update_current
update_current-IsSlugged user input s h = elim (Option-cases user.org) [
  | inl e ↦ ground (arith, e, h)
  | inr (org, e) ↦ ground (
    arith,
    e,
    h,
    update_where-IsSlugged (λ o. o.id == org.id) (updated input) s.organizations (λ o. refl) h,
  )
]

create_workspace-organizations :
    (env : OrgEnv) (user : AuthenticatedUser) (input : WorkspaceInput) (s : Accounts)
    → (create_workspace env user input s).1.organizations ≡ s.organizations
unfolding create_workspace
create_workspace-organizations env user input s = elim (Option-cases user.org) [
  | inl e ↦ ground (arith, e)
  | inr (org, e) ↦ ground (arith, e)
]

create_team-organizations :
    (env : OrgEnv) (user : AuthenticatedUser) (input : TeamInput) (s : Accounts)
    → (create_team env user input s).1.organizations ≡ s.organizations
unfolding create_team
create_team-organizations env user input s = elim (Option-cases user.org) [
  | inl e ↦ ground (arith, e)
  | inr (org, e) ↦ elim (Option-cases input.workspace_id) [
    | inl w ↦ ground (arith, e, w)
    | inr (id, w) ↦ ground (arith, e, w)
  ]
]

-- Every call that writes keeps the slugs of the tenants distinct, whoever calls and whatever comes of
-- it.
pub run-IsSlugged :
    (env : OrgEnv) (user : AuthenticatedUser) (call : OrgCall) (s : Accounts)
    → IsSlugged s.organizations
    → IsSlugged (run env user call s).organizations
unfolding run
run-IsSlugged env user (found_tenant input) s h = create_organization-IsSlugged env user input s h
run-IsSlugged env user (rename input) s h = update_current-IsSlugged user input s h
run-IsSlugged env user (open_workspace input) s h =
    subst IsSlugged (sym (create_workspace-organizations env user input s)) h
run-IsSlugged env user (form_team input) s h =
    subst IsSlugged (sym (create_team-organizations env user input s)) h

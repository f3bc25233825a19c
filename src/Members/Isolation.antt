-- ===== src/Members/Isolation.antt =====
-- What the member operations of apps/api/src/modules/users/users.service.ts leave alone.
use signara.Prelude.{
  ℕ, ◌≡◌, refl, get_or, Bool, true, false, not, ◌==◌, ◌&&◌, arith, Bool-cases, some, Option-cases,
  String, str_eq, List, [], ◌∷◌, ◌++◌, find, select, update_where, inl, inr,
}
use signara.Exec.{ok, Outcome-cases}
use signara.User.{AuthenticatedUser, Org}
use signara.Organizations.{resolve_system_role_id, add_members}
use signara.Accounts.{OrgMembership, Accounts, MemberRole, is_owner, User}
use signara.Members.{
  MemberEnv, Invite, invite_member, update_member_role, remove_member, delete_first, find_or_invite,
  with_role, join_all, insert_membership, member_row, enroll, invited,
}

-- A call that changes who belongs to the tenant.
pub data MemberCall : Type 0 where
  invite : Invite → MemberCall
  change_role : ℕ → MemberRole → MemberCall
  remove : ℕ → MemberCall

unfoldable pub run : MemberEnv → AuthenticatedUser → MemberCall → Accounts → Accounts
unfolding invite_member update_member_role remove_member
run env user (invite input) s = (invite_member env user input s).1
run env user (change_role id role) s = (update_member_role user id role s).1
run env user (remove id) s = (remove_member user id s).1

-- The memberships in the other tenants.
abbrev pub foreign : ℕ → Accounts → List OrgMembership
foreign organization_id s = select (λ m. not (m.organization_id == organization_id)) s.memberships

abbrev in_org : ℕ → OrgMembership → Bool
in_org id m = not (m.organization_id == id)

select-append :
    (q : OrgMembership → Bool) (xs : List OrgMembership) (x : OrgMembership)
    → q x ≡ false
    → select q (xs ++ x ∷ []) ≡ select q xs
select-append q [] x h = ground arith
select-append q (y ∷ ys) x h = ground (arith, select-append q ys x h)

select-update_where :
    (q p : OrgMembership → Bool) (f : OrgMembership → OrgMembership)
    → ((x : OrgMembership) → p x ≡ true → (q x ≡ false) × (q (f x) ≡ false))
    → (xs : List OrgMembership) → select q (update_where p f xs) ≡ select q xs
select-update_where q p f h [] = refl
select-update_where q p f h (x ∷ xs) = elim (Bool-cases (p x)) [
  | inl e ↦ ground (arith, h x e, select-update_where q p f h xs)
  | inr e ↦ ground (arith, select-update_where q p f h xs)
]

select-delete_first :
    (q p : OrgMembership → Bool) (xs : List OrgMembership) (x : OrgMembership)
    → find p xs ≡ some x
    → q x ≡ false
    → select q (delete_first p xs) ≡ select q xs
select-delete_first q p [] x h e = refl
select-delete_first q p (y ∷ ys) x h e = elim (Bool-cases (p y)) [
  | inl py ↦ ground (arith, py, h, e)
  | inr py ↦ ground (arith, py, h, select-delete_first q p ys x)
]

module _ (user : AuthenticatedUser) (org : Org) (signed_in : user.org ≡ some org) where
  remove_member-foreign :
      (id : ℕ) (s : Accounts) → foreign org.id (remove_member user id s).1 ≡ foreign org.id s
  unfolding remove_member
  remove_member-foreign id s = elim (Option-cases (find (λ m. m.id == id) s.memberships)) [
    | inl e ↦ ground (arith, signed_in, e)
    | inr (m, e) ↦ ground (
      arith,
      signed_in,
      e,
      select-delete_first (in_org org.id) (λ m. m.id == id) s.memberships m e,
    )
  ]

  remove_member-owners :
      (id : ℕ) (s : Accounts)
      → select (λ m. is_owner m.role) (remove_member user id s).1.memberships
        ≡ select (λ m. is_owner m.role) s.memberships
  unfolding remove_member
  remove_member-owners id s = elim (Option-cases (find (λ m. m.id == id) s.memberships)) [
    | inl e ↦ ground (arith, signed_in, e)
    | inr (m, e) ↦ elim (Bool-cases (is_owner m.role)) [
      | inl o ↦ ground (arith, signed_in, e, o)
      | inr o ↦ ground (
        arith,
        signed_in,
        e,
        o,
        select-delete_first (λ m. is_owner m.role) (λ m. m.id == id) s.memberships m e,
      )
    ]
  ]

  update_member_role-foreign :
      (id : ℕ) (role : MemberRole) (s : Accounts)
      → foreign org.id (update_member_role user id role s).1 ≡ foreign org.id s
  unfolding update_member_role
  update_member_role-foreign id role s = ground (
    arith,
    signed_in,
    select-update_where (in_org org.id) (λ m. m.id == id && m.organization_id == org.id)
        (with_role role (resolve_system_role_id role s)) (λ x e. ground arith) s.memberships,
  )

insert_membership-foreign :
    (id : ℕ) (m : OrgMembership) (s : Accounts)
    → m.organization_id ≡ id
    → foreign id (insert_membership m s).1 ≡ foreign id s
insert_membership-foreign id m s h = ground (arith, select-append (in_org id) s.memberships m, h)

join_all-memberships :
    (id : ℕ) (ws : List ℕ) (s : Accounts) → (join_all id ws s).memberships ≡ s.memberships
join_all-memberships id [] s = refl
join_all-memberships id (w ∷ ws) s =
    join_all-memberships id ws
      (record s { workspace_members = add_members w (id ∷ []) s.workspace_members })

find_or_invite-finds :
    (env : MemberEnv) (email : String) (s : Accounts)
    → (u : User) × ((find_or_invite env email s).0 ≡ ok u)
      × ((find_or_invite env email s).1.memberships ≡ s.memberships)
unfolding find_or_invite
find_or_invite-finds env email s = elim (Option-cases (find (λ u. str_eq u.email email) s.users)) [
  | inl e ↦ (invited (env.uuid s.ids_drawn) email, ground (arith, e), ground (arith, e))
  | inr (u, e) ↦ (u, ground (arith, e), ground (arith, e))
]

module _ (env : MemberEnv) (user : AuthenticatedUser) (org : Org) (h : user.org ≡ some org) where
  enroll-foreign :
      (user_id : ℕ) (input : Invite) (s : Accounts)
      → foreign org.id (enroll env org.id user_id input s).1 ≡ foreign org.id s
  unfolding enroll
  enroll-foreign user_id input s =
      let role_id = resolve_system_role_id input.role s in
      let row = member_row (env.uuid s.ids_drawn) org.id user_id input.role role_id in
      elim (Outcome-cases (insert_membership row s).0) [
        | inl (u, e) ↦ ground (
          arith,
          e,
          insert_membership-foreign org.id row s refl,
          join_all-memberships user_id (get_or input.workspace_ids []) (insert_membership row s).1,
        )
        | inr (x, e) ↦ ground (arith, e, insert_membership-foreign org.id row s refl)
      ]

  invite_member-foreign :
      (input : Invite) (s : Accounts)
      → foreign org.id (invite_member env user input s).1 ≡ foreign org.id s
  unfolding invite_member
  invite_member-foreign input s =
      let email = env.trim (env.lower input.email) in
      let (u, found, kept) = find_or_invite-finds env email s in
      ground (arith, h, found, kept, enroll-foreign u.id input (find_or_invite env email s).1)

-- Whatever the call, the memberships in other tenants than the caller's stay as they are.
pub members_isolated :
    (env : MemberEnv) (user : AuthenticatedUser) (org : Org) (call : MemberCall) (s : Accounts)
    → user.org ≡ some org
    → foreign org.id (run env user call s) ≡ foreign org.id s
unfolding run
members_isolated env user org (invite input) s h = invite_member-foreign env user org h input s
members_isolated env user org (change_role id role) s h =
    update_member_role-foreign user org h id role s
members_isolated env user org (remove id) s h = remove_member-foreign user org h id s

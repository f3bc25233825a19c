-- ===== src/Examples/Tenants.antt =====
-- Examples of the organization and the member services.
use signara.Prelude.{ℕ, ◌+◌, ◌≡◌, ◌⊎◌, ◌<◌, ◌≤◌, refl, ◌∷◌, [], none, some, length, false, true}
use signara.Exec.{ok, throw, conflict}
use signara.Text.{Text}
use signara.User.{AuthenticatedUser, Org, user}
use signara.Accounts.{Accounts, OrgMembership, active_org, owner_role, member_role}
use signara.Organizations.{OrgEnv, OrgInput, slugify, unique_org_slug, candidate}
use signara.Organizations.Slugs.{IsSlug, no_leading_dash, slugify-IsSlug}
use signara.Organizations.Candidates.{taken, all_taken, unique_org_slug_first}
use signara.Organizations.Tenants.{IsSlugged, found_tenant, run, run-IsSlugged}
use signara.Members.{MemberEnv}
use signara.Members.Isolation.{run as call, remove, foreign, members_isolated}

abbrev org_env : OrgEnv
org_env = record { uuid = λ n. n + 100; lower = λ t. t; trim = λ t. t }

abbrev acme : Text
acme = b'a' ∷ b'c' ∷ b'm' ∷ b'e' ∷ []

abbrev acme_inc : Text
acme_inc = b' ' ∷ b'a' ∷ b'c' ∷ b'm' ∷ b'e' ∷ b' ' ∷ b'!' ∷ []

slug_of_acme : slugify org_env acme_inc ≡ acme
unfolding slugify
slug_of_acme = refl

abbrev owner_row : OrgMembership
owner_row = record { id = 2; organization_id = 7; user_id = 1; role = owner_role; role_id = none }

abbrev guest_row : OrgMembership
guest_row = record { id = 3; organization_id = 7; user_id = 5; role = member_role; role_id = none }

abbrev other_row : OrgMembership
other_row = record { id = 4; organization_id = 8; user_id = 5; role = owner_role; role_id = none }

abbrev accounts : Accounts
accounts = record {
  users = [];
  organizations =
      record {
        id = 7;
        name = acme;
        slug = acme;
        legal_name = none;
        tax_id = none;
        branding = none;
        status = active_org;
        deleted_at = none;
      }
      ∷ [];
  memberships = owner_row ∷ guest_row ∷ other_row ∷ [];
  roles = [];
  workspaces = [];
  workspace_members = [];
  teams = [];
  team_members = [];
  billing_accounts = [];
  sessions = [];
  api_keys = [];
  ids_drawn = 0;
  tokens_drawn = 0;
}

abbrev acmes_org : Org
acmes_org = record { id = 7; role = "ADMIN"; permissions = [] }

abbrev ada : AuthenticatedUser
ada = record {
  id = 1;
  email = "ada@example.com";
  display_name = none;
  platform_role = user;
  org = some acmes_org;
}

abbrev bob : AuthenticatedUser
bob = record ada { id = 9; org = none }

abbrev bobs_input : OrgInput
bobs_input = record { name = acme; slug = none; legal_name = none }

slugify-IsSlug_example :
    IsSlug (slugify org_env acme_inc)
    × (length (slugify org_env acme_inc) ≤ 60)
    × (no_leading_dash (slugify org_env acme_inc) ≡ true)
slugify-IsSlug_example = slugify-IsSlug org_env acme_inc

unique_org_slug_first_example :
    ((k : ℕ) × (k < 20)
      × (unique_org_slug acme accounts ≡ ok (candidate acme k))
      × (taken (candidate acme k) accounts ≡ false)
      × (all_taken acme 0 k accounts ≡ true))
    ⊎ ((unique_org_slug acme accounts
          ≡ throw (conflict "Could not allocate a unique slug, try a more specific name"))
        × (all_taken acme 0 20 accounts ≡ true))
unique_org_slug_first_example = unique_org_slug_first acme accounts refl

second_acme : unique_org_slug acme accounts ≡ ok (b'a' ∷ b'c' ∷ b'm' ∷ b'e' ∷ b'-' ∷ b'2' ∷ [])
unfolding unique_org_slug candidate
second_acme = refl

run-IsSlugged_example : IsSlugged (run org_env bob (found_tenant bobs_input) accounts).organizations
unfolding IsSlugged
run-IsSlugged_example = run-IsSlugged org_env bob (found_tenant bobs_input) accounts (refl, tt)

abbrev member_env : MemberEnv
member_env = record { uuid = λ n. n + 100; lower = λ s. s; trim = λ s. s }

guest_removed : (call member_env ada (remove 3) accounts).memberships ≡ owner_row ∷ other_row ∷ []
unfolding call
guest_removed = refl

members_isolated_example : foreign 7 (call member_env ada (remove 3) accounts) ≡ foreign 7 accounts
members_isolated_example = members_isolated member_env ada acmes_org (remove 3) accounts refl

-- ===== src/Accounts.antt =====
-- Accounts, tenants and what authenticates a caller: the tables of
-- packages/database/prisma/schema.prisma that the auth, api-key, organization and user services use.
use signara.Prelude.{ℕ, String, Bool, true, false, Option, List, ◌==◌, find}
use signara.Exec.{Exec, forbidden, require}
use signara.Text.{Text}
use signara.User.{AuthenticatedUser, Org, PlatformRole}

pub data UserStatus : Type 0 where
  active_user invited_user suspended_user deactivated_user : UserStatus

pub data OrgStatus : Type 0 where
  active_org trial_org suspended_org canceled_org : OrgStatus

pub data MemberRole : Type 0 where
  owner_role admin_role manager_role auditor_role member_role : MemberRole

abbrev pub is_active_user : UserStatus → Bool
is_active_user active_user = true
is_active_user _ = false

-- `status: { in: ['ACTIVE', 'TRIAL'] }`
abbrev pub is_live_org : OrgStatus → Bool
is_live_org active_org = true
is_live_org trial_org = true
is_live_org _ = false

abbrev pub is_owner : MemberRole → Bool
is_owner owner_role = true
is_owner _ = false

pub record User : Type 0 where
  pub id : ℕ
  pub email : String
  pub display_name : Option String
  pub timezone : String
  pub locale : String
  pub first_name : Option String
  pub last_name : Option String
  pub status : UserStatus
  pub platform_role : PlatformRole
  pub auth_provider_id : Option String
  pub mfa_enabled : Bool
  pub email_verified_at : Option ℕ
  pub last_login_at : Option ℕ
  pub deleted_at : Option ℕ

pub record Organization : Type 0 where
  pub id : ℕ
  pub name : Text
  pub slug : Text
  pub legal_name : Option Text
  pub tax_id : Option Text
  -- a JSON document, as its text
  pub branding : Option String
  pub status : OrgStatus
  pub deleted_at : Option ℕ

-- A role with the codes of its permissions, which the services join in.
pub record Role : Type 0 where
  pub id : ℕ
  pub name : String
  pub permissions : List String

pub record OrgMembership : Type 0 where
  pub id : ℕ
  pub organization_id : ℕ
  pub user_id : ℕ
  pub role : MemberRole
  pub role_id : Option ℕ

pub data Visibility : Type 0 where
  private_visibility team_visibility organization_visibility : Visibility

pub record Workspace : Type 0 where
  pub id : ℕ
  pub organization_id : ℕ
  pub name : Text
  pub slug : Text
  pub description : Option Text
  pub visibility : Visibility
  pub is_default : Bool
  pub created_by_id : Option ℕ

-- A row of `WorkspaceMember` and of `TeamMember`: both tables are unique by these columns.
pub record Belongs : Type 0 where
  pub group_id : ℕ
  pub user_id : ℕ

pub record Team : Type 0 where
  pub id : ℕ
  pub organization_id : ℕ
  pub workspace_id : Option ℕ
  pub name : Text
  pub description : Option Text

pub data PlanCode : Type 0 where
  community professional business enterprise : PlanCode

pub data SubscriptionStatus : Type 0 where
  trialing active_billing past_due canceled_billing unpaid : SubscriptionStatus

pub record BillingAccount : Type 0 where
  pub id : ℕ
  pub organization_id : ℕ
  pub plan : PlanCode
  pub status : SubscriptionStatus
  pub seats_limit : ℕ

pub record LoginSession : Type 0 where
  pub id : ℕ
  pub user_id : ℕ
  pub refresh_token_hash : String
  pub ip_address : String
  pub expires_at : ℕ
  pub revoked_at : Option ℕ

pub record ApiKey : Type 0 where
  pub id : ℕ
  pub organization_id : ℕ
  pub user_id : Option ℕ
  pub name : String
  pub key_hash : String
  pub prefix : String
  pub scopes : List String
  pub expires_at : Option ℕ
  pub last_used_at : Option ℕ
  pub revoked_at : Option ℕ

pub record Accounts : Type 0 where
  pub users : List User
  pub organizations : List Organization
  pub memberships : List OrgMembership
  pub roles : List Role
  pub workspaces : List Workspace
  pub workspace_members : List Belongs
  pub teams : List Team
  pub team_members : List Belongs
  pub billing_accounts : List BillingAccount
  pub sessions : List LoginSession
  pub api_keys : List ApiKey
  pub ids_drawn : ℕ
  pub tokens_drawn : ℕ

abbrev pub find_user : ℕ → List User → Option User
find_user id users = find (λ u. u.id == id) users

-- `user.org?.id!` and `if (!orgId) throw new ForbiddenException('No active tenant')`: the tenant
-- guard admits no caller without a tenant to the routes that do not ask.
abbrev pub caller_org : {S : Type 0} → AuthenticatedUser → Exec S Org
caller_org user s = require user.org (forbidden "No active tenant") s

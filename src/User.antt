-- ===== src/User.antt =====
-- The authenticated caller (`AuthenticatedUser` of apps/api/src/common/types.ts).
use signara.Prelude.{ℕ, String, Option, List}

pub data PlatformRole : Type 0 where
  user platform_admin : PlatformRole

pub record Org : Type 0 where
  pub id : ℕ
  pub role : String
  pub permissions : List String

pub record AuthenticatedUser : Type 0 where
  pub id : ℕ
  pub email : String
  pub display_name : Option String
  pub platform_role : PlatformRole
  pub org : Option Org

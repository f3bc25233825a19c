-- ===== src/Env.antt =====
-- What the services take from outside the repository's code: the clock, the generators of ids and
-- of random tokens, text functions of the language, hashing, the object store and the
-- configuration. A handler reads the clock once.
use signara.Prelude.{ℕ, String, Bool, Option, List}

-- What the services read of a parsed `URL`: its protocol, its hostname as code points, and its text.
pub data Protocol : Type 0 where
  https http other_protocol : Protocol

pub record Url : Type 0 where
  pub protocol : Protocol
  pub hostname : List ℕ
  pub href : String

pub record Env : Type 0 where
  -- `Date.now()`, in milliseconds
  pub now : ℕ
  -- the n-th `uuid()` and the n-th `randomBytes(24)`, written as a signing token
  pub uuid : ℕ → ℕ
  pub random_token : ℕ → String
  -- `s.toLowerCase().trim()` and `s.trim() === ''`
  pub normalize : String → String
  pub is_blank : String → Bool
  -- `s.slice(0, 500)`
  pub first_500 : String → String
  -- the SHA-256 of the stored file, the signer's email and the request id
  pub content_hash : String → String → ℕ → String
  pub presigned_url : String → String
  -- `${webUrl}/sign/${token}`
  pub sign_url : String → String
  -- `smtp.host`, `reminders.afterDays` and `reminders.max` of the configuration
  pub smtp_host : Option String
  pub reminders_after_days : Option ℕ
  pub reminders_max : Option ℕ
  -- `webhooks.allowPrivate`, `.autoDisableAfterDays` and `.autoDisableMinFailures`
  pub allow_private : Option Bool
  pub auto_disable_after_days : Option ℕ
  pub auto_disable_min_failures : Option ℕ
  -- the demo's tenant, which `organization.upsert` gives, and its stored file and message
  pub demo_organization_id : ℕ
  pub demo_file_key : String
  pub demo_message : String
  -- `new URL(raw)`, with `none` where it throws, and `toLowerCase` on code points
  pub parse_url : String → Option Url
  pub lower : List ℕ → List ℕ
  -- the n-th signing secret of an endpoint
  pub random_secret : ℕ → String

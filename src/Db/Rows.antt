-- ===== src/Db/Rows.antt =====
-- The rows of the tables in packages/database/prisma/schema.prisma, with the columns that the
-- modelled services read or write. Ids are opaque and compared for equality only, so they are
-- numbers; instants are milliseconds.
use signara.Prelude.{ℕ, String, Bool, Option, List}
use signara.Certificates.Assurance.{StoredAssurance}
use signara.Db.Enums.{
  DocumentStatus, SigningMode, SignerRole, SignerStatus, SignatureType, EventType, FieldType,
  RuleAction,
}

-- A JSON value as far as the code tells values apart: `is_blank` asks for null and strings.
pub data Json : Type 0 where
  null : Json
  bool : Bool → Json
  num : ℕ → Json
  str : String → Json
  composite : ℕ → Json

pub record Document : Type 0 where
  pub id : ℕ
  pub organization_id : ℕ
  pub template_id : Option ℕ
  pub title : String
  pub file_name : String
  pub file_key : String
  pub status : DocumentStatus
  pub deleted_at : Option ℕ

pub record SigningRequest : Type 0 where
  pub id : ℕ
  pub organization_id : ℕ
  pub document_id : ℕ
  pub title : Option String
  pub status : DocumentStatus
  pub mode : SigningMode
  pub message : Option String
  pub deadline : Option ℕ
  pub completed_at : Option ℕ
  pub created_by_id : Option ℕ

pub record Signer : Type 0 where
  pub id : ℕ
  pub request_id : ℕ
  pub user_id : Option ℕ
  pub email : String
  pub name : Option String
  pub role : SignerRole
  pub order_index : ℕ
  pub status : SignerStatus
  pub token : String
  pub viewed_at : Option ℕ
  pub signed_at : Option ℕ
  pub reminder_count : ℕ
  pub auth_method : Option String

-- The keys that the service writes into `SignatureEvent.metadata`; a key that is not written is
-- `none`.
pub record Metadata : Type 0 where
  pub created_by : Option String
  pub fields_placed : Option ℕ
  pub ip_address : Option String
  pub user_agent : Option String
  pub signature_id : Option ℕ
  pub signature_type : Option SignatureType
  pub fields_captured : Option ℕ
  pub certificate_serial : Option String
  pub certificate_id : Option ℕ
  pub identity_assurance : Option StoredAssurance
  pub in_person : Option Bool
  pub completed : Option Bool
  pub reason : Option String
  pub cancelled_by : Option String
  pub requested_by : Option String
  pub automatic : Option Bool
  pub handed_over_by : Option String

pub record SignatureEvent : Type 0 where
  pub id : ℕ
  pub request_id : ℕ
  pub signer_id : Option ℕ
  pub type : EventType
  pub metadata : Option Metadata
  pub ip_address : Option String
  pub user_agent : Option String
  pub created_at : ℕ

pub record Signature : Type 0 where
  pub id : ℕ
  pub request_id : ℕ
  pub document_id : ℕ
  pub signer_id : ℕ
  pub type : SignatureType
  pub certificate_id : Option ℕ
  pub certificate_serial : Option String
  pub signed_hash : String
  pub signature_value : Option String
  pub signature_format : Option String
  pub crypto_algorithm : String
  pub identity_assurance : StoredAssurance
  pub ip_address : Option String
  pub user_agent : Option String

pub record RequestField : Type 0 where
  pub id : ℕ
  pub request_id : ℕ
  pub signer_id : Option ℕ
  pub type : FieldType
  pub name : Option String
  pub key : Option String
  pub is_required : Bool
  pub page_number : ℕ
  pub x : Option ℕ
  pub y : Option ℕ
  pub width : Option ℕ
  pub height : Option ℕ
  pub options : Option Json
  pub value : Option Json
  pub filled_at : Option ℕ

pub record TemplateField : Type 0 where
  pub template_id : ℕ
  pub type : FieldType
  pub name : Option String
  pub key : Option String
  pub is_required : Bool
  pub page_number : ℕ
  pub assignee_order : ℕ
  pub x : Option ℕ
  pub y : Option ℕ
  pub width : Option ℕ
  pub height : Option ℕ
  pub options : Option Json

pub record Template : Type 0 where
  pub id : ℕ
  pub organization_id : ℕ

pub record WorkflowRule : Type 0 where
  pub id : ℕ
  pub request_id : ℕ
  pub order_index : ℕ
  pub condition : Json
  pub action : RuleAction
  pub target_signer_id : Option ℕ

pub record WebhookEndpoint : Type 0 where
  pub id : ℕ
  pub organization_id : ℕ
  pub url : String
  pub events : List String
  pub secret : String
  pub description : Option String
  pub active : Bool
  pub disabled_at : Option ℕ
  pub created_at : ℕ

pub data DeliveryStatus : Type 0 where
  delivery_pending delivered failed : DeliveryStatus

-- The `payload` of a delivery: `{ event, organizationId, requestId?, createdAt, ...payload }`, the
-- last part being what the caller adds.
pub record WebhookPayload : Type 0 where
  pub event : String
  pub organization_id : ℕ
  pub request_id : Option ℕ
  pub created_at : ℕ
  pub signer_id : Option ℕ
  pub signer_ids : Option (List ℕ)
  pub metadata : Option Metadata

pub record WebhookDelivery : Type 0 where
  pub id : ℕ
  pub endpoint_id : ℕ
  pub organization_id : ℕ
  pub event : String
  pub payload : WebhookPayload
  pub status : DeliveryStatus
  pub attempts : ℕ
  pub response_status : Option ℕ
  pub error : Option String
  pub created_at : ℕ
  pub last_attempt_at : Option ℕ
  pub delivered_at : Option ℕ

pub record Notification : Type 0 where
  pub id : ℕ
  pub user_id : ℕ
  pub organization_id : ℕ
  pub type : String
  pub endpoint_id : ℕ
  pub failures : ℕ
  pub days : ℕ

pub data MembershipRole : Type 0 where
  owner admin manager auditor member : MembershipRole

-- A membership with the columns of its user and role that recipients are chosen by.
pub record Membership : Type 0 where
  pub user_id : ℕ
  pub organization_id : ℕ
  pub role : MembershipRole
  pub user_active : Bool
  pub user_deleted : Bool
  pub permissions : List String

-- The calls of `queue.add` on the signing and webhook queues.
pub data Job : Type 0 where
  send_signing_invite : (request_id signer_id : ℕ) → Job
  send_signing_reminder : (request_id signer_id attempt : ℕ) → Job
  send_completion_mail : (request_id : ℕ) → Job
  deliver : (delivery_id : ℕ) → Job

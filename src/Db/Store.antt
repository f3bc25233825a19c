-- ===== src/Db/Store.antt =====
-- The tables as lists in the order of creation, and the Prisma calls on them.
use signara.Prelude.{
  ℕ, ◌+◌, String, Option, List, [], ◌∷◌, ◌++◌, ◌==◌, str_eq, find, select, update_where,
}
use signara.Exec.{Exec, ok}
use signara.Db.Rows.{
  Document, SigningRequest, Signer, SignatureEvent, Signature, RequestField, TemplateField,
  Template, WorkflowRule, WebhookEndpoint, WebhookDelivery, Notification, Membership, Job,
}

pub record Db : Type 0 where
  pub documents : List Document
  pub requests : List SigningRequest
  pub signers : List Signer
  pub events : List SignatureEvent
  pub signatures : List Signature
  pub fields : List RequestField
  pub templates : List Template
  pub template_fields : List TemplateField
  pub workflow_rules : List WorkflowRule
  pub endpoints : List WebhookEndpoint
  pub deliveries : List WebhookDelivery
  pub notifications : List Notification
  pub memberships : List Membership
  pub jobs : List Job
  -- how many ids and tokens have been drawn from the generators
  pub ids_drawn : ℕ
  pub tokens_drawn : ℕ

-- `findUnique({ where: { id } })`
abbrev pub find_request : ℕ → Db → Option SigningRequest
find_request id db = find (λ r. r.id == id) db.requests

abbrev pub find_document : ℕ → Db → Option Document
find_document id db = find (λ d. d.id == id) db.documents

abbrev pub find_signer_by_token : String → Db → Option Signer
find_signer_by_token token db = find (λ s. str_eq s.token token) db.signers

-- `findMany({ where: { requestId } })`
abbrev pub signers_of : ℕ → Db → List Signer
signers_of request_id db = select (λ s. s.request_id == request_id) db.signers

-- `update({ where: { id }, data })`
unfoldable pub update_request : ℕ → (SigningRequest → SigningRequest) → Db → Db
update_request id f db = record db { requests = update_where (λ r. r.id == id) f db.requests }

unfoldable pub update_document : ℕ → (Document → Document) → Db → Db
update_document id f db = record db { documents = update_where (λ d. d.id == id) f db.documents }

unfoldable pub update_signer : ℕ → (Signer → Signer) → Db → Db
update_signer id f db = record db { signers = update_where (λ s. s.id == id) f db.signers }

unfoldable pub update_field : ℕ → (RequestField → RequestField) → Db → Db
update_field id f db = record db { fields = update_where (λ r. r.id == id) f db.fields }

unfoldable pub update_endpoint : ℕ → (WebhookEndpoint → WebhookEndpoint) → Db → Db
update_endpoint id f db = record db { endpoints = update_where (λ e. e.id == id) f db.endpoints }

unfoldable pub update_delivery : ℕ → (WebhookDelivery → WebhookDelivery) → Db → Db
update_delivery id f db = record db { deliveries = update_where (λ d. d.id == id) f db.deliveries }

-- `queue.add`
unfoldable pub add_job : Job → Db → Db
add_job j db = record db { jobs = db.jobs ++ j ∷ [] }

-- The next value of the id generator (`@default(uuid())`), which is not the repository's code.
unfoldable pub draw_id : (ℕ → ℕ) → Exec Db ℕ
draw_id uuid db = (ok (uuid db.ids_drawn), record db { ids_drawn = db.ids_drawn + 1 })

-- ===== src/Signatures/Evidence.antt =====
-- The evidence report of a request (`evidenceReport` and `buildComplianceStatement` of
-- signatures.service.ts).
use signara.Prelude.{ℕ, String, not, ◌==◌, Option, List, map, is_id, select, length, sort_by}
use signara.Exec.{Exec, not_found, internal, gets, require, ◌>>=◌}
use signara.Db.{
  Db, Document, Signer, SigningRequest, SigningMode, DocumentStatus, SignerRole, SignerStatus,
  SignatureEvent, Signature, RequestField, is_cc, is_signed_event, find_document, signers_of,
}
use signara.User.{AuthenticatedUser}
use signara.Signatures.Control.{find_own_request, tenant_of}

-- A signer's part of the envelope.
pub record SignerEvidence : Type 0 where
  pub email : String
  pub name : Option String
  pub role : SignerRole
  pub status : SignerStatus
  pub viewed_at : Option ℕ
  pub signed_at : Option ℕ
  pub auth_method : Option String
  pub fields : List RequestField
  pub signatures : List Signature

-- The report's id and date, the originator's name and the tenant's branding are left out.
pub record EvidenceReport : Type 0 where
  pub request_id : ℕ
  pub document : Document
  pub mode : SigningMode
  pub status : DocumentStatus
  pub completed_at : Option ℕ
  pub signer_count : ℕ
  pub envelope : List SignerEvidence
  pub audit_trail : List SignatureEvent
  pub signature_events : ℕ

abbrev pub events_of : ℕ → Db → List SignatureEvent
events_of request_id db = select (λ e. e.request_id == request_id) db.events

-- The number that `buildComplianceStatement` states.
unfoldable pub signed_count : List SignatureEvent → ℕ
signed_count events = length (select (λ e. is_signed_event e.type) events)

-- `fields` of the request by page, then those of the signer
unfoldable pub signer_evidence : ℕ → Db → Signer → SignerEvidence
signer_evidence request_id db s = record {
  email = s.email;
  name = s.name;
  role = s.role;
  status = s.status;
  viewed_at = s.viewed_at;
  signed_at = s.signed_at;
  auth_method = s.auth_method;
  fields =
      select (λ f. is_id s.id f.signer_id)
        (sort_by (λ f. f.page_number) (select (λ f. f.request_id == request_id) db.fields));
  signatures = select (λ x. x.signer_id == s.id) db.signatures;
}

unfoldable pub report_of : SigningRequest → Document → Db → EvidenceReport
unfolding signer_evidence signed_count
report_of r document db = record {
  request_id = r.id;
  document = document;
  mode = r.mode;
  status = r.status;
  completed_at = r.completed_at;
  signer_count = length (select (λ s. not (is_cc s.role)) (signers_of r.id db));
  envelope = map (signer_evidence r.id db) (signers_of r.id db);
  audit_trail = events_of r.id db;
  signature_events = signed_count (events_of r.id db);
}

unfoldable pub evidence_report : AuthenticatedUser → ℕ → Exec Db EvidenceReport
unfolding report_of
evidence_report user id = do
  org ← tenant_of user
  r ← λ db. require (find_own_request org.id id db) (not_found "Signing request not found") db
  document ← λ db. require (find_document r.document_id db) (internal "P2025") db
  gets (report_of r document)

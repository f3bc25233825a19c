-- ===== src/Signatures/Trail/Frame.antt =====
-- What recording an event changes: one row is appended to the trail, and outgoing work is queued.
use signara.Prelude.{ℕ, ◌≡◌, refl, ap, Option, none, some, List, [], ◌∷◌, ◌++◌}
use signara.Db.{Db, SigningRequest, EventType, Metadata, find_request}
use signara.Env.{Env}
use signara.Webhooks.Events.{WebhookEvent}
use signara.Webhooks.Emit.Frame.{IsQuiet, emit-IsQuiet}
use signara.Signatures.Trail.{
  emit_found, emit_webhook_for_request, emit_if, event_row, webhook_event_for, record_event,
}

module _ (env : Env) where
  emit_found-IsQuiet :
      (event : WebhookEvent) (id : ℕ) (signer_id : Option ℕ) (signer_ids : Option (List ℕ))
      (m : Option Metadata) (o : Option SigningRequest) (db : Db)
      → IsQuiet db (emit_found env event id signer_id signer_ids m o db)
  unfolding emit_found
  emit_found-IsQuiet event id signer_id signer_ids m none db = refl
  emit_found-IsQuiet event id signer_id signer_ids m (some r) db = emit-IsQuiet env event _ db

  pub emit_webhook_for_request-IsQuiet :
      (event : WebhookEvent) (id : ℕ) (signer_id : Option ℕ) (signer_ids : Option (List ℕ))
      (m : Option Metadata) (db : Db)
      → IsQuiet db (emit_webhook_for_request env event id signer_id signer_ids m db)
  unfolding emit_webhook_for_request
  emit_webhook_for_request-IsQuiet event id signer_id signer_ids m db =
      emit_found-IsQuiet event id signer_id signer_ids m (find_request id db) db

  emit_if-IsQuiet :
      (o : Option WebhookEvent) (id : ℕ) (signer_id : Option ℕ) (m : Metadata) (db : Db)
      → IsQuiet db (emit_if env o id signer_id m db)
  unfolding emit_if
  emit_if-IsQuiet none id signer_id m db = refl
  emit_if-IsQuiet (some event) id signer_id m db =
      emit_webhook_for_request-IsQuiet event id signer_id none (some m) db

  module _ (id : ℕ) (type : EventType) (signer_id : Option ℕ) (m : Metadata) (db : Db) where
    abbrev pub after : Db
    after = record_event env id type signer_id m db

    pub record_event_frame : record_event env id type signer_id m db ≡ record db {
      events = db.events ++ event_row env (env.uuid db.ids_drawn) id type signer_id m ∷ [];
      deliveries = (record_event env id type signer_id m db).deliveries;
      jobs = (record_event env id type signer_id m db).jobs;
      ids_drawn = (record_event env id type signer_id m db).ids_drawn;
    }
    unfolding record_event
    record_event_frame = emit_if-IsQuiet (webhook_event_for type m) id signer_id m _

    pub signers-record_event : after.signers ≡ db.signers
    signers-record_event = ap (λ d. d.signers) record_event_frame

    pub requests-record_event : after.requests ≡ db.requests
    requests-record_event = ap (λ d. d.requests) record_event_frame

    pub documents-record_event : after.documents ≡ db.documents
    documents-record_event = ap (λ d. d.documents) record_event_frame

    pub signatures-record_event : after.signatures ≡ db.signatures
    signatures-record_event = ap (λ d. d.signatures) record_event_frame

    pub fields-record_event : after.fields ≡ db.fields
    fields-record_event = ap (λ d. d.fields) record_event_frame

    pub events-record_event :
        after.events ≡ db.events ++ event_row env (env.uuid db.ids_drawn) id type signer_id m ∷ []
    events-record_event = ap (λ d. d.events) record_event_frame

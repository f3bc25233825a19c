-- ===== src/Signatures/History.antt =====
-- What each handler of signatures.service.ts does to the audit trail.
pub mod Handlers
pub mod Guests
pub mod Senders
pub mod Creation
pub mod Steps
use signara.Prelude.{
  ℕ, ◌≡◌, refl, sym, ap, ◌∙◌, subst, Option, none, some, List, [], ◌∷◌, ◌++◌, Bool-cases, inl, inr,
  find, if◌then◌else◌, append_assoc, append-nil,
}
use signara.Exec.{for_each}
use signara.Certificates.Evidence.{CertificateEvidence}
use signara.Db.{
  Db, Signer, SigningRequest, SigningMode, SignatureEvent, Signature, EventType, Metadata,
  sequential, parallel, is_sequential, ev_signed, ev_expired, ev_reminded,
}
use signara.Env.{Env}
use signara.Signatures.Trail.{empty_metadata, event_row, record_event}
use signara.Signatures.Trail.Frame.{events-record_event}
use signara.Signatures.Fields.{Submitted, capture_field_values}
use signara.Signatures.Fields.Capture.{capture_field_values-OnlyFields}
use signara.Signatures.Workflow.{
  all_signed, is_next, ordered_signers, complete, invite_next, advance_found, advance_workflow,
  mark_request_expired,
}
use signara.Signatures.Reminders.{dispatch_reminder, dispatch_reminders}

-- `after` has the trail of `before` and perhaps more.
pub record IsTrail (before after : Db) : Type 0 where
  pub added : List SignatureEvent
  pub appended : after.events ≡ before.events ++ added

pub IsTrail-refl : (db : Db) → IsTrail db db
IsTrail-refl db = record { added = []; appended = sym (append-nil _) }

pub IsTrail-same :
    (db before after : Db) → after.events ≡ before.events → IsTrail db before → IsTrail db after
IsTrail-same db before after e h = record { added = h.added; appended = e ∙ h.appended }

module _ (env : Env) (db : Db) where
  pub record_event-IsTrail :
      (id : ℕ) (type : EventType) (signer_id : Option ℕ) (m : Metadata) (s : Db)
      → IsTrail db s
      → IsTrail db (record_event env id type signer_id m s)
  record_event-IsTrail id type signer_id m s h =
      let row = event_row env (env.uuid s.ids_drawn) id type signer_id m in
      record {
        added = h.added ++ row ∷ [];
        appended =
            events-record_event env id type signer_id m s
            ∙ ap (λ (l : List SignatureEvent). l ++ row ∷ []) h.appended
            ∙ append_assoc db.events h.added (row ∷ []);
      }

  pub mark_request_expired-IsTrail :
      (id : ℕ) (s : Db) → IsTrail db s → IsTrail db (mark_request_expired env id s)
  unfolding mark_request_expired
  mark_request_expired-IsTrail id s h =
      record_event-IsTrail id ev_expired none empty_metadata _ (IsTrail-same db s _ refl h)

  pub capture-IsTrail :
      (values : Submitted) (s : Db) → IsTrail db s → IsTrail db (capture_field_values env values s)
  capture-IsTrail values s h =
      IsTrail-same db s _ (ap (λ d. d.events) (capture_field_values-OnlyFields env values s)) h

  complete-IsTrail : (r : SigningRequest) (s : Db) → IsTrail db s → IsTrail db (complete env r s)
  unfolding complete
  complete-IsTrail r s h =
      IsTrail-same db _ _ refl
        (record_event-IsTrail r.id ev_signed none _ _ (IsTrail-same db s _ refl h))

  invite_next-IsTrail :
      (id : ℕ) (o : Option Signer) (s : Db) → IsTrail db s → IsTrail db (invite_next env id o s)
  unfolding invite_next
  invite_next-IsTrail id none s h = h
  invite_next-IsTrail id (some n) s h = IsTrail-same db s _ refl h

  waiting-IsTrail :
      (mode : SigningMode) (id : ℕ) (o : Option Signer) (s : Db)
      → IsTrail db s
      → IsTrail db (if is_sequential mode then invite_next env id o s else s)
  waiting-IsTrail sequential id o s h = invite_next-IsTrail id o s h
  waiting-IsTrail parallel id o s h = h

  advance_found-IsTrail :
      (o : Option SigningRequest) (mode : SigningMode) (s : Db)
      → IsTrail db s
      → IsTrail db (advance_found env o mode s)
  unfolding advance_found
  advance_found-IsTrail none mode s h = h
  advance_found-IsTrail (some r) mode s h = elim (Bool-cases (all_signed r.id s)) [
    | inl all ↦ rw all (complete-IsTrail r s h)
    | inr left ↦ rw left (waiting-IsTrail mode r.id (find is_next (ordered_signers r.id s)) s h)
  ]

  pub advance_workflow-IsTrail :
      (id : ℕ) (mode : SigningMode) (s : Db)
      → IsTrail db s
      → IsTrail db (advance_workflow env id mode s)
  unfolding advance_workflow
  advance_workflow-IsTrail id mode s h = advance_found-IsTrail _ mode s h

  pub dispatch_reminders-IsTrail :
      (id : ℕ) (targets : List Signer) (m : Metadata) (s : Db)
      → IsTrail db s
      → IsTrail db (dispatch_reminders env id targets m s)
  unfolding dispatch_reminders
  dispatch_reminders-IsTrail id [] m s h = h
  dispatch_reminders-IsTrail id (t ∷ ts) m s h =
      dispatch_reminders-IsTrail id ts m _
        (record_event-IsTrail id ev_reminded (some t.id) m _ (IsTrail-same db s _ refl h))

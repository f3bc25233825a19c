-- ===== src/Signatures/Lifecycle/Senders.antt =====
-- The senders' handlers (`cancel`, `remind`, `sweepDueReminders`, `inPersonSession` and
-- `createRequest` of signatures.service.ts) follow the lifecycle of a request.
use signara.Prelude.{
  ℕ, ◌≡◌, refl, sym, ap, ◌∙◌, String, Bool, true, false, Option, none, some, List, [], ◌∷◌, ◌++◌,
  inl, inr, Bool-cases, find-mem, select, get_or,
}
use signara.Db.{
  Db, Signer, SigningRequest, TemplateField, Metadata, cancelled, is_completed, ev_created,
  ev_handed_over, ev_reminded, update_signer, update_document, add_job, find_request,
}
use signara.Env.{Env}
use signara.User.{AuthenticatedUser}
use signara.Webhooks.Events.{request_sent}
use signara.Signatures.Trail.{empty_metadata}
use signara.Signatures.Trail.Frame.{requests-record_event, emit_webhook_for_request-IsQuiet}
use signara.Signatures.Workflow.{enqueue_invites}
use signara.Signatures.Control.{find_own_request, cancel}
use signara.Signatures.Control.Cancelled.{requests-finish_cancel}
use signara.Signatures.Reminders.{
  remind, eligible_reminder_targets, dispatch_reminder, dispatch_reminders, has_smtp, sweep_options,
  is_due, sweep_requests, sweep_due_reminders,
}
use signara.Signatures.InPerson.{finish_handover, in_person_session, self_input, self_sign}
use signara.Signatures.Create.{
  CreateRequestInput, insert_request, insert_placements, send_out, invited_ids, finish_create,
  create_request,
}
use signara.Signatures.History.Senders.{cancel-state, remind-state, in_person-state}
use signara.Signatures.History.Creation.{create_request-state, self_sign-state}
use signara.Signatures.Lifecycle.{
  IsLifecycle, IsKeyed, cancels, same-IsLifecycle, added-IsLifecycle, update-IsLifecycle,
}
use signara.Signatures.Lifecycle.Signing.{found_once, expire-IsLifecycle}

module _ (env : Env) where
  own_stored :
      (organization_id id : ℕ) (s : Db) (r : SigningRequest)
      → IsKeyed s
      → find_own_request organization_id id s ≡ some r
      → find_request r.id s ≡ some r
  own_stored organization_id id s r keyed found = keyed r (find-mem _ s.requests found)

  pub cancel-IsLifecycle :
      (user : AuthenticatedUser) (id : ℕ) (reason : Option String) (s : Db)
      → IsKeyed s
      → IsLifecycle s.requests (cancel env user id reason s).1.requests
  cancel-IsLifecycle user id reason s keyed = elim (cancel-state env s user id reason s) [
    | inl e ↦ rw e (same-IsLifecycle s.requests _ refl)
    | inr (r, organization_id, found, live, e) ↦
        let stored = own_stored organization_id id s r keyed found in
        rw e (
          update-IsLifecycle s.requests _ r.id (λ q. record q { status = cancelled })
            (requests-finish_cancel env user reason r s) (λ q. refl)
            (λ q hit.
              let same = found_once r.id s r q stored hit in
              record {
                status = cancels (ap (λ y. is_completed y.status) (sym same) ∙ live);
                organization = refl;
                document = refl;
              }))
  ]

  requests-dispatch :
      (id : ℕ) (targets : List Signer) (m : Metadata) (s : Db)
      → (dispatch_reminders env id targets m s).requests ≡ s.requests
  unfolding dispatch_reminders dispatch_reminder update_signer add_job
  requests-dispatch id [] m s = refl
  requests-dispatch id (t ∷ ts) m s =
      requests-dispatch id ts m _ ∙ requests-record_event env id ev_reminded (some t.id) m _

  pub remind-IsLifecycle :
      (user : AuthenticatedUser) (id : ℕ) (signer_id : Option ℕ) (s : Db)
      → IsLifecycle s.requests (remind env user id signer_id s).1.requests
  remind-IsLifecycle user id signer_id s = elim (remind-state env s user id signer_id s) [
    | inl e ↦ rw e (same-IsLifecycle s.requests _ refl)
    | inr (targets, e) ↦ rw e (same-IsLifecycle s.requests _ (requests-dispatch id targets _ s))
  ]

  requests-sweep :
      (rs : List SigningRequest) (n : ℕ) (s : Db)
      → (sweep_requests env rs n s).1.requests ≡ s.requests
  unfolding sweep_requests
  requests-sweep [] n s = refl
  requests-sweep (r ∷ rs) n s =
      requests-sweep rs _ _
      ∙ requests-dispatch r.id (eligible_reminder_targets env r (sweep_options env) s)
          (record empty_metadata { automatic = some true }) s

  pub sweep-IsLifecycle : (s : Db) → IsLifecycle s.requests (sweep_due_reminders env s).2.requests
  unfolding sweep_due_reminders
  sweep-IsLifecycle s = elim (Bool-cases (has_smtp env)) [
    | inl mail ↦
        rw mail
          (same-IsLifecycle s.requests _ (requests-sweep (select (is_due env s) s.requests) 0 s))
    | inr silent ↦ rw silent (same-IsLifecycle s.requests _ refl)
  ]

  requests-handover :
      (user : AuthenticatedUser) (r : SigningRequest) (y : Signer) (s : Db)
      → (finish_handover env user r y s).requests ≡ s.requests
  unfolding finish_handover update_signer
  requests-handover user r y s = requests-record_event env r.id ev_handed_over (some y.id) _ _

  pub in_person-IsLifecycle :
      (user : AuthenticatedUser) (id : ℕ) (signer_id : Option ℕ) (s : Db)
      → IsKeyed s
      → IsLifecycle s.requests (in_person_session env user id signer_id s).1.requests
  in_person-IsLifecycle user id signer_id s keyed =
      elim (in_person-state env s user id signer_id s) [
        | inl e ↦ rw e (same-IsLifecycle s.requests _ refl)
        | inr (inl (r, organization_id, found, live, e)) ↦
            rw e (expire-IsLifecycle env r _ s (own_stored organization_id id s r keyed found) live)
        | inr (inr (r, y, e)) ↦ rw e (same-IsLifecycle s.requests _ (requests-handover user r y s))
      ]

  requests-invites :
      (id : ℕ) (ids : List ℕ) (s : Db) → (enqueue_invites id ids s).requests ≡ s.requests
  unfolding enqueue_invites add_job
  requests-invites id [] s = refl
  requests-invites id (i ∷ rest) s = requests-invites id rest _

  requests-send_out :
      (b : Bool) (id : ℕ) (signers : List Signer) (s : Db)
      → (send_out env b id signers s).requests ≡ s.requests
  unfolding send_out
  requests-send_out false id signers s = refl
  requests-send_out true id signers s =
      ap (λ d. d.requests)
        (emit_webhook_for_request-IsQuiet env request_sent id none (some (invited_ids signers)) none
          (enqueue_invites id (invited_ids signers) s))
      ∙ requests-invites id (invited_ids signers) s

  requests-create :
      (user : AuthenticatedUser) (input : CreateRequestInput) (r : SigningRequest)
      (signers : List Signer) (placements : List TemplateField) (s : Db)
      → (finish_create env user input r signers placements s).requests ≡ s.requests ++ r ∷ []
  unfolding finish_create insert_request insert_placements update_document
  requests-create user input r signers placements s =
      requests-send_out (get_or input.send_invites true) r.id signers _
      ∙ requests-record_event env r.id ev_created none _ _

  pub create_request-IsLifecycle :
      (user : AuthenticatedUser) (input : CreateRequestInput) (s : Db)
      → IsLifecycle s.requests (create_request env user input s).1.requests
  create_request-IsLifecycle user input s = elim (create_request-state env s user input s) [
    | inl e ↦ rw e (same-IsLifecycle s.requests _ refl)
    | inr (r, signers, placements, e) ↦ rw e (
        added-IsLifecycle s.requests _ (r ∷ []) (requests-create user input r signers placements s))
  ]

  pub self_sign-IsLifecycle :
      (user : AuthenticatedUser) (document_id : ℕ) (template_id : Option ℕ) (s : Db)
      → IsLifecycle s.requests (self_sign env user document_id template_id s).1.requests
  unfolding update_signer
  self_sign-IsLifecycle user document_id template_id s =
      let made = create_request-IsLifecycle user (self_input env user document_id template_id) s in
      elim (self_sign-state env s user document_id template_id s) [
        | inl e ↦ rw e (same-IsLifecycle s.requests _ refl)
        | inr (inl e) ↦ rw e made
        | inr (inr (id, e)) ↦ rw e made
      ]

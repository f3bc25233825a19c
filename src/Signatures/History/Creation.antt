-- ===== src/Signatures/History/Creation.antt =====
-- `createRequest` and `selfSign` of signatures.service.ts keep the audit trail.
use signara.Prelude.{
  ℕ, ◌≡◌, refl, ap, Bool, true, false, Option, none, some, ◌⊎◌, inl, inr, Bool-cases, List, [], ◌∷◌,
  Option-cases, arith, ◌+◌, length, get_or, or_else,
}
use signara.Exec.{Outcome-cases}
use signara.Db.{
  Db, Signer, SigningRequest, TemplateField, sequential, ev_created, is_completed, update_signer,
}
use signara.Env.{Env}
use signara.User.{AuthenticatedUser}
use signara.Webhooks.Events.{request_sent}
use signara.Signatures.Trail.Frame.{emit_webhook_for_request-IsQuiet}
use signara.Signatures.Workflow.{enqueue_invites}
use signara.Signatures.Fields.{load_template_placements}
use signara.Signatures.Create.{
  signer_rows, ordered_inputs, request_row, find_own_document, CreateRequestInput, send_out,
  invited_ids, finish_create, create_request, check_input,
}
use signara.Signatures.InPerson.{self_input, owns_template, first_signer, self_sign}
use signara.Signatures.History.{IsTrail, IsTrail-same, record_event-IsTrail}

module _ (env : Env) (db : Db) where
  enqueue_invites-IsTrail :
      (id : ℕ) (ids : List ℕ) (s : Db) → IsTrail db s → IsTrail db (enqueue_invites id ids s)
  unfolding enqueue_invites
  enqueue_invites-IsTrail id [] s h = h
  enqueue_invites-IsTrail id (i ∷ is') s h =
      enqueue_invites-IsTrail id is' _ (IsTrail-same db s _ refl h)

  send_out-IsTrail :
      (b : Bool) (id : ℕ) (signers : List Signer) (s : Db)
      → IsTrail db s
      → IsTrail db (send_out env b id signers s)
  unfolding send_out
  send_out-IsTrail false id signers s h = h
  send_out-IsTrail true id signers s h =
      IsTrail-same db _ _
        (ap (λ d. d.events)
          (emit_webhook_for_request-IsQuiet env request_sent id none (some (invited_ids signers))
            none (enqueue_invites id (invited_ids signers) s)))
        (enqueue_invites-IsTrail id (invited_ids signers) s h)

  finish_create-IsTrail :
      (user : AuthenticatedUser) (input : CreateRequestInput) (r : SigningRequest)
      (signers : List Signer) (placements : List TemplateField) (s : Db)
      → IsTrail db s
      → IsTrail db (finish_create env user input r signers placements s)
  unfolding finish_create
  finish_create-IsTrail user input r signers placements s h =
      send_out-IsTrail (get_or input.send_invites true) r.id signers _
        (record_event-IsTrail env db r.id ev_created none _ _ (IsTrail-same db s _ refl h))

  check_input-state : (input : CreateRequestInput) (s : Db) → (check_input env input s).1 ≡ s
  unfolding check_input
  check_input-state input s = ground arith

  pub create_request-state :
      (user : AuthenticatedUser) (input : CreateRequestInput) (s : Db)
      → ((create_request env user input s).1 ≡ s)
        ⊎ ((r : SigningRequest) × (signers : List Signer) × (placements : List TemplateField)
            × ((create_request env user input s).1
                ≡ finish_create env user input r signers placements s))
  unfolding create_request
  create_request-state user input s = elim (Option-cases user.org) [
    | inl nobody ↦ inl (ground arith)
    | inr (org, member) ↦ elim (Option-cases (find_own_document org.id input.document_id s)) [
      | inl missing ↦ inl (ground arith)
      | inr (d, stored) ↦ elim (Bool-cases (is_completed d.status)) [
        | inl over ↦ inl (ground arith)
        | inr live ↦ elim (Outcome-cases (check_input env input s).0) [
          | inr (e, bad) ↦ inl (ground (arith, check_input-state input s))
          | inl (u, good) ↦
              elim (Outcome-cases (
                load_template_placements (or_else input.template_id d.template_id)
                  (length (ordered_inputs input.signers)) s)) [
                    | inr (e, bad) ↦ inl (ground (arith, check_input-state input s))
                    | inl (placements, loaded) ↦
                        let mode = get_or input.mode sequential in
                        let r = request_row env user (env.uuid s.ids_drawn) org.id mode input d in
                        inr (
                          r,
                          signer_rows env mode r.id (s.ids_drawn + 1) s.tokens_drawn 0
                              (ordered_inputs input.signers),
                          placements,
                          ground (arith, check_input-state input s),
                        )
                  ]
        ]
      ]
    ]
  ]

  pub create_request-IsTrail :
      (user : AuthenticatedUser) (input : CreateRequestInput) (s : Db)
      → IsTrail db s
      → IsTrail db (create_request env user input s).1
  create_request-IsTrail user input s h = elim (create_request-state user input s) [
    | inl e ↦ rw e h
    | inr (r, signers, placements, e) ↦
        rw e (finish_create-IsTrail user input r signers placements s h)
  ]

  -- `selfSign` ends where `createRequest` does, before it, or with a link of the signer behind it.
  pub self_sign-state :
      (user : AuthenticatedUser) (document_id : ℕ) (template_id : Option ℕ) (s : Db)
      → ((self_sign env user document_id template_id s).1 ≡ s)
        ⊎ ((self_sign env user document_id template_id s).1
            ≡ (create_request env user (self_input env user document_id template_id) s).1)
        ⊎ ((id : ℕ) × ((self_sign env user document_id template_id s).1
              ≡ update_signer id
                  (λ x. record x { user_id = some user.id })
                  (create_request env user (self_input env user document_id template_id) s).1))
  unfolding self_sign
  self_sign-state user document_id template_id s = elim (Option-cases user.org) [
    | inl nobody ↦ inl (ground arith)
    | inr (org, member) ↦ elim (Bool-cases (owns_template env template_id org.id s)) [
      | inr foreign ↦ inl (ground arith)
      | inl own ↦
          elim (Outcome-cases
            (create_request env user (self_input env user document_id template_id) s).0) [
              | inr (e, refused) ↦ inr (inl (ground arith))
              | inl (created, made) ↦ elim (Option-cases (first_signer env created.signers)) [
                | inl missing ↦ inr (inl (ground arith))
                | inr (y, first) ↦ inr (inr (y.id, ground arith))
              ]
            ]
    ]
  ]

  pub self_sign-IsTrail :
      (user : AuthenticatedUser) (document_id : ℕ) (template_id : Option ℕ) (s : Db)
      → IsTrail db s
      → IsTrail db (self_sign env user document_id template_id s).1
  unfolding update_signer
  self_sign-IsTrail user document_id template_id s h =
      let made = create_request-IsTrail user (self_input env user document_id template_id) s h in
      elim (self_sign-state user document_id template_id s) [
        | inl e ↦ rw e h
        | inr (inl e) ↦ rw e made
        | inr (inr (id, e)) ↦ rw e (IsTrail-same db _ _ refl made)
      ]

-- ===== src/Signatures/InPerson.antt =====
-- Handing a session to a signer who is present, and signing oneself (`inPersonSession` and
-- `selfSign` of signatures.service.ts).
use signara.Prelude.{
  ℕ, String, Bool, true, false, not, ◌&&◌, ◌||◌, ◌==◌, Option, none, some, List, [], ◌∷◌, find, any,
  select, length, is_id,
}
use signara.Exec.{
  Exec, Outcome, ok, throw, bad_request, conflict, not_found, internal, pure, gets, modify,
  throw_if, require, ◌>>=◌, ◌>>◌,
}
use signara.Db.{
  Db, Signer, SigningRequest, parallel, signer, ev_handed_over, is_active, is_cc, is_signed,
  is_declined, is_waiting, update_signer,
}
use signara.Env.{Env}
use signara.User.{AuthenticatedUser}
use signara.Signatures.Turn.{can_sign_now, can_signer_act}
use signara.Signatures.Trail.{empty_metadata, record_event}
use signara.Signatures.Workflow.{ordered_signers}
use signara.Signatures.Access.{expire_if_past}
use signara.Signatures.Control.{find_own_request, tenant_of}
use signara.Signatures.Create.{CreateRequestInput, create_request}

pub record Handover : Type 0 where
  pub request_id : ℕ
  pub signer_id : ℕ
  pub signer_email : String
  pub url : String

pub record SelfSigned : Type 0 where
  pub request_id : ℕ
  pub signer_id : ℕ
  pub fields_placed : ℕ
  pub url : String

choose_waiting : List Signer → Outcome Signer
choose_waiting [] = throw (not_found "No signer is waiting to sign on this request")
choose_waiting (s ∷ []) = ok s
choose_waiting (s ∷ t ∷ rest) =
    throw
      (bad_request "signerId is required: more than one signer may sign on this request at once")

-- Which signer is meant: the named one, or the only one who is waiting.
unfoldable pub choose_present : Option ℕ → List Signer → Outcome Signer
unfolding choose_waiting
choose_present none candidates = choose_waiting (select (λ s. is_waiting s.status) candidates)
choose_present (some id) candidates = elim (find (λ s. s.id == id) candidates) [
  | none ↦ throw (not_found "That signer is not on this request")
  | some s ↦ ok s
]

module _ (env : Env) where
  unfoldable pub finish_handover : AuthenticatedUser → SigningRequest → Signer → Db → Db
  unfolding update_signer
  finish_handover user r s db =
      record_event env r.id ev_handed_over (some s.id)
        (record empty_metadata { handed_over_by = some user.email; in_person = some true })
        (update_signer s.id (λ x. record x { auth_method = some "in_person" }) db)

  unfoldable pub in_person_session : AuthenticatedUser → ℕ → Option ℕ → Exec Db Handover
  in_person_session user id signer_id = do
    org ← tenant_of user
    r ← λ db. require (find_own_request org.id id db) (not_found "Signing request not found") db
    throw_if (not (is_active r.status)) (conflict "This signing request is no longer active")
    expire_if_past env r (conflict "This signing request has expired")
    candidates ← gets (λ db. select (λ s. not (is_cc s.role)) (ordered_signers r.id db))
    s ← λ db. (choose_present signer_id candidates, db)
    throw_if (is_signed s.status) (conflict "That signer has already signed")
    throw_if (is_declined s.status) (conflict "That signer declined this request")
    may_act ← gets (can_signer_act r.mode s)
    throw_if (not (can_sign_now r.mode s) || not may_act)
        (conflict "It is not that signer's turn yet")
    modify (finish_handover user r s)
    pure (record {
      request_id = r.id;
      signer_id = s.id;
      signer_email = s.email;
      url = env.sign_url s.token;
    })

  -- The caller as the only signer of a parallel request that is not sent out.
  abbrev pub self_input : AuthenticatedUser → ℕ → Option ℕ → CreateRequestInput
  self_input user document_id template_id = record {
    document_id = document_id;
    template_id = template_id;
    title = none;
    message = none;
    deadline = none;
    mode = some parallel;
    signers =
        record {
          email = user.email;
          name = user.display_name;
          role = some signer;
          order_index = some 0;
        }
        ∷ [];
    workflow_rules = [];
    send_invites = some false;
  }

  abbrev pub owns_template : Option ℕ → ℕ → Db → Bool
  owns_template none organization_id db = true
  owns_template (some id) organization_id db =
      any (λ t. t.id == id && t.organization_id == organization_id) db.templates

  abbrev pub first_signer : List Signer → Option Signer
  first_signer [] = none
  first_signer (s ∷ _) = some s

  unfoldable pub self_sign : AuthenticatedUser → ℕ → Option ℕ → Exec Db SelfSigned
  unfolding update_signer
  self_sign user document_id template_id = do
    org ← tenant_of user
    owned ← gets (owns_template template_id org.id)
    throw_if (not owned) (not_found "Template not found")
    created ← create_request env user (self_input user document_id template_id)
    s ← λ db. require (first_signer created.signers) (internal "TypeError") db
    modify (update_signer s.id (λ x. record x { user_id = some user.id }))
    placed ← gets (λ db.
        length
          (select (λ f. f.request_id == created.request.id && is_id s.id f.signer_id) db.fields))
    pure (record {
      request_id = created.request.id;
      signer_id = s.id;
      fields_placed = placed;
      url = env.sign_url s.token;
    })

-- ===== src/Signatures/Create.antt =====
-- Creating a request (`createRequest` of signatures.service.ts).
pub mod Accepted
use signara.Prelude.{
  ℕ, suc, ◌+◌, String, Bool, true, false, not, ◌&&◌, ◌==◌, ltb, str_eq, Option, none, some, List,
  [], ◌∷◌, ◌++◌, map, if◌then◌else◌, get_or, or_else, is_some, find, any, select, length, to_set,
  sort_by,
}
use signara.Exec.{
  Exec, bad_request, conflict, not_found, internal, pure, gets, modify, throw_if, require, ◌>>=◌,
  ◌>>◌,
}
use signara.Db.{
  Db, Document, SigningRequest, Signer, SigningMode, SignerRole, Json, RuleAction, TemplateField,
  RequestField, WorkflowRule, sequential, signer, awaiting_signature, pending, invited, ev_created,
  is_completed, is_sequential, is_invited, find_request, update_document,
}
use signara.Env.{Env}
use signara.User.{AuthenticatedUser}
use signara.Webhooks.Events.{request_sent}
use signara.Signatures.Trail.{empty_metadata, record_event, emit_webhook_for_request}
use signara.Signatures.Fields.{load_template_placements, placement_row}
use signara.Signatures.Workflow.{enqueue_invites, ordered_signers}
use signara.Signatures.Control.{tenant_of}

pub record SignerInput : Type 0 where
  pub email : String
  pub name : Option String
  pub role : Option SignerRole
  pub order_index : Option ℕ

pub record RuleInput : Type 0 where
  pub order_index : ℕ
  pub condition : Json
  pub action : RuleAction
  pub target_signer_id : Option ℕ

pub record CreateRequestInput : Type 0 where
  pub document_id : ℕ
  pub template_id : Option ℕ
  pub title : Option String
  pub message : Option String
  pub deadline : Option ℕ
  pub mode : Option SigningMode
  pub signers : List SignerInput
  pub workflow_rules : List RuleInput
  pub send_invites : Option Bool

-- A signer of the input with its order settled.
pub record OrderedSigner : Type 0 where
  pub email : String
  pub name : Option String
  pub role : Option SignerRole
  pub order_index : ℕ

-- `.map((signer, index) => ({ ...signer, orderIndex: signer.orderIndex ?? index }))`
unfoldable pub with_order : ℕ → List SignerInput → List OrderedSigner
with_order index [] = []
with_order index (s ∷ ss) =
    record {
      email = s.email;
      name = s.name;
      role = s.role;
      order_index = get_or s.order_index index;
    }
    ∷ with_order (suc index) ss

unfoldable pub ordered_inputs : List SignerInput → List OrderedSigner
unfolding with_order
ordered_inputs signers = sort_by (λ s. s.order_index) (with_order 0 signers)

-- `new Set(xs).size !== xs.length`
abbrev pub has_duplicates {ℓ} : {A : Type ℓ} → (A → A → Bool) → List A → Bool
has_duplicates eq xs = not (length (to_set eq xs) == length xs)

-- `findFirst({ where: { id, organizationId, deletedAt: null } })`
abbrev pub find_own_document : ℕ → ℕ → Db → Option Document
find_own_document organization_id id db =
    find (λ d. d.id == id && d.organization_id == organization_id && not (is_some d.deleted_at))
      db.documents

pub record CreatedRequest : Type 0 where
  pub request : SigningRequest
  pub signers : List Signer

abbrev pub invited_ids : List Signer → List ℕ
invited_ids signers = map (λ s. s.id) (select (λ s. is_invited s.status) signers)

module _ (env : Env) where
  -- The checks on the input's signers and rules.
  unfoldable pub check_input : CreateRequestInput → Exec Db (Unit {0})
  check_input input = do
    let ordered = ordered_inputs input.signers
    throw_if (length input.signers == 0) (bad_request "At least one signer is required")
    throw_if (ltb 50 (length input.signers))
        (bad_request "A signing request supports at most 50 signers")
    throw_if (has_duplicates str_eq (map (λ s. env.normalize s.email) ordered))
        (bad_request "Duplicate signer emails are not allowed")
    throw_if (has_duplicates ◌==◌ (map (λ s. s.order_index) ordered))
        (bad_request "Signer orderIndex values must be unique")
    throw_if (any (λ r. is_some r.target_signer_id) input.workflow_rules) (
        bad_request
          "workflowRules.targetSignerId cannot be set while creating a new signing request")

  -- `mode === SEQUENTIAL && index > 0 ? PENDING : INVITED`, the rows numbered from `index` on
  unfoldable pub signer_rows : SigningMode → ℕ → ℕ → ℕ → ℕ → List OrderedSigner → List Signer
  signer_rows mode request_id ids tokens index [] = []
  signer_rows mode request_id ids tokens index (s ∷ ss) =
      record {
        id = env.uuid ids;
        request_id = request_id;
        user_id = none;
        email = env.normalize s.email;
        name = s.name;
        role = get_or s.role signer;
        order_index = s.order_index;
        status = if is_sequential mode && ltb 0 index then pending else invited;
        token = env.random_token tokens;
        viewed_at = none;
        signed_at = none;
        reminder_count = 0;
        auth_method = none;
      }
      ∷ signer_rows mode request_id (ids + 1) (tokens + 1) (suc index) ss

  unfoldable pub rule_rows : ℕ → ℕ → List RuleInput → List WorkflowRule
  rule_rows request_id ids [] = []
  rule_rows request_id ids (r ∷ rs) =
      record {
        id = env.uuid ids;
        request_id = request_id;
        order_index = r.order_index;
        condition = r.condition;
        action = r.action;
        target_signer_id = r.target_signer_id;
      }
      ∷ rule_rows request_id (ids + 1) rs

  abbrev pub request_row :
      AuthenticatedUser → ℕ → ℕ → SigningMode → CreateRequestInput → Document → SigningRequest
  request_row user id organization_id mode input document = record {
    id = id;
    organization_id = organization_id;
    document_id = document.id;
    title = some (get_or input.title document.title);
    status = awaiting_signature;
    mode = mode;
    message = input.message;
    deadline = input.deadline;
    completed_at = none;
    created_by_id = some user.id;
  }

  -- `signingRequest.create` with its nested signers and rules.
  unfoldable pub insert_request : SigningRequest → List Signer → List RuleInput → Db → Db
  unfolding rule_rows
  insert_request r signers rules db =
      let n = db.ids_drawn + 1 + length signers in
      record db {
        requests = db.requests ++ r ∷ [];
        signers = db.signers ++ signers;
        workflow_rules = db.workflow_rules ++ rule_rows r.id n rules;
        ids_drawn = n + length rules;
        tokens_drawn = db.tokens_drawn + length signers;
      }

  unfoldable pub placement_rows : ℕ → List Signer → ℕ → List TemplateField → List RequestField
  unfolding placement_row
  placement_rows request_id signers ids [] = []
  placement_rows request_id signers ids (f ∷ fs) =
      placement_row request_id signers (env.uuid ids) f
      ∷ placement_rows request_id signers (ids + 1) fs

  -- `requestField.createMany`
  unfoldable pub insert_placements : ℕ → List Signer → List TemplateField → Db → Db
  unfolding placement_rows
  insert_placements request_id signers placements db = record db {
    fields = db.fields ++ placement_rows request_id signers db.ids_drawn placements;
    ids_drawn = db.ids_drawn + length placements;
  }

  -- What goes out to the signers that are invited from the start, unless the caller holds it back.
  unfoldable pub send_out : Bool → ℕ → List Signer → Db → Db
  send_out false request_id signers db = db
  send_out true request_id signers db =
      emit_webhook_for_request env request_sent request_id none (some (invited_ids signers)) none
        (enqueue_invites request_id (invited_ids signers) db)

  -- The writes of `createRequest`, in the order of the source.
  unfoldable pub finish_create :
      AuthenticatedUser
      → CreateRequestInput
      → SigningRequest
      → List Signer
      → List TemplateField
      → Db
      → Db
  unfolding insert_request insert_placements send_out update_document
  finish_create user input r signers placements db =
      let db1 = insert_request r signers input.workflow_rules db in
      let db2 =
        update_document r.document_id
          (λ d. record d {
            status = awaiting_signature;
            template_id = or_else input.template_id d.template_id;
          })
          db1 in
      let db3 = insert_placements r.id signers placements db2 in
      let db4 =
        record_event env r.id ev_created none
          (record empty_metadata {
            created_by = some user.email;
            fields_placed = if length placements == 0 then none else some (length placements);
          })
          db3 in
      send_out (get_or input.send_invites true) r.id signers db4

  unfoldable pub create_request : AuthenticatedUser → CreateRequestInput → Exec Db CreatedRequest
  unfolding signer_rows
  create_request user input = do
    org ← tenant_of user
    document ← λ db.
        require (find_own_document org.id input.document_id db) (not_found "Document not found") db
    throw_if (is_completed document.status) (conflict "Document is already completed")
    check_input input
    let ordered = ordered_inputs input.signers
    let mode = get_or input.mode sequential
    placements ← λ db. (
      load_template_placements (or_else input.template_id document.template_id) (length ordered) db,
      db,
    )
    ids ← gets (λ db. db.ids_drawn)
    tokens ← gets (λ db. db.tokens_drawn)
    let r = request_row user (env.uuid ids) org.id mode input document
    modify
        (finish_create user input r (signer_rows mode r.id (ids + 1) tokens 0 ordered) placements)
    created ← λ db. require (find_request r.id db) (internal "P2025") db
    signers ← gets (ordered_signers r.id)
    pure (record { request = created; signers = signers })

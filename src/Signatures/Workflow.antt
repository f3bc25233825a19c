-- ===== src/Signatures/Workflow.antt =====
-- Advancing a request after a signature, and expiring it (`advanceWorkflow`, `markRequestExpired`,
-- `enqueueInvites`, `enqueueCompletionMail` of signatures.service.ts).
pub mod Completion
pub mod Frame
use signara.Prelude.{
  ℕ, Bool, true, not, ◌&&◌, ◌||◌, Option, none, some, List, [], ◌∷◌, if◌then◌else◌, every, find,
  sort_by,
}
use signara.Exec.{for_each}
use signara.Db.{
  Db, Signer, SigningRequest, SigningMode, completed, expired, invited, ev_signed, ev_expired,
  is_cc, is_signed, is_pending, is_sequential, send_signing_invite, send_completion_mail,
  find_request, signers_of, update_request, update_document, update_signer, add_job,
}
use signara.Env.{Env}
use signara.Signatures.Trail.{empty_metadata, record_event}

unfoldable pub enqueue_invites : ℕ → List ℕ → Db → Db
unfolding add_job
enqueue_invites request_id signer_ids =
    for_each (λ signer_id. add_job (send_signing_invite request_id signer_id)) signer_ids

-- The call of `add`. Its stable `jobId` makes the queue drop a repeated job, which is left to the
-- queue: the jobs of the model are the calls.
unfoldable pub enqueue_completion_mail : ℕ → Db → Db
unfolding add_job
enqueue_completion_mail request_id = add_job (send_completion_mail request_id)

-- `{ orderBy: { orderIndex: 'asc' } }`
abbrev pub ordered_signers : ℕ → Db → List Signer
ordered_signers request_id db = sort_by (λ s. s.order_index) (signers_of request_id db)

abbrev pub is_done : Signer → Bool
is_done s = is_cc s.role || is_signed s.status

abbrev pub all_signed : ℕ → Db → Bool
all_signed request_id db = every is_done (ordered_signers request_id db)

abbrev pub is_next : Signer → Bool
is_next s = not (is_cc s.role) && is_pending s.status

module _ (env : Env) where
  unfoldable pub complete : SigningRequest → Db → Db
  unfolding enqueue_completion_mail update_request update_document
  complete r db =
      let db1 =
        update_request r.id (λ q. record q { status = completed; completed_at = some env.now })
          db in
      let db2 = update_document r.document_id (λ d. record d { status = completed }) db1 in
      let db3 =
        record_event env r.id ev_signed none (record empty_metadata { completed = some true })
          db2 in
      enqueue_completion_mail r.id db3

  unfoldable pub invite_next : ℕ → Option Signer → Db → Db
  unfolding enqueue_invites update_signer
  invite_next request_id none db = db
  invite_next request_id (some next) db =
      enqueue_invites request_id (next.id ∷ [])
        (update_signer next.id (λ s. record s { status = invited }) db)

  unfoldable pub advance_found : Option SigningRequest → SigningMode → Db → Db
  unfolding complete invite_next
  advance_found none mode db = db
  advance_found (some r) mode db =
      if all_signed r.id db
      then complete r db
      else if is_sequential mode
      then invite_next r.id (find is_next (ordered_signers r.id db)) db
      else db

  unfoldable pub advance_workflow : ℕ → SigningMode → Db → Db
  unfolding advance_found
  advance_workflow request_id mode db = advance_found (find_request request_id db) mode db

  unfoldable pub mark_request_expired : ℕ → Db → Db
  unfolding update_request
  mark_request_expired request_id db =
      record_event env request_id ev_expired none empty_metadata
        (update_request request_id (λ q. record q { status = expired }) db)

-- ===== src/Signatures/Decline.antt =====
-- Declining to sign (`decline` of signatures.service.ts).
pub mod Blocks
use signara.Prelude.{String, Bool, true, not, Option, none, some, if◌then◌else◌}
use signara.Exec.{
  Exec, bad_request, conflict, not_found, pure, gets, modify, throw_if, require, ◌>>=◌, ◌>>◌,
}
use signara.Db.{
  Db, Metadata, declined, in_progress, ev_declined, is_active, is_cc, is_signed, is_declined,
  is_waiting, is_sequential, update_signer, update_request,
}
use signara.Env.{Env}
use signara.Signatures.Turn.{can_signer_act}
use signara.Signatures.Trail.{ClientContext, empty_metadata, ctx_metadata, record_event}
use signara.Signatures.Access.{Session, find_session, expire_if_past}

-- `{ ...ctx }` where `ctx` may be missing
abbrev optional_metadata : Option ClientContext → Metadata
optional_metadata none = empty_metadata
optional_metadata (some ctx) = ctx_metadata ctx

module _ (env : Env) where
  unfoldable pub decline_guards : Session → Exec Db (Unit {0})
  decline_guards x = do
    throw_if (not (is_active x.request.status))
        (conflict "This signing request is no longer active")
    expire_if_past env x.request (conflict "This signing request has expired")
    throw_if (is_cc x.signer.role) (bad_request "Carbon-copy recipients cannot decline")
    throw_if (is_signed x.signer.status) (conflict "Already signed")
    throw_if (is_declined x.signer.status) (conflict "Signing session was declined")
    throw_if (not (is_waiting x.signer.status))
        (conflict "Signing session is not ready for a response")
    may_act ← gets (can_signer_act x.request.mode x.signer)
    throw_if (not may_act) (conflict "Not your turn — this request is in sequential order")

  -- The writes of a decline; in sequential mode the request is held in `IN_PROGRESS`.
  unfoldable pub finish_decline : Option String → Option ClientContext → Session → Db → Db
  unfolding update_signer update_request
  finish_decline reason ctx x db =
      let db1 = update_signer x.signer.id (λ s. record s { status = declined }) db in
      let db2 =
        record_event env x.signer.request_id ev_declined (some x.signer.id)
          (record (optional_metadata ctx) { reason = reason }) db1 in
      if is_sequential x.request.mode
      then update_request x.signer.request_id (λ r. record r { status = in_progress }) db2
      else db2

  unfoldable pub decline_session : Option String → Option ClientContext → Session → Exec Db Bool
  decline_session reason ctx x = do
    decline_guards x
    modify (finish_decline reason ctx x)
    pure true

  unfoldable pub decline : String → Option String → Option ClientContext → Exec Db Bool
  decline token reason ctx = do
    x ← λ db. require (find_session token db) (not_found "Signing session not found") db
    decline_session reason ctx x

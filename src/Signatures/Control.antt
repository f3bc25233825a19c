-- ===== src/Signatures/Control.antt =====
-- The sender's control of a request (`cancel` and `getRequest` of signatures.service.ts).
pub mod Cancelled
use signara.Prelude.{ℕ, String, Bool, true, ◌&&◌, ◌==◌, Option, none, some, find}
use signara.Exec.{
  Exec, conflict, not_found, forbidden, pure, modify, throw_if, require, ◌>>=◌, ◌>>◌,
}
use signara.Db.{
  Db, SigningRequest, cancelled, ev_cancelled, is_completed, update_request, update_document,
}
use signara.Env.{Env}
use signara.User.{AuthenticatedUser, Org}
use signara.Signatures.Trail.{empty_metadata, record_event}

-- `signingRequest.findFirst({ where: { id, organizationId } })`
abbrev pub find_own_request : ℕ → ℕ → Db → Option SigningRequest
find_own_request organization_id id db =
    find (λ r. r.id == id && r.organization_id == organization_id) db.requests

-- `user.org?.id!`: the tenant guard admits no caller without a tenant to these routes.
abbrev pub tenant_of : AuthenticatedUser → Exec Db Org
tenant_of user db = require user.org (forbidden "No active tenant") db

module _ (env : Env) where
  unfoldable pub finish_cancel : AuthenticatedUser → Option String → SigningRequest → Db → Db
  unfolding update_request update_document
  finish_cancel user reason r db =
      let db1 = update_request r.id (λ q. record q { status = cancelled }) db in
      let db2 = update_document r.document_id (λ d. record d { status = cancelled }) db1 in
      record_event env r.id ev_cancelled none
        (record empty_metadata { reason = reason; cancelled_by = some user.email }) db2

  unfoldable pub cancel : AuthenticatedUser → ℕ → Option String → Exec Db Bool
  cancel user id reason = do
    org ← tenant_of user
    r ← λ db. require (find_own_request org.id id db) (not_found "Signing request not found") db
    throw_if (is_completed r.status) (conflict "Cannot cancel a completed request")
    modify (finish_cancel user reason r)
    pure true

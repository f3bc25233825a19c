-- ===== src/Signatures/Access.antt =====
-- What the guest handlers of signatures.service.ts share: loading the signer that a token names,
-- and refusing a request that is over.
use signara.Prelude.{String, Option, none, some, if◌then◌else◌}
use signara.Exec.{Exec, HttpException, ok, throw}
use signara.Db.{Db, Signer, SigningRequest, find_signer_by_token, find_request}
use signara.Env.{Env}
use signara.Signatures.Turn.{is_past}
use signara.Signatures.Workflow.{mark_request_expired}

-- A signer with `include: { request: true }`. The foreign key rules the second error out.
pub record Session : Type 0 where
  pub signer : Signer
  pub request : SigningRequest

-- `signer.findUnique({ where: { token }, include: { request: true } })`
unfoldable pub find_session : String → Db → Option Session
find_session token db = elim (find_signer_by_token token db) [
  | none ↦ none
  | some s ↦ elim (find_request s.request_id db) [
    | none ↦ none
    | some r ↦ some (record { signer = s; request = r })
  ]
]

module _ (env : Env) where
  -- `if (deadline && deadline < new Date()) { await markRequestExpired(id); throw e; }`
  abbrev pub expire_if_past : SigningRequest → HttpException → Exec Db (Unit {0})
  expire_if_past r e db =
      if is_past env.now r.deadline
      then (throw e, mark_request_expired env r.id db)
      else (ok tt, db)

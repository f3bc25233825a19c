-- ===== src/Signatures/Lifecycle/Runs.antt =====
-- The signing service as it refines the lifecycle of a request: whatever calls are made, each request
-- goes through moves of the machine.
use signara.Prelude.{ℕ, ◌≡◌, refl, sym, ap, ◌∙◌, subst, some}
use signara.Db.{
  Db, SigningRequest, DocumentStatus, completed, is_active, is_completed, find_request,
}
use signara.Signatures.History.Steps.{
  Step, signs, declines, visits, cancels, reminds, sweeps, creates, hands_over, self_signs,
}
use signara.Signatures.Lifecycle.{
  IsLifecycle, IsKeyed, Moves, stays, progresses, completes, expires,
}
use signara.Signatures.Lifecycle.Signing.{sign-IsLifecycle}
use signara.Signatures.Lifecycle.Guests.{decline-IsLifecycle, public_session-IsLifecycle}
use signara.Signatures.Lifecycle.Senders.{
  cancel-IsLifecycle, remind-IsLifecycle, sweep-IsLifecycle, in_person-IsLifecycle,
  create_request-IsLifecycle, self_sign-IsLifecycle,
}

-- Any number of calls, in any order, on tables that keep their primary key.
pub data Run (db : Db) : Db → Type 0 where
  start : Run db db
  call : {s t : Db} → Run db s → IsKeyed s → Step s t → Run db t

-- Any number of moves.
pub data Trace (a : DocumentStatus) : DocumentStatus → Type 0 where
  unmoved : Trace a a
  then : {b c : DocumentStatus} → Trace a b → Moves b c → Trace a c

-- A row and what a run made of it.
pub record IsTraced (r r' : SigningRequest) : Type 0 where
  pub status : Trace r.status r'.status
  pub organization : r'.organization_id ≡ r.organization_id
  pub document : r'.document_id ≡ r.document_id

Step-IsLifecycle : (s t : Db) → IsKeyed s → Step s t → IsLifecycle s.requests t.requests
Step-IsLifecycle s t keyed step = elim step [
  | signs env certify token input ctx e ↦ along e (sign-IsLifecycle env certify token input ctx s)
  | declines env token reason ctx e ↦ along e (decline-IsLifecycle env token reason ctx s)
  | visits env token ctx real e ↦ along e (public_session-IsLifecycle env token ctx s real)
  | cancels env user id reason e ↦ along e (cancel-IsLifecycle env user id reason s keyed)
  | reminds env user id signer_id e ↦ along e (remind-IsLifecycle env user id signer_id s)
  | sweeps env e ↦ along e (sweep-IsLifecycle env s)
  | creates env user input e ↦ along e (create_request-IsLifecycle env user input s)
  | hands_over env user id signer_id e ↦
      along e (in_person-IsLifecycle env user id signer_id s keyed)
  | self_signs env user document_id template_id e ↦
      along e (self_sign-IsLifecycle env user document_id template_id s)
]
  where
    along : {u : Db} → t ≡ u → IsLifecycle s.requests u.requests → IsLifecycle s.requests t.requests
    along e h = subst (λ (d : Db). IsLifecycle s.requests d.requests) (sym e) h

-- In every run of calls of the signing service without a visit to the demo's session, on tables that
-- keep their primary key, each request stays in the table, with its tenant and its document, and its
-- status goes through moves of the machine: progress, completion and expiry only while it is active,
-- cancellation only if it is not completed.
pub Run-IsTraced :
    (db t : Db) (id : ℕ) (r : SigningRequest)
    → Run db t
    → find_request id db ≡ some r
    → (r' : SigningRequest) × (find_request id t ≡ some r') × IsTraced r r'
Run-IsTraced db t id r start found =
    (r, found, record { status = unmoved; organization = refl; document = refl })
Run-IsTraced db t id r (call {s} run keyed step) found =
    let (q, found', traced) = Run-IsTraced db s id r run found in
    let (r', found'', moved) = Step-IsLifecycle s t keyed step id q found' in
    (
      r',
      found'',
      record {
        status = then traced.status moved.status;
        organization = moved.organization ∙ traced.organization;
        document = moved.document ∙ traced.document;
      },
    )

completed_move : (a b : DocumentStatus) → a ≡ completed → Moves a b → b ≡ completed
completed_move a b done stays = done
completed_move a b done (progresses live) = absurd (cc (live, ap is_active done))
completed_move a b done (completes live) = refl
completed_move a b done (expires live) = absurd (cc (live, ap is_active done))
completed_move a b done (Moves.cancels left) = absurd (cc (left, ap is_completed done))

completed-Trace : (a b : DocumentStatus) → a ≡ completed → Trace a b → b ≡ completed
completed-Trace a b done unmoved = done
completed-Trace a b done (then {b = c} t m) = completed_move c b (completed-Trace a c done t) m

-- A completed request stays completed, whatever calls of the signing service follow, if none is a
-- visit to the demo's session and the tables keep their primary key.
pub completed_stays :
    (db t : Db) (id : ℕ) (r : SigningRequest)
    → Run db t
    → find_request id db ≡ some r
    → r.status ≡ completed
    → (r' : SigningRequest) × (find_request id t ≡ some r') × (r'.status ≡ completed)
completed_stays db t id r run found done =
    let (r', found', traced) = Run-IsTraced db t id r run found in
    (r', found', completed-Trace r.status r'.status done traced.status)

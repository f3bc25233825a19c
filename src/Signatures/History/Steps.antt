-- ===== src/Signatures/History/Steps.antt =====
-- The signing service as a transition system: each step is one call of a handler of
-- signatures.service.ts, by a guest, a sender or the reminder schedule.
use signara.Prelude.{ℕ, ◌≡◌, sym, subst, String, false, Option, str_eq}
use signara.Db.{Db}
use signara.Env.{Env}
use signara.User.{AuthenticatedUser}
use signara.Signatures.Trail.{ClientContext}
use signara.Signatures.Sign.{Certify, SignInput, sign}
use signara.Signatures.Decline.{decline}
use signara.Signatures.Session.{public_session}
use signara.Signatures.Demo.{demo_token}
use signara.Signatures.Control.{cancel}
use signara.Signatures.Reminders.{remind, sweep_due_reminders}
use signara.Signatures.Create.{CreateRequestInput, create_request}
use signara.Signatures.InPerson.{in_person_session, self_sign}
use signara.Signatures.History.{IsTrail, IsTrail-refl}
use signara.Signatures.History.Handlers.{sign-IsTrail}
use signara.Signatures.History.Guests.{decline-IsTrail, public_session-IsTrail}
use signara.Signatures.History.Senders.{
  cancel-IsTrail, remind-IsTrail, sweep-IsTrail, in_person-IsTrail,
}
use signara.Signatures.History.Creation.{create_request-IsTrail, self_sign-IsTrail}

-- One call, at an instant of its own and whether it returns or throws. Visits to the demo's
-- session, which deletes its former rows, are left out.
pub data Step (db db' : Db) : Type 0 where
  signs :
      (env : Env) (certify : Certify) (token : String) (input : SignInput) (ctx : ClientContext)
      → db' ≡ (sign env certify token input ctx db).1
      → Step db db'
  declines :
      (env : Env) (token : String) (reason : Option String) (ctx : Option ClientContext)
      → db' ≡ (decline env token reason ctx db).1
      → Step db db'
  visits :
      (env : Env) (token : String) (ctx : ClientContext)
      → str_eq token demo_token ≡ false
      → db' ≡ (public_session env token ctx db).1
      → Step db db'
  cancels :
      (env : Env) (user : AuthenticatedUser) (id : ℕ) (reason : Option String)
      → db' ≡ (cancel env user id reason db).1
      → Step db db'
  reminds :
      (env : Env) (user : AuthenticatedUser) (id : ℕ) (signer_id : Option ℕ)
      → db' ≡ (remind env user id signer_id db).1
      → Step db db'
  sweeps : (env : Env) → db' ≡ (sweep_due_reminders env db).2 → Step db db'
  creates :
      (env : Env) (user : AuthenticatedUser) (input : CreateRequestInput)
      → db' ≡ (create_request env user input db).1
      → Step db db'
  hands_over :
      (env : Env) (user : AuthenticatedUser) (id : ℕ) (signer_id : Option ℕ)
      → db' ≡ (in_person_session env user id signer_id db).1
      → Step db db'
  self_signs :
      (env : Env) (user : AuthenticatedUser) (document_id : ℕ) (template_id : Option ℕ)
      → db' ≡ (self_sign env user document_id template_id db).1
      → Step db db'

-- Any number of calls, in any order.
pub data Reach (db : Db) : Db → Type 0 where
  here : Reach db db
  next : {s t : Db} → Reach db s → Step s t → Reach db t

Step-IsTrail : (db s t : Db) → IsTrail db s → Step s t → IsTrail db t
Step-IsTrail db s t h (signs env certify token input ctx e) =
    subst (IsTrail db) (sym e) (sign-IsTrail env db certify token input ctx s h)
Step-IsTrail db s t h (declines env token reason ctx e) =
    subst (IsTrail db) (sym e) (decline-IsTrail env db token reason ctx s h)
Step-IsTrail db s t h (visits env token ctx real e) =
    subst (IsTrail db) (sym e) (public_session-IsTrail env db token ctx s real h)
Step-IsTrail db s t h (cancels env user id reason e) =
    subst (IsTrail db) (sym e) (cancel-IsTrail env db user id reason s h)
Step-IsTrail db s t h (reminds env user id signer_id e) =
    subst (IsTrail db) (sym e) (remind-IsTrail env db user id signer_id s h)
Step-IsTrail db s t h (sweeps env e) = subst (IsTrail db) (sym e) (sweep-IsTrail env db s h)
Step-IsTrail db s t h (creates env user input e) =
    subst (IsTrail db) (sym e) (create_request-IsTrail env db user input s h)
Step-IsTrail db s t h (hands_over env user id signer_id e) =
    subst (IsTrail db) (sym e) (in_person-IsTrail env db user id signer_id s h)
Step-IsTrail db s t h (self_signs env user document_id template_id e) =
    subst (IsTrail db) (sym e) (self_sign-IsTrail env db user document_id template_id s h)

-- Whatever calls of the signing service are made, in whatever order, but no visit to the demo's
-- session, no event of the audit trail is changed, removed or reordered: the later trail is the
-- earlier one with more events behind it.
pub Reach-IsTrail : {db db' : Db} → Reach db db' → IsTrail db db'
Reach-IsTrail {db} here = IsTrail-refl db
Reach-IsTrail {db} (next {s} {t} r step) = Step-IsTrail db s t (Reach-IsTrail r) step

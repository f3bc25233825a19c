-- ===== src/Examples/Runs.antt =====
-- Runs of the signing service on the small deployment, and the theorems on its lifecycle there.
use signara.Prelude.{◌≡◌, refl, sym, subst, some, [], ◌∷◌, Memᴰ}
use signara.Db.{Db, SigningRequest, completed, find_request}
use signara.Signatures.Control.{cancel}
use signara.Signatures.History.Steps.{signs, cancels}
use signara.Signatures.Lifecycle.{IsKeyed}
use signara.Signatures.Lifecycle.Runs.{Run, start, call, IsTraced, Run-IsTraced, completed_stays}
use signara.Examples.{env, no_certificates, request, db, browser, bobs_input}
use signara.Examples.Signing.{after_bob}
use signara.Examples.Cards.{boss}

db-IsKeyed : IsKeyed db
db-IsKeyed r (Memᴰ.head e) =
    subst (λ (q : SigningRequest). find_request q.id db ≡ some q) (sym e) refl
db-IsKeyed r (Memᴰ.tail m) = elim m [ ]

bobs-Run : Run db after_bob
bobs-Run = call {s = db} start db-IsKeyed (signs env no_certificates "bob" bobs_input browser refl)

Run-IsTraced_example :
    (r : SigningRequest) × (find_request 2 after_bob ≡ some r) × IsTraced request r
Run-IsTraced_example = Run-IsTraced db after_bob 2 request bobs-Run refl

abbrev done_request : SigningRequest
done_request = record request { status = completed; completed_at = some 900 }

abbrev done_db : Db
done_db = record db { requests = done_request ∷ [] }

done_db-IsKeyed : IsKeyed done_db
done_db-IsKeyed r (Memᴰ.head e) =
    subst (λ (q : SigningRequest). find_request q.id done_db ≡ some q) (sym e) refl
done_db-IsKeyed r (Memᴰ.tail m) = elim m [ ]

abbrev after_late_cancel : Db
after_late_cancel = (cancel env boss 2 (some "too late") done_db).1

late_cancel : Run done_db after_late_cancel
late_cancel = call {s = done_db} start done_db-IsKeyed (cancels env boss 2 (some "too late") refl)

completed_stays_example :
    (r : SigningRequest) × (find_request 2 after_late_cancel ≡ some r) × (r.status ≡ completed)
completed_stays_example =
    completed_stays done_db after_late_cancel 2 done_request late_cancel refl refl

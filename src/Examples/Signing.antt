-- ===== src/Examples/Signing.antt =====
-- Runs of the signing handlers of signatures.service.ts, and their theorems at those runs.
use signara.Prelude.{◌≡◌, ◌↔◌, refl, true, false, none, some, [], ◌∷◌, Memᴰ, arith, sort_by}
use signara.Exec.{ok, throw, conflict}
use signara.Db.{Db, Signer, Signature, signed, pending, sequential, str}
use signara.Signatures.Access.{Session, find_session}
use signara.Signatures.Turn.{can_signer_act}
use signara.Signatures.Fields.{
  fields_for_signer, submitted_entry, check_values, resolve_field_values,
}
use signara.Signatures.Fields.Answers.{IsAnswered}
use signara.Signatures.Workflow.Completion.{AllSigned, IsCompleted}
use signara.Signatures.Sign.{
  SignInput, hash_differs, sign, sign_session, sign_guards, certificate_evidence,
}
use signara.Signatures.Sign.Order.{sign_in_order, sign_completes}
use signara.Signatures.Sign.Values.{sign_answers}
use signara.Signatures.Sign.Evidence.{IsRecorded, IsDocumentHash, sign_records, sign_empty_hash}
use signara.Signatures.Sign.Refusal.{SameSignatures, sign_refused}
use signara.Signatures.Decline.{decline, decline_session, decline_guards}
use signara.Signatures.Decline.Blocks.{decline_blocks}
use signara.Signatures.History.{IsTrail}
use signara.Signatures.History.Steps.{here, next, signs, Reach-IsTrail}
use signara.Examples.{
  env, no_certificates, contract, request, ann, bob, bobs_field, db, browser, bobs_input,
}

abbrev pub bobs_session : Session
bobs_session = record { signer = bob; request = request }

pub bobs_session_found : find_session "bob" db ≡ some bobs_session
unfolding find_session
bobs_session_found = refl

abbrev pub after_bob : Db
after_bob = (sign env no_certificates "bob" bobs_input browser db).1

pub bob_signs :
    sign env no_certificates "bob" bobs_input browser db
    ≡ (ok (record { signature_id = 100; identity_assurance = none }), after_bob)
unfolding sign sign_session sign_guards can_signer_act certificate_evidence resolve_field_values
    check_values submitted_entry hash_differs find_session sort_by
bob_signs = refl

sign_in_order_example : ann.status ≡ signed
sign_in_order_example =
    sign_in_order env no_certificates "bob" bobs_input browser bobs_session db after_bob ann
      bobs_session_found bob_signs refl (Memᴰ.head refl) refl (omega arith) (λ e. cc)

sign_completes_example : IsCompleted 2 after_bob ↔ AllSigned 2 after_bob
sign_completes_example =
    sign_completes env no_certificates "bob" bobs_input browser bobs_session db after_bob
      bobs_session_found bob_signs

bobs_field_placed : Memᴰ bobs_field (fields_for_signer 2 4 db)
unfolding sort_by
bobs_field_placed = Memᴰ.head refl

sign_answers_example : IsAnswered env ((5, some (str "yes")) ∷ []) bobs_field
sign_answers_example =
    sign_answers env no_certificates "bob" bobs_input browser bobs_session db after_bob bobs_field
      bobs_session_found bob_signs bobs_field_placed refl

sign_records_example :
    (row : Signature) × IsRecorded env no_certificates "bob" bobs_input browser bobs_session db row
      after_bob
    × (100 ≡ row.id)
    × IsDocumentHash none "hash" row.signed_hash
sign_records_example =
    sign_records env no_certificates "bob" bobs_input browser bobs_session db after_bob contract
      bobs_session_found refl bob_signs

-- The same signature with an empty text for its hash.
abbrev pub hashless_input : SignInput
hashless_input = record bobs_input { signed_hash = some "" }

abbrev after_hashless : Db
after_hashless = (sign env no_certificates "bob" hashless_input browser db).1

bob_signs_hashless :
    sign env no_certificates "bob" hashless_input browser db
    ≡ (ok (record { signature_id = 100; identity_assurance = none }), after_hashless)
unfolding sign sign_session sign_guards can_signer_act certificate_evidence resolve_field_values
    check_values submitted_entry hash_differs find_session sort_by
bob_signs_hashless = refl

sign_empty_hash_example :
    (row : Signature) × IsRecorded env no_certificates "bob" hashless_input browser bobs_session db
      row after_hashless
    × (row.signed_hash ≡ "")
sign_empty_hash_example =
    sign_empty_hash env no_certificates "bob" hashless_input browser bobs_session db after_hashless
      bobs_session_found refl bob_signs_hashless

abbrev after_ann : Db
after_ann = (sign env no_certificates "ann" bobs_input browser db).1

ann_signs_again :
    sign env no_certificates "ann" bobs_input browser db
    ≡ (throw (conflict "Already signed"), after_ann)
unfolding sign sign_session sign_guards can_signer_act find_session
ann_signs_again = refl

sign_refused_example : SameSignatures db after_ann
sign_refused_example =
    sign_refused env no_certificates "ann" bobs_input browser db after_ann ann_signs_again

Reach-IsTrail_example : IsTrail db after_bob
Reach-IsTrail_example =
    Reach-IsTrail {db = db} {db' = after_bob}
      (next here (signs env no_certificates "bob" bobs_input browser refl))

abbrev cara : Signer
cara = record bob { id = 8; order_index = 2; status = pending; token = "cara" }

abbrev after_decline : Db
after_decline = (decline env "bob" none none db).1

bob_declines : decline env "bob" none none db ≡ (ok true, after_decline)
unfolding decline decline_session decline_guards can_signer_act find_session
bob_declines = refl

decline_blocks_example : can_signer_act sequential cara after_decline ≡ false
decline_blocks_example =
    decline_blocks env "bob" none none bobs_session db after_decline cara bobs_session_found
      bob_declines refl (omega arith)

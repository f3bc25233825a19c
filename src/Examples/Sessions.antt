-- ===== src/Examples/Sessions.antt =====
-- Guests before and after a signature, a cancellation and the deadline: concrete runs and the
-- theorems there.
use signara.Prelude.{false, ◌≡◌, refl, true, none, some, [], ◌∷◌, Memᴰ, sort_by}
use signara.Exec.{ok, throw, conflict}
use signara.Db.{
  str, Db, SigningRequest, viewed, sequential, expired, cancelled, signer, find_request,
  update_request, update_document,
}
use signara.User.{AuthenticatedUser, user}
use signara.Webhooks.Emit.{emit}
use signara.Signatures.Trail.{record_event}
use signara.Signatures.Control.{cancel, finish_cancel}
use signara.Signatures.Control.Cancelled.{cancel_stops_signing}
use signara.Signatures.Session.{PublicSession, public_session, visit, refresh_demo, open_session}
use signara.Signatures.Session.Privacy.{public_session_own}
use signara.Signatures.Sign.Once.{sign_once}
use signara.Signatures.Sign.Expiry.{sign_expires}
use signara.Signatures.Access.{Session, find_session}
use signara.Signatures.Turn.{can_signer_act}
use signara.Signatures.Sign.{sign}
use signara.Examples.{env, no_certificates, request, bob, bobs_field, db, browser, bobs_input}
use signara.Signatures.Sign.Guards.{IsReady}
use signara.Signatures.Sign.Accepts.{sign_accepts}
use signara.Signatures.Sign.{certificate_evidence, hash_differs}
use signara.Signatures.Fields.{resolve_field_values, check_values, submitted_entry}
use signara.Examples.{contract}
use signara.Examples.Signing.{
  bobs_session, bobs_session_found, after_bob, bob_signs, hashless_input,
}

-- The signature is kept, and the rest of the tables as if bob had never signed.
abbrev rolled_back : Db
rolled_back = record db { signatures = after_bob.signatures }

rolled_back_session : find_session "bob" rolled_back ≡ some bobs_session
unfolding find_session
rolled_back_session = refl

sign_once_example : ¬ (
    (sign env no_certificates "bob" hashless_input browser rolled_back).0
    ≡ ok (record { signature_id = 200; identity_assurance = none }))
sign_once_example =
    sign_once env no_certificates browser env no_certificates browser "bob" "bob" bobs_input
      hashless_input bobs_session bobs_session db after_bob rolled_back
      (record { signature_id = 100; identity_assurance = none })
      (record { signature_id = 200; identity_assurance = none }) bobs_session_found bob_signs
      (λ row m. m) rolled_back_session refl refl

abbrev late_request : SigningRequest
late_request = record request { deadline = some 500 }

abbrev late_session : Session
late_session = record { signer = bob; request = late_request }

abbrev late_db : Db
late_db = record db { requests = late_request ∷ [] }

late_session_found : find_session "bob" late_db ≡ some late_session
unfolding find_session
late_session_found = refl

sign_expires_example :
    ((sign env no_certificates "bob" bobs_input browser late_db).0
      ≡ throw (conflict "This signing request has expired"))
    × (find_request 2 (sign env no_certificates "bob" bobs_input browser late_db).1
        ≡ some (record late_request { status = expired }))
sign_expires_example =
    sign_expires env no_certificates "bob" bobs_input browser late_session late_db
      late_session_found refl refl

abbrev sender : AuthenticatedUser
sender = record {
  id = 1;
  email = "sender@example.com";
  display_name = none;
  platform_role = user;
  org = some (record { id = 7; role = "ADMIN"; permissions = [] });
}

abbrev after_cancel : Db
after_cancel = (cancel env sender 2 none db).1

sender_cancels : cancel env sender 2 none db ≡ (ok true, after_cancel)
unfolding cancel
sender_cancels = refl

abbrev cancelled_session : Session
cancelled_session = record { signer = bob; request = record request { status = cancelled } }

cancelled_session_found : find_session "bob" after_cancel ≡ some cancelled_session
unfolding find_session cancel finish_cancel update_request update_document record_event emit
cancelled_session_found = refl

cancel_stops_signing_example : ¬ (
    (sign env no_certificates "bob" bobs_input browser after_cancel).0
    ≡ ok (record { signature_id = 200; identity_assurance = none }))
cancel_stops_signing_example =
    cancel_stops_signing env no_certificates sender 2 none "bob" bobs_input browser
      cancelled_session db after_cancel true
      (record { signature_id = 200; identity_assurance = none }) sender_cancels
      cancelled_session_found refl

abbrev bobs_page : PublicSession
bobs_page = record {
  request_id = 2;
  title = "Contract";
  document_id = 1;
  file_name = "contract.pdf";
  download_url = "files/contract.pdf";
  signer_id = 4;
  email = "bob@example.com";
  name = none;
  role = signer;
  status = viewed;
  order_index = 1;
  message = none;
  deadline = none;
  mode = sequential;
  allows_signing = true;
  auth_method = "email";
  requested_fields = bobs_field ∷ [];
}

abbrev after_visit : Db
after_visit = (public_session env "bob" browser db).1

bob_visits : public_session env "bob" browser db ≡ (ok bobs_page, after_visit)
unfolding public_session visit find_session refresh_demo open_session can_signer_act sort_by
    record_event emit
bob_visits = refl

public_session_own_example : (bobs_field.request_id ≡ 2) × (bobs_field.signer_id ≡ some 4)
public_session_own_example =
    public_session_own env "bob" browser db after_visit bobs_page bobs_field bob_visits
      (Memᴰ.head refl)

bob-IsReady : IsReady 1000 bobs_session db
unfolding can_signer_act
bob-IsReady = record {
  active = refl;
  on_time = refl;
  not_cc = refl;
  waiting = refl;
  in_turn = refl;
}

bobs_values_resolve :
    resolve_field_values env 2 4 bobs_input.fields db ≡ ok ((5, some (str "yes")) ∷ [])
unfolding resolve_field_values check_values submitted_entry sort_by
bobs_values_resolve = refl

bob_needs_no_certificate :
    certificate_evidence env no_certificates bobs_input bobs_session "hash" ≡ ok none
unfolding certificate_evidence
bob_needs_no_certificate = refl

hash_is_free : hash_differs none "hash" ≡ false
unfolding hash_differs
hash_is_free = refl

sign_accepts_example :
    (sign env no_certificates "bob" bobs_input browser db).0
    ≡ ok (record { signature_id = 100; identity_assurance = none })
sign_accepts_example =
    sign_accepts env no_certificates "bob" bobs_input browser bobs_session db contract
      ((5, some (str "yes")) ∷ []) none bobs_session_found bob-IsReady refl hash_is_free
      bobs_values_resolve bob_needs_no_certificate refl

-- ===== src/Signatures/Sign/Order.antt =====
-- What a call of `sign` of signatures.service.ts leaves behind.
use signara.Prelude.{
  ◌<◌, if◌then◌else◌, ◌≡◌, refl, sym, ap, ◌∙◌, subst, ◌≢◌, ◌↔◌, String, true, Option, some, ◌==◌,
  Memᴰ, every-mem, every-select, Option-cases, inl, inr, arith, find-holds, ==_iff, is_some,
  Bool-cases, not, ◌||◌,
}
use signara.Exec.{ok}
use signara.Certificates.Evidence.{CertificateEvidence}
use signara.Db.{
  Db, Signer, SigningRequest, update_signer, is_cc, is_signed, Signature, sequential, signed,
  completed, cc_recipient, find_request, find_signer_by_token, is_active, ev_signed,
}
use signara.Env.{Env}
use signara.Signatures.Turn.{earlier_signed, is_earlier, can_signer_act}
use signara.Signatures.Trail.{ClientContext, record_event}
use signara.Signatures.Trail.Frame.{requests-record_event}
use signara.Signatures.Fields.{Submitted, capture_field_values}
use signara.Signatures.Workflow.{advance_found, advance_workflow}
use signara.Signatures.Workflow.Completion.{AllSigned, IsCompleted, advance_found-completes}
use signara.Signatures.Access.{Session, find_session}
use signara.Signatures.Sign.{Certify, SignInput, SignResult, finish_sign, sign_metadata, sign}
use signara.Signatures.Fields.Capture.{capture_field_values-OnlyFields}
use signara.Signatures.Sign.Guards.{IsSigning, new_row, with_signature, sign_session-ok}

-- A session is what the tables hold for a token.
pub find_session-found :
    (token : String) (db : Db) (x : Session)
    → find_session token db ≡ some x
    → (find_signer_by_token token db ≡ some x.signer)
      × (find_request x.signer.request_id db ≡ some x.request)
unfolding find_session
find_session-found token db x h = elim (Option-cases (find_signer_by_token token db)) [
  | inl missing ↦ ground arith
  | inr (s, e) ↦ elim (Option-cases (find_request s.request_id db)) [
    | inl missing ↦ ground arith
    | inr (r, e') ↦ ground arith
  ]
]

earlier_row :
    (s c : Signer)
    → (not (is_earlier s c) || is_signed c.status) ≡ true
    → c.request_id ≡ s.request_id
    → c.order_index < s.order_index
    → c.role ≢ cc_recipient
    → c.status ≡ signed
earlier_row s c h same before real = elim (Bool-cases (is_cc c.role)) [
  | inl copy ↦ absurd (real (ground arith))
  | inr other ↦ ground arith
]

-- If the earlier signers have all signed, each of them has.
pub earlier_signed-mem :
    (s c : Signer) (db : Db)
    → earlier_signed s db ≡ true
    → Memᴰ c db.signers
    → c.request_id ≡ s.request_id
    → c.order_index < s.order_index
    → c.role ≢ cc_recipient
    → c.status ≡ signed
earlier_signed-mem s c db h m = earlier_row s c (
    every-mem (λ y. not (is_earlier s y) || is_signed y.status) db.signers (rw every-select at h) m)

sequential_turn :
    (x : Session) (db : Db)
    → can_signer_act x.request.mode x.signer db ≡ true
    → x.request.mode ≡ sequential
    → earlier_signed x.signer db ≡ true
unfolding can_signer_act
sequential_turn x db h e = ground arith

active_live : (r : SigningRequest) → is_active r.status ≡ true → r.status ≢ completed
active_live r h e = cc (h, ap is_active e)

module _ (env : Env) (certify : Certify) where
  -- The state in which the workflow is advanced: the signature is recorded, the trail written.
  unfoldable pub recorded :
      ClientContext → Session → Signature → Submitted → Option CertificateEvidence → Db → Db
  recorded ctx x row values evidence db =
      record_event env x.signer.request_id ev_signed (some x.signer.id)
        (sign_metadata env certify ctx x row values evidence)
        (update_signer x.signer.id
          (λ s. record s {
            status = signed;
            signed_at = some env.now;
            auth_method = if is_some evidence then some "certificate" else x.signer.auth_method;
          })
          (capture_field_values env values db))

  pub finish_sign-eq :
      (ctx : ClientContext) (x : Session) (row : Signature) (values : Submitted)
      (evidence : Option CertificateEvidence) (db : Db)
      → finish_sign env certify ctx x row values evidence db
        ≡ advance_workflow env x.signer.request_id x.request.mode
            (recorded ctx x row values evidence db)
  unfolding finish_sign recorded
  finish_sign-eq ctx x row values evidence db = refl

  pub requests-recorded :
      (ctx : ClientContext) (x : Session) (row : Signature) (values : Submitted)
      (evidence : Option CertificateEvidence) (db : Db)
      → (recorded ctx x row values evidence db).requests ≡ db.requests
  unfolding recorded update_signer
  requests-recorded ctx x row values evidence db =
      requests-record_event env x.signer.request_id ev_signed _ _ _
      ∙ ap (λ d. d.requests) (capture_field_values-OnlyFields env values db)

  module _ (token : String) (input : SignInput) (ctx : ClientContext) (x : Session) where
    pub sign-ok :
        (db db' : Db) {result : SignResult}
        → find_session token db ≡ some x
        → sign env certify token input ctx db ≡ (ok result, db')
        → IsSigning env certify input ctx x db result db'
    unfolding sign
    sign-ok db db' found h = sign_session-ok env certify input ctx x db db' (ground arith)

    -- A signature on a sequential request is accepted only when every signer who comes earlier in
    -- the order, carbon copies aside, has signed.
    pub sign_in_order :
        (db db' : Db) (c : Signer) {result : SignResult}
        → find_session token db ≡ some x
        → sign env certify token input ctx db ≡ (ok result, db')
        → x.request.mode ≡ sequential
        → Memᴰ c db.signers
        → c.request_id ≡ x.signer.request_id
        → c.order_index < x.signer.order_index
        → c.role ≢ cc_recipient
        → c.status ≡ signed
    sign_in_order db db' c found h mode m same before real =
        let g = sign-ok db db' found h in
        earlier_signed-mem x.signer c db (sequential_turn x db g.ready.in_turn mode) m same before
          real

    sign_recorded :
        (db : Db) {result : SignResult} {db' : Db}
        → IsSigning env certify input ctx x db result db'
        → Db
    sign_recorded db g =
        recorded ctx x (new_row env certify input ctx x g.document g.evidence db) g.values
          g.evidence (with_signature (new_row env certify input ctx x g.document g.evidence db) db)

    requests_sign_recorded :
        (db : Db) {result : SignResult} {db' : Db}
        (g : IsSigning env certify input ctx x db result db')
        → (sign_recorded db g).requests ≡ db.requests
    unfolding sign_recorded
    requests_sign_recorded db g = requests-recorded ctx x _ g.values g.evidence _

    sign-final :
        (db db' : Db) {result : SignResult}
        → find_session token db ≡ some x
        → (g : IsSigning env certify input ctx x db result db')
        → db' ≡ advance_found env (some x.request) x.request.mode (sign_recorded db g)
    unfolding advance_workflow sign_recorded
    sign-final db db' found g =
        let stored = (find_session-found token db x found).1 in
        let kept : find_request x.signer.request_id (sign_recorded db g) ≡ some x.request =
          rw (requests_sign_recorded db g) stored in
        g.final
        ∙ finish_sign-eq ctx x _ g.values g.evidence _
        ∙ ap (λ o. advance_found env o x.request.mode (sign_recorded db g)) kept

    -- After an accepted signature the request is completed exactly if all its signers, carbon
    -- copies aside, have signed.
    pub sign_completes :
        (db db' : Db) {result : SignResult}
        → find_session token db ≡ some x
        → sign env certify token input ctx db ≡ (ok result, db')
        → IsCompleted x.request.id db' ↔ AllSigned x.request.id db'
    sign_completes db db' found h =
        let g = sign-ok db db' found h in
        let s = sign_recorded db g in
        let stored = (find_session-found token db x found).1 in
        let same : x.request.id ≡ x.signer.request_id =
          (==_iff _ _).0
            (find-holds (λ (r : SigningRequest). r.id == x.signer.request_id) db.requests stored) in
        let final = sign-final db db' found g in
        rw final (
          advance_found-completes env x.request x.request.mode s
            (subst (λ n. find_request n s ≡ some x.request) (sym same)
              (rw (requests_sign_recorded db g) stored))
            (active_live x.request g.ready.active))

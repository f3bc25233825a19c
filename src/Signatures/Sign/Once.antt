-- ===== src/Signatures/Sign/Once.antt =====
-- A second call of `sign` of signatures.service.ts after an accepted one.
use signara.Prelude.{
  ◌≡◌, ap, ◌∙◌, String, true, false, some, [], ◌∷◌, ◌++◌, any-append, any-kept, ==_refl, ◌==◌, ◌&&◌,
  Memᴰ, arith,
}
use signara.Exec.{ok}
use signara.Db.{Db, Signature}
use signara.Env.{Env}
use signara.Signatures.Trail.{ClientContext}
use signara.Signatures.Access.{Session, find_session}
use signara.Signatures.Sign.{Certify, SignInput, SignResult, has_signature, sign}
use signara.Signatures.Sign.Guards.{IsSigning, new_row}
use signara.Signatures.Sign.Order.{sign-ok}
use signara.Signatures.Sign.Evidence.{signatures-finish_sign}

module _ (env : Env) (certify : Certify) (ctx : ClientContext) where
  has_signature-after :
      (input : SignInput) (x : Session) (db db' : Db) {result : SignResult}
      → IsSigning env certify input ctx x db result db'
      → has_signature x.signer.request_id x.signer.id db' ≡ true
  has_signature-after input x db db' g =
      let row = new_row env certify input ctx x g.document g.evidence db in
      let e : db'.signatures ≡ db.signatures ++ row ∷ [] =
        ap (λ d. d.signatures) (g.final)
        ∙ signatures-finish_sign env certify ctx x row g.values g.evidence _ in
      let request = ==_refl x.signer.request_id in
      let own = ==_refl x.signer.id in rw (e, any-append) (ground arith)

  -- After an accepted signature no other one by the same signer on the same request is accepted, at
  -- whatever time, by whatever token and with whatever certificates, input and client, as long as the
  -- rows of the signatures are kept.
  pub sign_once :
      (env' : Env) (certify' : Certify) (ctx' : ClientContext) (token token' : String)
      (input input' : SignInput) (x y : Session) (db db' later : Db) (result result' : SignResult)
      → find_session token db ≡ some x
      → sign env certify token input ctx db ≡ (ok result, db')
      → ((row : Signature) → Memᴰ row db'.signatures → Memᴰ row later.signatures)
      → find_session token' later ≡ some y
      → y.signer.id ≡ x.signer.id
      → y.signer.request_id ≡ x.signer.request_id
      → ¬ ((sign env' certify' token' input' ctx' later).0 ≡ ok result')
  sign_once env' certify' ctx' token token' input input' x y db db' later result result' found h
        kept found' same request h' =
      let again = sign env' certify' token' input' ctx' later in
      let g = sign-ok env certify token input ctx x db db' found h in
      let g' =
        sign-ok env' certify' token' input' ctx' y later again.1 found' (λ i. (h' i, again.1)) in
      let signed =
        any-kept
          (λ (r : Signature). r.request_id == x.signer.request_id && r.signer_id == x.signer.id)
          db'.signatures later.signatures kept (has_signature-after input x db db' g) in
      let unsigned = g'.unsigned in
      let e : has_signature x.signer.request_id x.signer.id later ≡ false =
        (rw (request, same) at unsigned) in
      cc

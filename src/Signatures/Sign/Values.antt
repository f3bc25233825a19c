-- ===== src/Signatures/Sign/Values.antt =====
-- What `sign` of signatures.service.ts demands of the values that come with a signature.
use signara.Prelude.{◌≡◌, String, true, some, [], get_or, Memᴰ}
use signara.Exec.{ok}
use signara.Db.{Db, RequestField}
use signara.Env.{Env}
use signara.Signatures.Trail.{ClientContext}
use signara.Signatures.Access.{Session, find_session}
use signara.Signatures.Fields.{fields_for_signer}
use signara.Signatures.Fields.Answers.{IsAnswered, resolve-IsAnswered}
use signara.Signatures.Sign.{Certify, SignInput, SignResult, sign}
use signara.Signatures.Sign.Order.{sign-ok}

-- A signature is accepted only with an answer to every required field that is placed for the signer.
pub sign_answers :
    (env : Env) (certify : Certify) (token : String) (input : SignInput) (ctx : ClientContext)
    (x : Session) (db db' : Db) (f : RequestField) {result : SignResult}
    → find_session token db ≡ some x
    → sign env certify token input ctx db ≡ (ok result, db')
    → Memᴰ f (fields_for_signer x.signer.request_id x.signer.id db)
    → f.is_required ≡ true
    → IsAnswered env (get_or input.fields []) f
sign_answers env certify token input ctx x db db' f found h m needed =
    let g = sign-ok env certify token input ctx x db db' found h in
    resolve-IsAnswered env x.signer.request_id x.signer.id input.fields db g.values f g.resolved m
      needed

-- ===== src/Signatures/Session/Privacy.antt =====
-- What a guest of `publicSession` of signatures.service.ts gets to see.
use signara.Prelude.{
  ℕ, ◌≡◌, ap, ◌∙◌, subst, String, Bool, true, Option, some, none, ◌&&◌, ◌||◌, not, ◌==◌, ==_iff,
  is_id, Memᴰ, every, every-mem, every-sort_by, every-select, every-of_mem, arith, Bool-cases,
  Option-cases, inl, inr, select,
}
use signara.Exec.{ok}
use signara.Db.{Db, RequestField, find_document}
use signara.Env.{Env}
use signara.Signatures.Trail.{ClientContext}
use signara.Signatures.Fields.{fields_for_signer}
use signara.Signatures.Access.{Session, find_session}
use signara.Signatures.Turn.{can_signer_act}
use signara.Signatures.Session.{
  PublicSession, is_open, may_still_sign, refresh_demo, visit, public_session, open_session,
  release_signer, view_signer,
}

own_field :
    (request_id signer_id : ℕ) (f : RequestField)
    → (f.request_id == request_id && is_id signer_id f.signer_id) ≡ true
    → (f.request_id ≡ request_id) × (f.signer_id ≡ some signer_id)
own_field request_id signer_id f h = (ground arith, owner f.signer_id (ground arith))
  where
    owner : (o : Option ℕ) → is_id signer_id o ≡ true → o ≡ some signer_id
    owner none e = cc
    owner (some n) e = ap some ((==_iff n signer_id).0 e)

-- The fields of a signer are those placed for them on their request.
pub fields_for_signer-own :
    (request_id signer_id : ℕ) (db : Db) (f : RequestField)
    → Memᴰ f (fields_for_signer request_id signer_id db)
    → (f.request_id ≡ request_id) × (f.signer_id ≡ some signer_id)
fields_for_signer-own request_id signer_id db f m =
    let own = λ (g : RequestField). g.request_id == request_id && is_id signer_id g.signer_id in
    let all : every own (fields_for_signer request_id signer_id db) ≡ true =
      every-sort_by (λ g. g.page_number) own (select own db.fields)
      ∙ every-select own own db.fields
      ∙ every-of_mem (λ g. not (own g) || own g) db.fields (λ g n. ground arith) in
    own_field request_id signer_id f (every-mem own _ all m)

module _ (env : Env) where
  same_signer :
      (can_sign : Bool) (ctx : ClientContext) (x : Session) (db : Db)
      → ((open_session env can_sign ctx x db).0.id ≡ x.signer.id)
        × ((open_session env can_sign ctx x db).0.request_id ≡ x.signer.request_id)
  unfolding open_session release_signer view_signer
  same_signer can_sign ctx x db = (ground arith, ground arith)

  visit_shows :
      (ctx : ClientContext) (x : Session) (db db' : Db) {page : PublicSession}
      → visit env ctx x db ≡ (ok page, db')
      → page.requested_fields ≡ fields_for_signer page.request_id page.signer_id db'
  unfolding visit
  visit_shows ctx x db db' h = elim (Option-cases (find_document x.request.document_id db)) [
    | inl missing ↦ absurd (ground arith)
    | inr (d, stored) ↦ elim (Bool-cases (is_open x)) [
      | inr closed ↦ absurd (ground arith)
      | inl opened ↦
          let can_sign =
            may_still_sign x.signer.status && can_signer_act x.request.mode x.signer db in
          let (same, same') = same_signer can_sign ctx x db in ground (arith, same, same')
    ]
  ]

  -- The fields that a guest is shown are placed for the signer of the session, on its request.
  pub public_session_own :
      (token : String) (ctx : ClientContext) (db db' : Db) (page : PublicSession) (f : RequestField)
      → public_session env token ctx db ≡ (ok page, db')
      → Memᴰ f page.requested_fields
      → (f.request_id ≡ page.request_id) × (f.signer_id ≡ some page.signer_id)
  unfolding public_session
  public_session_own token ctx db db' page f h m =
      elim (Option-cases (find_session token (refresh_demo env token db))) [
        | inl missing ↦ absurd (ground arith)
        | inr (x, found) ↦
            let e =
              visit_shows ctx x (refresh_demo env token db) db' {page = page} (ground arith) in
            fields_for_signer-own page.request_id page.signer_id db' f (subst (Memᴰ f) e m)
      ]

-- ===== src/Signatures/Fields/Answers.antt =====
-- What `resolveFieldValues` of signatures.service.ts demands of a signer's values.
use signara.Prelude.{
  ℕ, ◌≡◌, refl, sym, subst, true, false, Option, none, some, List, [], ◌∷◌, get_or, any, arith, map,
  select, is_some, Memᴰ, Bool-cases, inl, inr,
}
use signara.Exec.{ok}
use signara.Db.{Db, Json, null, str, bool, num, composite, RequestField}
use signara.Env.{Env}
use signara.Signatures.Fields.{
  Submitted, fields_for_signer, submitted_value, submitted_entry, is_empty, is_unknown, is_missing,
  check_values, resolve_field_values,
}

module _ (env : Env) where
  -- A value that is an answer: not null, and not a blank text.
  abbrev pub IsAnswer : Json → Type 0
  IsAnswer null = ⊥
  IsAnswer (str s) = env.is_blank s ≡ false
  IsAnswer _ = Unit

  abbrev pub IsAnswered : Submitted → RequestField → Type 0
  IsAnswered submitted f = (v : Json) × (submitted_value submitted f.id ≡ some v) × IsAnswer v

  answered_of_filled :
      (o : Option Json) → is_empty env o ≡ false → (v : Json) × (o ≡ some v) × IsAnswer v
  answered_of_filled none h = cc
  answered_of_filled (some null) h = cc
  answered_of_filled (some (str s)) h = (str s, refl, h)
  answered_of_filled (some (bool b)) h = (bool b, refl, tt)
  answered_of_filled (some (num n)) h = (num n, refl, tt)
  answered_of_filled (some (composite n)) h = (composite n, refl, tt)

  filled_of_answered :
      (o : Option Json) (v : Json) → o ≡ some v → IsAnswer v → is_empty env o ≡ false
  filled_of_answered o null e h = absurd h
  filled_of_answered o (str s) e h = rw e h
  filled_of_answered o (bool b) e h = rw e
  filled_of_answered o (num n) e h = rw e
  filled_of_answered o (composite n) e h = rw e

  missing_none :
      (submitted : Submitted) (fs : List RequestField) (f : RequestField)
      → any (is_missing env submitted) fs ≡ false
      → Memᴰ f fs
      → f.is_required ≡ true
      → is_empty env (submitted_value submitted f.id) ≡ false
  missing_none submitted [] f h m r = elim m [ ]
  missing_none submitted (g ∷ gs) f h (Memᴰ.head e) r =
      let here : is_missing env submitted f ≡ false =
        subst (λ y. is_missing env submitted y ≡ false) (sym e) (ground arith) in
      ground arith
  missing_none submitted (g ∷ gs) f h (Memᴰ.tail m) r =
      missing_none submitted gs f (ground arith) m r

  no_missing :
      (submitted : Submitted) (fs : List RequestField)
      → ((f : RequestField)
          → Memᴰ f fs
          → f.is_required ≡ true
          → is_empty env (submitted_value submitted f.id) ≡ false)
      → any (is_missing env submitted) fs ≡ false
  no_missing submitted [] h = refl
  no_missing submitted (g ∷ gs) h =
      let here = h g (Memᴰ.head refl) in
      let rest = no_missing submitted gs (λ f m. h f (Memᴰ.tail m)) in
      elim (Bool-cases g.is_required) [
        | inl needed ↦ let filled = here needed in ground arith
        | inr free ↦ ground arith
      ]

  check_values-ok :
      (fs : List RequestField) (submitted values : Submitted)
      → check_values env fs submitted ≡ ok values
      → any (is_missing env submitted) fs ≡ false
  unfolding check_values
  check_values-ok [] submitted values h = refl
  check_values-ok (r ∷ rs) submitted values h = ground arith

  -- Values are accepted only if every required field placed for the signer is answered.
  pub resolve-IsAnswered :
      (request_id signer_id : ℕ) (input : Option Submitted) (db : Db) (values : Submitted)
      (f : RequestField)
      → resolve_field_values env request_id signer_id input db ≡ ok values
      → Memᴰ f (fields_for_signer request_id signer_id db)
      → f.is_required ≡ true
      → IsAnswered (get_or input []) f
  unfolding resolve_field_values
  resolve-IsAnswered request_id signer_id input db values f h m needed = answered_of_filled _ (
      missing_none (get_or input []) (fields_for_signer request_id signer_id db) f
        (check_values-ok _ (get_or input []) values h) m needed)

  check_values_accepts :
      (fs : List RequestField) (submitted : Submitted)
      → any (is_unknown env fs) submitted ≡ false
      → any (is_missing env submitted) fs ≡ false
      → (values : Submitted) × (check_values env fs submitted ≡ ok values)
  unfolding check_values
  check_values_accepts [] submitted u m = ([], refl)
  check_values_accepts (r ∷ rs) submitted u m = (
    map (λ f. (f.id, submitted_value submitted f.id))
        (select (λ f. is_some (submitted_entry submitted f.id)) (r ∷ rs)),
    rw (u, m),
  )

  -- If every submitted value is for a field of the signer and every required field is answered, the
  -- values are accepted.
  pub resolve_accepts :
      (request_id signer_id : ℕ) (input : Option Submitted) (db : Db)
      → any (is_unknown env (fields_for_signer request_id signer_id db)) (get_or input []) ≡ false
      → ((f : RequestField)
          → Memᴰ f (fields_for_signer request_id signer_id db)
          → f.is_required ≡ true
          → IsAnswered (get_or input []) f)
      → (values : Submitted) × (resolve_field_values env request_id signer_id input db ≡ ok values)
  unfolding resolve_field_values
  resolve_accepts request_id signer_id input db known answered =
      check_values_accepts _ (get_or input []) known (
        no_missing (get_or input []) _ (λ f m needed.
          let (v, e, a) = answered f m needed in
          filled_of_answered (submitted_value (get_or input []) f.id) v e a))

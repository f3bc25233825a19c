-- ===== src/Signatures/Fields/Binding.antt =====
-- To whom `placementsForRequest` of signatures.service.ts binds a template's fields.
use native.Mathlib.Decide.{ℕ_discrete}
use signara.Prelude.{
  ℕ, suc, ◌+◌, ◌≤◌, ◌<◌, ◌≡◌, refl, sym, ◌∙◌, subst, ◌≢◌, false, Option, none, some, List, [], ◌∷◌,
  any, leb, length, arith, Memᴰ, All,
}
use signara.Exec.{ok}
use signara.Db.{Db, Signer, TemplateField}
use signara.Signatures.Fields.{
  template_fields_of, load_template_placements, signer_by_order, placement_row,
}

-- The signers are numbered from `n` on, as they are when the sender gives no order.
abbrev pub IsNumbered : ℕ → List Signer → Type 0
IsNumbered n [] = Unit
IsNumbered n (s ∷ ss) = (s.order_index ≡ n) × IsNumbered (suc n) ss

in_range :
    (n : ℕ) (fs : List TemplateField) (f : TemplateField)
    → any (λ g. leb n g.assignee_order) fs ≡ false
    → Memᴰ f fs
    → f.assignee_order < n
in_range n [] f h m = elim m [ ]
in_range n (g ∷ gs) f h (Memᴰ.head e) = subst (λ y. y.assignee_order < n) (sym e) (ground arith)
in_range n (g ∷ gs) f h (Memᴰ.tail m) = in_range n gs f (ground arith) m

-- Accepted placements name signers that the request has, by their number.
pub loaded_in_range :
    (template_id : Option ℕ) (n : ℕ) (db : Db) (placements : List TemplateField) (f : TemplateField)
    → load_template_placements template_id n db ≡ ok placements
    → Memᴰ f placements
    → f.assignee_order < n
unfolding load_template_placements
loaded_in_range none n db placements f h m =
    let e : placements ≡ [] = (cc) in elim (subst (Memᴰ f) e m) [ ]
loaded_in_range (some id) n db placements f h m =
    let fs = template_fields_of id db in
    let e : fs ≡ placements = ground arith in
    in_range n placements f
      (subst (λ l. any (λ g. leb n g.assignee_order) l ≡ false) e (ground arith)) m

le_ne_lt : (n k : ℕ) → n ≤ k → n ≢ k → n < k
le_ne_lt n k h d = omega arith

by_order_low : (ss : List Signer) (n k : ℕ) → IsNumbered n ss → k < n → signer_by_order ss k ≡ none
unfolding signer_by_order
by_order_low [] n k h lo = refl
by_order_low (s ∷ ss) n k h lo = ground (arith, h.0, by_order_low ss (suc n) k h.1 (omega arith))

by_order_numbered :
    (ss : List Signer) (n k : ℕ)
    → IsNumbered n ss
    → n ≤ k
    → k < n + length ss
    → (s : Signer) × Memᴰ s ss × (s.order_index ≡ k) × (signer_by_order ss k ≡ some s.id)
unfolding signer_by_order
by_order_numbered [] n k h lo hi = absurd (omega arith)
by_order_numbered (s ∷ ss) n k h lo hi = elim (ℕ_discrete n k) [
  | yes here ↦
      let none_later = by_order_low ss (suc n) k h.1 (omega arith) in
      (s, Memᴰ.head refl, h.0 ∙ here, rw none_later (ground (arith, h.0)))
  | no there ↦
      let (t, m, e, found) =
        by_order_numbered ss (suc n) k h.1 (le_ne_lt n k lo there) (omega arith) in
      (t, Memᴰ.tail m, e, rw found)
]

by_order_beyond :
    (ss : List Signer) (k : ℕ) → All (λ s. k < s.order_index) ss → signer_by_order ss k ≡ none
unfolding signer_by_order
by_order_beyond [] k h = refl
by_order_beyond (s ∷ ss) k h = ground (arith, by_order_beyond ss k h.1)

All-lt :
    (ss : List Signer) (n k : ℕ)
    → All (λ s. n ≤ s.order_index) ss
    → k < n
    → All (λ s. k < s.order_index) ss
All-lt [] n k h lt = tt
All-lt (s ∷ ss) n k h lt = (omega (arith, h.0), All-lt ss n k h.1 lt)

-- Where the signers are numbered from 0 in order, every accepted placement is bound: to the signer
-- of the request whose number it names.
pub placements_bound :
    (template_id : Option ℕ) (ss : List Signer) (db : Db) (placements : List TemplateField)
    (f : TemplateField) (request_id id : ℕ)
    → IsNumbered 0 ss
    → load_template_placements template_id (length ss) db ≡ ok placements
    → Memᴰ f placements
    → (s : Signer) × Memᴰ s ss
      × (s.order_index ≡ f.assignee_order)
      × ((placement_row request_id ss id f).signer_id ≡ some s.id)
unfolding placement_row
placements_bound template_id ss db placements f request_id id h loaded m =
    by_order_numbered ss 0 f.assignee_order h (omega arith)
      (omega (arith, loaded_in_range template_id (length ss) db placements f loaded m))

-- Where every signer has an order of at least the number of signers, placements that the check
-- accepts are bound to no signer.
pub placements_dropped :
    (template_id : Option ℕ) (ss : List Signer) (db : Db) (placements : List TemplateField)
    (f : TemplateField) (request_id id : ℕ)
    → All (λ s. length ss ≤ s.order_index) ss
    → load_template_placements template_id (length ss) db ≡ ok placements
    → Memᴰ f placements
    → (placement_row request_id ss id f).signer_id ≡ none
unfolding placement_row
placements_dropped template_id ss db placements f request_id id h loaded m =
    by_order_beyond ss f.assignee_order (
      All-lt ss (length ss) f.assignee_order h
        (loaded_in_range template_id (length ss) db placements f loaded m))

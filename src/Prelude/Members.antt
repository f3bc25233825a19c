-- ===== src/Prelude/Members.antt =====
-- Tests of every row, in terms of the rows that a table holds.
use Prim.Native.Nat.{ℕ}
use mathlib.Core.Path.{◌≡◌, refl, sym, ap, subst, ◌∙◌}
use mathlib.Core.Logic.{inl, inr, ◌⊎◌}
use mathlib.Core.Bool.{Bool, true, false, not, ◌&&◌, ◌||◌}
use mathlib.Core.Option.{none, some}
use mathlib.Core.List.{List, [], ◌∷◌, ◌++◌, Memᴰ}
use native.Mathlib.Omega.{arith}
use signara.Prelude.Tests.{if◌then◌else◌, Bool-cases, leb}
use signara.Prelude.Lists.{every, any, find, select, update_where, insert_by, sort_by}

module _ {ℓ} {A : Type ℓ} where
  pub every-mem : (p : A → Bool) (xs : List A) {x : A} → every p xs ≡ true → Memᴰ x xs → p x ≡ true
  every-mem p [] h m = elim m [ ]
  every-mem p (y ∷ ys) h (Memᴰ.head e) = subst (λ z. p z ≡ true) (sym e) (ground arith)
  every-mem p (y ∷ ys) h (Memᴰ.tail m) = every-mem p ys (ground arith) m

  pub every-of_mem :
      (p : A → Bool) (xs : List A) → ((x : A) → Memᴰ x xs → p x ≡ true) → every p xs ≡ true
  every-of_mem p [] h = refl
  every-of_mem p (y ∷ ys) h =
      rw (h y (Memᴰ.head refl)) (every-of_mem p ys (λ x m. h x (Memᴰ.tail m)))

  every-insert_by :
      (key : A → ℕ) (p : A → Bool) (x : A) (xs : List A)
      → every p (insert_by key x xs) ≡ (p x && every p xs)
  unfolding insert_by
  every-insert_by key p x [] = refl
  every-insert_by key p x (y ∷ ys) = elim (Bool-cases (leb (key x) (key y))) [
    | inl e ↦ rw e
    | inr e ↦ rw (e, every-insert_by key p x ys) (ground arith)
  ]

  -- Sorting does not change what holds of every row.
  pub every-sort_by :
      (key : A → ℕ) (p : A → Bool) (xs : List A) → every p (sort_by key xs) ≡ every p xs
  unfolding sort_by
  every-sort_by key p [] = refl
  every-sort_by key p (x ∷ xs) =
      every-insert_by key p x (sort_by key xs) ∙ ap (λ b. p x && b) (every-sort_by key p xs)

  pub every-select :
      (p q : A → Bool) (xs : List A) → every p (select q xs) ≡ every (λ x. not (q x) || p x) xs
  every-select p q [] = refl
  every-select p q (x ∷ xs) = ground (arith, every-select p q xs)

  pub every-append :
      (p : A → Bool) (xs ys : List A) → every p (xs ++ ys) ≡ (every p xs && every p ys)
  every-append p [] ys = refl
  every-append p (x ∷ xs) ys = ground (arith, every-append p xs ys)

  -- What holds of every row after an update held before it, if the update cannot make it hold.
  pub every-update_where_back :
      (p q : A → Bool) (f : A → A) (xs : List A)
      → ((x : A) → p (f x) ≡ true → p x ≡ true)
      → every p (update_where q f xs) ≡ true
      → every p xs ≡ true
  every-update_where_back p q f [] back h = refl
  every-update_where_back p q f (x ∷ xs) back h =
      ground (arith, back x, every-update_where_back p q f xs back)

  pub every-update_where :
      (p q : A → Bool) (f : A → A) (xs : List A)
      → ((x : A) → p x ≡ true → p (f x) ≡ true)
      → every p xs ≡ true
      → every p (update_where q f xs) ≡ true
  every-update_where p q f [] keep h = refl
  every-update_where p q f (x ∷ xs) keep h =
      ground (arith, keep x, every-update_where p q f xs keep)

  -- A row of an updated table is a row of the old one, rewritten if it was selected.
  pub mem-update_where :
      (q : A → Bool) (f : A → A) (xs : List A) {x : A}
      → Memᴰ x (update_where q f xs)
      → (y : A) × Memᴰ y xs × (((q y ≡ true) × (x ≡ f y)) ⊎ ((q y ≡ false) × (x ≡ y)))
  mem-update_where q f [] m = elim m [ ]
  mem-update_where q f (y ∷ ys) (Memᴰ.head e) = elim (Bool-cases (q y)) [
    | inl t ↦ (y, Memᴰ.head refl, inl (t, rw t at e))
    | inr t ↦ (y, Memᴰ.head refl, inr (t, rw t at e))
  ]
  mem-update_where q f (y ∷ ys) (Memᴰ.tail m) =
      let (z, m', e) = mem-update_where q f ys m in (z, Memᴰ.tail m', e)

  -- A lookup by a column that an update keeps finds the row as the update left it.
  pub find-update_where :
      (p q : A → Bool) (f : A → A) (xs : List A)
      → ((x : A) → p (f x) ≡ p x)
      → find p (update_where q f xs)
        ≡ elim (find p xs) [ none ↦ none | some x ↦ some (if q x then f x else x) ]
  find-update_where p q f [] keep = refl
  find-update_where p q f (x ∷ xs) keep = ground (arith, keep x, find-update_where p q f xs keep)

  pub find-mem : (p : A → Bool) (xs : List A) {x : A} → find p xs ≡ some x → Memᴰ x xs
  find-mem p [] h = cc
  find-mem p (y ∷ ys) h = elim (Bool-cases (p y)) [
    | inl e ↦ Memᴰ.head (sym (some_eq (rw e at h)))
    | inr e ↦ Memᴰ.tail (find-mem p ys (rw e at h))
  ]
    where
      some_eq : {a b : A} → some a ≡ some b → a ≡ b
      some_eq e = cc

  kept_mem :
      (p : A → Bool) (y : A) (ys zs : List A) {x : A}
      → p y ≡ true
      → (Memᴰ x zs → (p x ≡ true) × Memᴰ x ys)
      → Memᴰ x (y ∷ zs)
      → (p x ≡ true) × Memᴰ x (y ∷ ys)
  kept_mem p y ys zs e back (Memᴰ.head q) = (ap p q ∙ e, Memᴰ.head q)
  kept_mem p y ys zs e back (Memᴰ.tail m) = let (h, m') = back m in (h, Memᴰ.tail m')

  -- The selected rows are rows of the table that pass the test, and each of those is selected.
  pub mem-select :
      (p : A → Bool) (xs : List A) {x : A} → Memᴰ x (select p xs) → (p x ≡ true) × Memᴰ x xs
  mem-select p [] m = elim m [ ]
  mem-select p (y ∷ ys) m = elim (Bool-cases (p y)) [
    | inl e ↦ kept_mem p y ys (select p ys) e (λ n. mem-select p ys n) (rw e at m)
    | inr e ↦ let (h, m') = mem-select p ys (rw e at m) in (h, Memᴰ.tail m')
  ]

  pub mem-select_back :
      (p : A → Bool) (xs : List A) {x : A} → p x ≡ true → Memᴰ x xs → Memᴰ x (select p xs)
  mem-select_back p [] h m = elim m [ ]
  mem-select_back p (y ∷ ys) h (Memᴰ.head e) = rw (sym (ap p e) ∙ h) (Memᴰ.head e)
  mem-select_back p (y ∷ ys) h (Memᴰ.tail m) = elim (Bool-cases (p y)) [
    | inl e ↦ rw e (Memᴰ.tail (mem-select_back p ys h m))
    | inr e ↦ rw e (mem-select_back p ys h m)
  ]

  pub select-none : (p : A → Bool) (xs : List A) → ((x : A) → p x ≡ false) → select p xs ≡ []
  select-none p [] h = refl
  select-none p (x ∷ xs) h = ground (arith, h x, select-none p xs h)

  pub any-mem : (p : A → Bool) (xs : List A) → any p xs ≡ true → (x : A) × Memᴰ x xs × (p x ≡ true)
  any-mem p [] h = absurd (ground arith)
  any-mem p (y ∷ ys) h = elim (Bool-cases (p y)) [
    | inl e ↦ (y, Memᴰ.head refl, e)
    | inr e ↦ let (x, m, q) = any-mem p ys (rw e at h) in (x, Memᴰ.tail m, q)
  ]

  pub any-of_mem : (p : A → Bool) (xs : List A) {x : A} → Memᴰ x xs → p x ≡ true → any p xs ≡ true
  any-of_mem p [] m h = elim m [ ]
  any-of_mem p (y ∷ ys) (Memᴰ.head e) h = let hit = sym (ap p e) ∙ h in ground arith
  any-of_mem p (y ∷ ys) (Memᴰ.tail m) h = ground (arith, any-of_mem p ys m h)

  -- A test that some row passes is still passed while the rows are kept.
  pub any-kept :
      (p : A → Bool) (xs ys : List A)
      → ((x : A) → Memᴰ x xs → Memᴰ x ys)
      → any p xs ≡ true
      → any p ys ≡ true
  any-kept p xs ys kept h = let (x, m, q) = any-mem p xs h in any-of_mem p ys (kept x m) q

  pub any-append : (p : A → Bool) (xs ys : List A) → any p (xs ++ ys) ≡ (any p xs || any p ys)
  any-append p [] ys = refl
  any-append p (x ∷ xs) ys = ground (arith, any-append p xs ys)

  pub mem-update_where_hit :
      (p : A → Bool) (f : A → A) (xs : List A) {x : A}
      → Memᴰ x xs
      → p x ≡ true
      → Memᴰ (f x) (update_where p f xs)
  mem-update_where_hit p f [] m h = elim m [ ]
  mem-update_where_hit p f (y ∷ ys) (Memᴰ.head e) h = Memᴰ.head (rw (sym (ap p e) ∙ h) (ap f e))
  mem-update_where_hit p f (y ∷ ys) (Memᴰ.tail m) h = Memᴰ.tail (mem-update_where_hit p f ys m h)

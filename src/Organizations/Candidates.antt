-- ===== src/Organizations/Candidates.antt =====
-- The choice of a slug for a new tenant, from the candidates of
-- apps/api/src/modules/organizations/organizations.service.ts.
use signara.Prelude.{
  ℕ, ◌<◌, ◌≡◌, refl, ◌⊎◌, subst, ap, sym, ◌∙◌, ◌+◌, zero, suc, Bool, true, false, ◌&&◌, arith,
  Bool-cases, Option, none, some, any, inl, inr,
}
use signara.Exec.{ok, throw, conflict}
use signara.Text.{Text, is_blank_text}
use signara.Accounts.{Accounts}
use signara.Organizations.{has_slug, candidate, try_slugs, unique_org_slug}

abbrev pub taken : Text → Accounts → Bool
taken slug s = any (has_slug slug) s.organizations

-- The `k` candidates from the `i`th on are all taken.
abbrev pub all_taken : Text → ℕ → ℕ → Accounts → Bool
all_taken base i zero s = true
all_taken base i (suc k) s = taken (candidate base i) s && all_taken base (i + 1) k s

-- The first of the candidates from the `i`th on that is free, or none is.
abbrev IsFirstFree : Text → ℕ → ℕ → Accounts → Option Text → Type 0
IsFirstFree base i left s slug =
    ((k : ℕ) × (k < left)
      × (slug ≡ some (candidate base (i + k)))
      × (taken (candidate base (i + k)) s ≡ false)
      × (all_taken base i k s ≡ true))
    ⊎ ((slug ≡ none) × (all_taken base i left s ≡ true))

next : (k i : ℕ) → i + 1 + k ≡ i + suc k
next k i = omega arith

zero_add : (k : ℕ) → 0 + k ≡ k
zero_add k = omega arith

try_slugs-IsFirstFree :
    (base : Text) (i left : ℕ) (s : Accounts) → IsFirstFree base i left s (try_slugs base i left s)
unfolding try_slugs
try_slugs-IsFirstFree base i zero s = inr (refl, refl)
try_slugs-IsFirstFree base i (suc left) s = elim (Bool-cases (taken (candidate base i) s)) [
  | inl e ↦ elim (try_slugs-IsFirstFree base (i + 1) left s) [
    | inl (k, below, found, free, before) ↦
        let step = ap (candidate base) (next k i) in
        inl (
          suc k,
          omega arith,
          ground (arith, e, found, ap (λ t. some t) step),
          sym (ap (λ t. taken t s) step) ∙ free,
          ground (arith, e, before),
        )
    | inr (missing, before) ↦ inr (ground (arith, e, missing), ground (arith, e, before))
  ]
  | inr e ↦ inl (0, omega arith, ground (arith, e), ground (arith, e), refl)
]

-- The slug of a new tenant, for a base that is not empty: the first of its twenty candidates that no
-- tenant has; where they are all taken, and only there, none is given.
pub unique_org_slug_first :
    (base : Text) (s : Accounts)
    → is_blank_text base ≡ false
    → ((k : ℕ) × (k < 20)
        × (unique_org_slug base s ≡ ok (candidate base k))
        × (taken (candidate base k) s ≡ false)
        × (all_taken base 0 k s ≡ true))
      ⊎ ((unique_org_slug base s
            ≡ throw (conflict "Could not allocate a unique slug, try a more specific name"))
          × (all_taken base 0 20 s ≡ true))
unfolding unique_org_slug
unique_org_slug_first base s h = elim (try_slugs-IsFirstFree base 0 20 s) [
  | inl (k, below, found, free, before) ↦
      let at_k = ap (candidate base) (zero_add k) in
      inl (
        k,
        below,
        ground (arith, h, found, ap (λ t. some t) at_k),
        sym (ap (λ t. taken t s) at_k) ∙ free,
        before,
      )
  | inr (missing, before) ↦ inr (ground (arith, h, missing), before)
]

ok-inj : {s t : Text} → ok s ≡ ok t → s ≡ t
ok-inj h = cc

pub unique_org_slug-free :
    (base : Text) (s : Accounts) (slug : Text)
    → unique_org_slug base s ≡ ok slug
    → taken slug s ≡ false
unfolding unique_org_slug
unique_org_slug-free base s slug h = elim (Bool-cases (is_blank_text base)) [
  | inl e ↦ ground (arith, e, h)
  | inr e ↦ elim (unique_org_slug_first base s e) [
    | inl (k, below, found, free, before) ↦
        let same = ok-inj (sym found ∙ h) in subst (λ t. taken t s ≡ false) same free
    | inr (missing, before) ↦ ground (arith, missing, h)
  ]
]

-- ===== src/Organizations/Slugs.antt =====
-- The slugs of apps/api/src/modules/organizations/organizations.service.ts.
use signara.Prelude.{
  ℕ, ◌≤◌, ◌≡◌, refl, ap, zero, suc, Bool, true, false, not, ◌==◌, arith, Bool-cases, [], ◌∷◌, ◌++◌,
  every, length, reverse, reverse-cons, reverse-append, inl, inr, subst, sym, ◌∙◌,
}
use signara.Text.{Text}
use signara.Organizations.{
  OrgEnv, is_slug_char, dash, replace_runs, drop_dashes, trim_dashes, first, slugify,
}

-- Only `a` to `z`, the digits and dashes.
abbrev pub IsSlug : Text → Type 0
IsSlug t = every is_slug_char t ≡ true

every-append :
    (p : ℕ → Bool) (s t : Text) → every p s ≡ true → every p t ≡ true → every p (s ++ t) ≡ true
every-append p [] t h k = k
every-append p (c ∷ s) t h k = ground (arith, every-append p s t)

replace_runs-IsSlug : (b : Bool) (s : Text) → IsSlug (replace_runs b s)
unfolding replace_runs
replace_runs-IsSlug b [] = refl
replace_runs-IsSlug b (c ∷ s) = elim (Bool-cases (is_slug_char c)) [
  | inl e ↦ ground (arith, e, replace_runs-IsSlug false s)
  | inr e ↦ ground (arith, e, replace_runs-IsSlug true s)
]

every-drop_dashes : (p : ℕ → Bool) (s : Text) → every p s ≡ true → every p (drop_dashes s) ≡ true
unfolding drop_dashes
every-drop_dashes p [] h = h
every-drop_dashes p (c ∷ s) h = ground (arith, every-drop_dashes p s)

every-first : (p : ℕ → Bool) (n : ℕ) (s : Text) → every p s ≡ true → every p (first n s) ≡ true
unfolding first
every-first p zero s h = refl
every-first p (suc n) [] h = refl
every-first p (suc n) (c ∷ s) h = ground (arith, every-first p n s)

length-first : (n : ℕ) (s : Text) → length (first n s) ≤ n
unfolding first
length-first zero s = omega arith
length-first (suc n) [] = omega arith
length-first (suc n) (c ∷ s) = omega (arith, length-first n s)

-- The first character, if there is one, is no dash.
abbrev pub no_leading_dash : Text → Bool
no_leading_dash [] = true
no_leading_dash (c ∷ s) = not (c == dash)

no_leading_dash-drop_dashes : (s : Text) → no_leading_dash (drop_dashes s) ≡ true
unfolding drop_dashes
no_leading_dash-drop_dashes [] = refl
no_leading_dash-drop_dashes (c ∷ s) = ground (arith, no_leading_dash-drop_dashes s)

no_leading_dash-first :
    (n : ℕ) (s : Text) → no_leading_dash s ≡ true → no_leading_dash (first n s) ≡ true
unfolding first
no_leading_dash-first zero s h = refl
no_leading_dash-first (suc n) [] h = refl
no_leading_dash-first (suc n) (c ∷ s) h = h

every-reverse : (p : ℕ → Bool) (s : Text) → every p s ≡ true → every p (reverse s) ≡ true
every-reverse p [] h = refl
every-reverse p (c ∷ s) h =
    subst (λ t. every p t ≡ true) (sym (reverse-cons c s))
      (every-append p (reverse s) (c ∷ []) (every-reverse p s (ground arith)) (ground arith))

drop_dashes-append :
    (s : Text) (c : ℕ) → (c == dash) ≡ false → drop_dashes (s ++ c ∷ []) ≡ drop_dashes s ++ c ∷ []
unfolding drop_dashes
drop_dashes-append [] c h = ground (arith, h)
drop_dashes-append (x ∷ s) c h = ground (arith, drop_dashes-append s c h)

trim_dashes-front :
    (s : Text)
    → no_leading_dash s ≡ true
    → no_leading_dash (reverse (drop_dashes (reverse s))) ≡ true
unfolding drop_dashes
trim_dashes-front [] h = refl
trim_dashes-front (c ∷ s) h =
    subst (λ t. no_leading_dash t ≡ true)
      (sym (
        ap (λ t. reverse (drop_dashes t)) (reverse-cons c s)
        ∙ ap reverse (drop_dashes-append (reverse s) c (ground arith))
        ∙ reverse-append (drop_dashes (reverse s)) (c ∷ [])))
      h

-- A slug has at most 60 characters, each a letter from `a` to `z`, a digit or a dash, and does not
-- start with a dash.
pub slugify-IsSlug :
    (env : OrgEnv) (input : Text)
    → IsSlug (slugify env input)
      × (length (slugify env input) ≤ 60)
      × (no_leading_dash (slugify env input) ≡ true)
unfolding slugify trim_dashes
slugify-IsSlug env input =
    let runs = replace_runs false (env.lower input) in
    let front = drop_dashes runs in
    let trimmed = reverse (drop_dashes (reverse front)) in
    let allowed =
      every-drop_dashes is_slug_char runs (replace_runs-IsSlug false (env.lower input)) in
    (
      every-first is_slug_char 60 trimmed (
          every-reverse is_slug_char (drop_dashes (reverse front)) (
            every-drop_dashes is_slug_char (reverse front)
              (every-reverse is_slug_char front allowed))),
      length-first 60 trimmed,
      no_leading_dash-first 60 trimmed (trim_dashes-front front (no_leading_dash-drop_dashes runs)),
    )

-- ===== src/Text.antt =====
-- Texts as the lists of their characters (UTF-16 code units), with the language's operations on them.
use signara.Prelude.{
  ℕ, ◌≡◌, refl, ap, ◌∙◌, Bool, true, false, ◌&&◌, ◌==◌, List, [], ◌∷◌, ◌++◌, any, every, reverse,
  not, arith,
}

abbrev pub Text : Type 0
Text = List ℕ

abbrev pub dot : ℕ
dot = b'.'

abbrev pub colon : ℕ
colon = b':'

abbrev pub text_eq : Text → Text → Bool
text_eq [] [] = true
text_eq (a ∷ as') (b ∷ bs) = a == b && text_eq as' bs
text_eq _ _ = false

abbrev pub starts_with : Text → Text → Bool
starts_with [] s = true
starts_with (a ∷ as') [] = false
starts_with (a ∷ as') (b ∷ bs) = a == b && starts_with as' bs

-- `s` ends with `suffix`
abbrev pub ends_with : Text → Text → Bool
ends_with suffix s = starts_with (reverse suffix) (reverse s)

abbrev pub includes : ℕ → Text → Bool
includes c s = any (λ x. x == c) s

abbrev pub is_blank_text : Text → Bool
is_blank_text [] = true
is_blank_text _ = false

abbrev add_char : Bool → ℕ → List Text → List Text
add_char true c parts = [] ∷ parts
add_char false c [] = (c ∷ []) ∷ []
add_char false c (p ∷ ps) = (c ∷ p) ∷ ps

-- `s.split(c)` for a text `c` of one character
unfoldable pub split_on : ℕ → Text → List Text
split_on sep [] = [] ∷ []
split_on sep (c ∷ s) = add_char (c == sep) c (split_on sep s)

-- `parts.join(c)`
unfoldable pub join : ℕ → List Text → Text
join sep [] = []
join sep (p ∷ []) = p
join sep (p ∷ q ∷ ps) = p ++ sep ∷ join sep (q ∷ ps)

-- A text in which the separator does not occur.
abbrev pub IsFree : ℕ → Text → Type 0
IsFree sep s = every (λ c. not (c == sep)) s ≡ true

split-free : (sep : ℕ) (p : Text) → IsFree sep p → split_on sep p ≡ p ∷ []
unfolding split_on
split-free sep [] h = refl
split-free sep (c ∷ p) h = ground (arith, split-free sep p)

split-append :
    (sep : ℕ) (p s : Text) → IsFree sep p → split_on sep (p ++ sep ∷ s) ≡ p ∷ split_on sep s
unfolding split_on
split-append sep [] s h = ground arith
split-append sep (c ∷ p) s h = ground (arith, split-append sep p s)

-- Every part of the list is free of the separator.
abbrev pub AllFree : ℕ → List Text → Type 0
AllFree sep [] = Unit
AllFree sep (p ∷ ps) = IsFree sep p × AllFree sep ps

-- Splitting undoes joining, if the separator occurs in no part.
pub split-join :
    (sep : ℕ) (p : Text) (ps : List Text)
    → AllFree sep (p ∷ ps)
    → split_on sep (join sep (p ∷ ps)) ≡ p ∷ ps
unfolding join
split-join sep p [] (free, rest) = split-free sep p free
split-join sep p (q ∷ qs) (free, rest) =
    split-append sep p (join sep (q ∷ qs)) free ∙ ap (λ l. p ∷ l) (split-join sep q qs rest)

-- ===== src/Posture/Search.antt =====
-- The search of apps/api/src/config/secret-posture.ts finds what the description says.
use signara.Prelude.{
  ℕ, ◌+◌, ◌≡◌, ◌↔◌, ◌⊎◌, refl, sym, ap, ◌∙◌, subst, Bool, true, false, ◌&&◌, ◌||◌, ◌==◌, leb, arith,
  Bool-cases, Option-cases, some, [], ◌∷◌, ◌++◌, get_or, map_some, is_some, every, inl, inr, ==_iff,
}
use signara.Text.{Text}
use signara.Posture.{
  lower_char, is_separator, strip_word, starts_me, ends_placeholder, matches_here,
  matches_placeholder,
}
use signara.Posture.Placeholder.{
  Spells, spelled, small, capital, Separates, nothing, hyphen, underscore, dot, word_change,
  word_me, IsTail, HasPlaceholder,
}

abbrev is_small : ℕ → Bool
is_small w = leb b'a' w && leb w b'z'

lower_char-cases :
    (c w : ℕ) → is_small w ≡ true → (lower_char c == w) ≡ true → (c ≡ w) ⊎ (c + 32 ≡ w)
lower_char-cases c w h e = elim (Bool-cases (leb b'A' c && leb c b'Z')) [
  | inl upper ↦ inr (ground arith)
  | inr lower ↦ inl (ground arith)
]

strip_word-Spells :
    (ws s r : Text)
    → every is_small ws ≡ true
    → strip_word ws s ≡ some r
    → (p : Text) × Spells p ws × (s ≡ p ++ r)
unfolding strip_word
strip_word-Spells [] s r h e = ([], spelled, cc)
strip_word-Spells (w ∷ ws) [] r h e = absurd (cc)
strip_word-Spells (w ∷ ws) (c ∷ s) r h e = elim (Bool-cases (lower_char c == w)) [
  | inr other ↦ absurd (ground arith)
  | inl same ↦
      let (p, spells, split) = strip_word-Spells ws s r (ground arith) (ground arith) in
      elim (lower_char-cases c w (ground arith) same) [
        | inl is ↦ (w ∷ p, small spells, ap (λ l. c ∷ l) split ∙ ap (λ (x : ℕ). x ∷ (p ++ r)) is)
        | inr up ↦ (c ∷ p, capital up spells, ap (λ l. c ∷ l) split)
      ]
]

lower_small : (w : ℕ) → is_small w ≡ true → (lower_char w == w) ≡ true
lower_small w h = ground arith

lower_capital : (c w : ℕ) → is_small w ≡ true → c + 32 ≡ w → (lower_char c == w) ≡ true
lower_capital c w h e = ground arith

strip_word-append :
    (ws p r : Text) → every is_small ws ≡ true → Spells p ws → strip_word ws (p ++ r) ≡ some r
unfolding strip_word
strip_word-append ws p r h spelled = refl
strip_word-append ws p r h (small {w} {s} {ws = ws'} spells) =
    let same = lower_small w (ground arith) in
    rw same (strip_word-append ws' s r (ground arith) spells)
strip_word-append ws p r h (capital {c} {w} {s} {ws = ws'} e spells) =
    let same = lower_capital c w (ground arith) e in
    rw same (strip_word-append ws' s r (ground arith) spells)

starts_me-spelled :
    (s : Text) → starts_me s ≡ true → (p : Text) × (r : Text) × Spells p word_me × (s ≡ p ++ r)
starts_me-spelled s h = elim (Option-cases (strip_word word_me s)) [
  | inl missing ↦ absurd (ground arith)
  | inr (r, found) ↦
      let (p, spells, split) = strip_word-Spells word_me s r refl found in (p, r, spells, split)
]

starts_me-append : (p r : Text) → Spells p word_me → starts_me (p ++ r) ≡ true
starts_me-append p r h = ap is_some (strip_word-append word_me p r refl h)

is_separator-Separates : (c : ℕ) → is_separator c ≡ true → Separates (c ∷ [])
is_separator-Separates c h = elim (Bool-cases (c == b'-')) [
  | inl e ↦ subst (λ x. Separates (x ∷ [])) (sym ((==_iff c b'-').0 e)) hyphen
  | inr e ↦ elim (Bool-cases (c == b'_')) [
    | inl f ↦ subst (λ x. Separates (x ∷ [])) (sym ((==_iff c b'_').0 f)) underscore
    | inr f ↦ subst (λ x. Separates (x ∷ [])) (sym ((==_iff c b'.').0 (ground arith))) dot
  ]
]

ends_placeholder-IsTail : (s : Text) → ends_placeholder s ≡ true → IsTail s
ends_placeholder-IsTail [] h = absurd (cc)
ends_placeholder-IsTail (c ∷ s) h = elim (Bool-cases (starts_me (c ∷ s))) [
  | inl at_once ↦
      let (p, r, spells, split) = starts_me-spelled (c ∷ s) at_once in
      record {
        separator = [];
        word = p;
        after = r;
        split = split;
        separates = nothing;
        spells = spells;
      }
  | inr later ↦
      let (p, r, spells, split) = starts_me-spelled s (ground arith) in
      record {
        separator = c ∷ [];
        word = p;
        after = r;
        split = ap (λ l. c ∷ l) split;
        separates = is_separator-Separates c (ground arith);
        spells = spells;
      }
]

me_tail : (p r : Text) → Spells p word_me → ends_placeholder (p ++ r) ≡ true
me_tail p r (small {s} spells) =
    let h = starts_me-append p r (small spells) in
    ap (λ b. b || (is_separator b'm' && starts_me (s ++ r))) h
me_tail p r (capital {c} {s} e spells) =
    let h = starts_me-append p r (capital e spells) in
    ap (λ b. b || (is_separator c && starts_me (s ++ r))) h

separated_me :
    (sep p r : Text) → Separates sep → Spells p word_me → ends_placeholder (sep ++ (p ++ r)) ≡ true
separated_me sep p r nothing h = me_tail p r h
separated_me sep p r hyphen h = let e = starts_me-append p r h in ground arith
separated_me sep p r underscore h = let e = starts_me-append p r h in ground arith
separated_me sep p r dot h = let e = starts_me-append p r h in ground arith

IsTail-ends_placeholder : (s : Text) → IsTail s → ends_placeholder s ≡ true
IsTail-ends_placeholder s t =
    ap ends_placeholder t.split ∙ separated_me t.separator t.word t.after t.separates t.spells

matches_here-HasPlaceholder : (s : Text) → matches_here s ≡ true → HasPlaceholder s
matches_here-HasPlaceholder s h = elim (Option-cases (strip_word word_change s)) [
  | inl missing ↦ absurd (ground arith)
  | inr (r, found) ↦
      let (p, spells, split) = strip_word-Spells word_change s r refl found in
      record {
        before = [];
        word = p;
        rest = r;
        split = split;
        spells = spells;
        tail = ends_placeholder-IsTail r (ground arith);
      }
]

matches_here-append : (p r : Text) → Spells p word_change → IsTail r → matches_here (p ++ r) ≡ true
matches_here-append p r h t =
    ap (λ o. get_or (map_some ends_placeholder o) false) (strip_word-append word_change p r refl h)
    ∙ IsTail-ends_placeholder r t

matches_placeholder-HasPlaceholder : (s : Text) → matches_placeholder s ≡ true → HasPlaceholder s
unfolding matches_placeholder
matches_placeholder-HasPlaceholder [] h = absurd (cc)
matches_placeholder-HasPlaceholder (c ∷ s) h = elim (Bool-cases (matches_here (c ∷ s))) [
  | inl hit ↦ matches_here-HasPlaceholder (c ∷ s) hit
  | inr miss ↦
      let p = matches_placeholder-HasPlaceholder s (ground arith) in
      record {
        before = c ∷ p.before;
        word = p.word;
        rest = p.rest;
        split = ap (λ l. c ∷ l) p.split;
        spells = p.spells;
        tail = p.tail;
      }
]

or_true : (b : Bool) → (b || true) ≡ true
or_true b = ground arith

matches_behind : (p s : Text) → matches_placeholder s ≡ true → matches_placeholder (p ++ s) ≡ true
unfolding matches_placeholder
matches_behind [] s h = h
matches_behind (d ∷ p) s h =
    ap (λ b. matches_here (d ∷ p ++ s) || b) (matches_behind p s h)
    ∙ or_true (matches_here (d ∷ p ++ s))

matches_at : (s : Text) → matches_here s ≡ true → matches_placeholder s ≡ true
unfolding matches_placeholder strip_word
matches_at [] h = absurd (cc)
matches_at (c ∷ s) h = ap (λ b. b || matches_placeholder s) h

-- The search finds a placeholder exactly if there is one.
pub matches_placeholder_iff : (s : Text) → (matches_placeholder s ≡ true) ↔ HasPlaceholder s
matches_placeholder_iff s = (
  matches_placeholder-HasPlaceholder s,
  λ p.
      ap matches_placeholder p.split
      ∙ matches_behind p.before (p.word ++ p.rest)
          (matches_at (p.word ++ p.rest) (matches_here-append p.word p.rest p.spells p.tail)),
)

-- ===== src/Posture/Placeholder.antt =====
-- The placeholder of apps/api/src/config/secret-posture.ts, described without the search for it.
use signara.Prelude.{ℕ, ◌+◌, ◌≡◌, [], ◌∷◌, ◌++◌}
use signara.Text.{Text}

-- The text is the word in small letters, up to the case of its own letters.
pub data Spells : Text → Text → Type 0 where
  spelled : Spells [] []
  small : {w : ℕ} {s ws : Text} → Spells s ws → Spells (w ∷ s) (w ∷ ws)
  capital : {c w : ℕ} {s ws : Text} → c + 32 ≡ w → Spells s ws → Spells (c ∷ s) (w ∷ ws)

-- Nothing, or one of `-`, `_` and `.`.
pub data Separates : Text → Type 0 where
  nothing : Separates []
  hyphen : Separates (b'-' ∷ [])
  underscore : Separates (b'_' ∷ [])
  dot : Separates (b'.' ∷ [])

abbrev pub word_change : Text
word_change = b'c' ∷ b'h' ∷ b'a' ∷ b'n' ∷ b'g' ∷ b'e' ∷ []

abbrev pub word_me : Text
word_me = b'm' ∷ b'e' ∷ []

-- What may stand behind the first word.
pub record IsTail (t : Text) : Type 0 where
  pub separator : Text
  pub word : Text
  pub after : Text
  pub split : t ≡ separator ++ (word ++ after)
  pub separates : Separates separator
  pub spells : Spells word word_me

-- The text holds a placeholder, wherever it stands.
pub record HasPlaceholder (t : Text) : Type 0 where
  pub before : Text
  pub word : Text
  pub rest : Text
  pub split : t ≡ before ++ (word ++ rest)
  pub spells : Spells word word_change
  pub tail : IsTail rest

-- ===== src/Posture.antt =====
-- The refusal to start on shipped secrets (apps/api/src/config/secret-posture.ts).
pub mod Placeholder
pub mod Search
pub mod Fit
use signara.Prelude.{
  ℕ, ◌+◌, String, Bool, true, false, not, ◌&&◌, ◌||◌, ◌==◌, str_eq, leb, Option, none, some, List,
  [], ◌∷◌, ◌++◌, if◌then◌else◌, get_or, map_some, is_some, length,
}
use signara.Text.{Text, is_blank_text}

-- `process.env` with the names of the variables, and `trim` of the language.
pub record ProcessEnv : Type 0 where
  pub node_env : Option String
  pub value : String → Option Text
  pub trim : Text → Text

-- The flag `i` on a letter of ASCII.
abbrev pub lower_char : ℕ → ℕ
lower_char c = if leb b'A' c && leb c b'Z' then c + 32 else c

abbrev pub is_separator : ℕ → Bool
is_separator c = c == b'-' || c == b'_' || c == b'.'

abbrev pub change : Text
change = b'c' ∷ b'h' ∷ b'a' ∷ b'n' ∷ b'g' ∷ b'e' ∷ []

abbrev pub me : Text
me = b'm' ∷ b'e' ∷ []

-- The rest of the text behind a word of lower-case letters, whatever the case of the text.
unfoldable pub strip_word : Text → Text → Option Text
strip_word [] s = some s
strip_word (w ∷ ws) [] = none
strip_word (w ∷ ws) (c ∷ s) = let rest = strip_word ws s in if lower_char c == w then rest else none

abbrev pub starts_me : Text → Bool
starts_me s = is_some (strip_word me s)

-- `[-_.]?me`
abbrev pub ends_placeholder : Text → Bool
ends_placeholder [] = false
ends_placeholder (c ∷ s) = starts_me (c ∷ s) || (is_separator c && starts_me s)

-- `change[-_.]?me` from the first character on
abbrev pub matches_here : Text → Bool
matches_here s = get_or (map_some ends_placeholder (strip_word change s)) false

-- `PLACEHOLDER.test(s)`: from some character on.
unfoldable pub matches_placeholder : Text → Bool
matches_placeholder [] = false
matches_placeholder (c ∷ s) = matches_here (c ∷ s) || matches_placeholder s

pub data Problem : Type 0 where
  is_unset : String → Problem
  is_shipped : String → Problem

-- `PlaceholderSecretError` with the problems that its text lists.
pub data Start : Type 0 where
  starts : Start
  refuses : List Problem → Start

-- `if (problems.length === 0) return; throw …`
abbrev pub start_unless : List Problem → Start
start_unless ps = if length ps == 0 then starts else refuses ps

abbrev pub required_in_production : List String
required_in_production = "JWT_ACCESS_SECRET" ∷ "JWT_REFRESH_SECRET" ∷ "CRYPTO_MASTER_KEY" ∷ []

abbrev pub no_placeholders : List String
no_placeholders =
    required_in_production
    ++ "POSTGRES_PASSWORD" ∷ "REDIS_PASSWORD" ∷ "DATABASE_URL" ∷ "REDIS_URL" ∷ "S3_SECRET_KEY"
      ∷ "MEILISEARCH_API_KEY" ∷ "OIDC_CLIENT_SECRET" ∷ "AUTHENTIK_SECRET_KEY"
      ∷ "AUTHENTIK_DB_PASSWORD" ∷ "AUTHENTIK_BOOTSTRAP_PASSWORD" ∷ []

module _ (env : ProcessEnv) where
  -- `(env[key] ?? '').trim()`
  abbrev pub trimmed : String → Text
  trimmed key = env.trim (get_or (env.value key) [])

  abbrev pub is_placeholder : String → Bool
  is_placeholder key = matches_placeholder (trimmed key)

  abbrev pub unset : List String → List Problem
  unset [] = []
  unset (k ∷ ks) =
      let rest = unset ks in if is_blank_text (trimmed k) then is_unset k ∷ rest else rest

  abbrev pub shipped : List String → List Problem
  shipped [] = []
  shipped (k ∷ ks) = let rest = shipped ks in if is_placeholder k then is_shipped k ∷ rest else rest

  abbrev pub is_production : Bool
  is_production = str_eq (get_or env.node_env "development") "production"

  abbrev pub problems : List Problem
  problems = unset required_in_production ++ shipped no_placeholders

  unfoldable pub assert_secret_posture : Start
  assert_secret_posture = if is_production then start_unless problems else starts

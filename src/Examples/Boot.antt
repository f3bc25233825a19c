-- ===== src/Examples/Boot.antt =====
-- Examples of the check of the secrets.
use signara.Prelude.{◌≡◌, ◌↔◌, refl, ◌∷◌, [], some, str_eq, if◌then◌else◌, All}
use signara.Text.{Text}
use signara.Posture.{
  ProcessEnv, starts, refuses, is_shipped, assert_secret_posture, strip_word, matches_placeholder,
}
use signara.Posture.Fit.{setting, signing_keys, shipped_keys, posture_iff}
use signara.Posture.Placeholder.{HasPlaceholder}

abbrev shipped_url : Text
shipped_url =
    b'/' ∷ b'a' ∷ b':' ∷ b'C' ∷ b'h' ∷ b'a' ∷ b'n' ∷ b'g' ∷ b'e' ∷ b'_' ∷ b'M' ∷ b'e' ∷ b'@' ∷ []

abbrev env : ProcessEnv
env = record {
  node_env = some "production";
  value = λ key. some (if str_eq key "DATABASE_URL" then shipped_url else b'k' ∷ []);
  trim = λ s. s;
}

url_refused : assert_secret_posture env ≡ refuses (is_shipped "DATABASE_URL" ∷ [])
unfolding assert_secret_posture matches_placeholder strip_word
url_refused = refl

posture_iff_example : (assert_secret_posture env ≡ starts) ↔ (
    All (λ key. ¬ (setting env key ≡ [])) signing_keys
    × All (λ key. ¬ HasPlaceholder (setting env key)) shipped_keys)
posture_iff_example = posture_iff env refl

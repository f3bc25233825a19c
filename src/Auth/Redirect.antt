-- ===== src/Auth/Redirect.antt =====
-- Where a login lands (`createLoginState`, `parseLoginState` and `safeNextPath` of auth.service.ts).
pub mod Paths
use signara.Prelude.{
  ℕ, String, Bool, true, false, not, ◌&&◌, ◌||◌, ◌==◌, leb, str_eq, Option, none, some, [], ◌∷◌,
  if◌then◌else◌, get_or, map_some, any,
}
use signara.Exec.{Outcome, ok, throw, unauthorized}
use signara.Text.{Text, starts_with, includes}
use signara.Auth.{AuthEnv, StateClaims, required_secret}

abbrev pub slash : ℕ
slash = b'/'

abbrev pub backslash : ℕ
backslash = 92

abbrev pub home : Text
home = slash ∷ []

-- `/[\\u0000-\\u001f]/`: in a literal the doubled backslash is a character of the class, so the class
-- holds a backslash, `u`, `0`, the range from `0` to a backslash, `1` and `f`.
abbrev pub is_in_class : ℕ → Bool
is_in_class c =
    c == backslash
    || c == b'u'
    || c == b'0'
    || (leb b'0' c && leb c backslash)
    || c == b'1'
    || c == b'f'

abbrev pub is_refused_path : Text → Bool
is_refused_path next =
    not (starts_with (slash ∷ []) next)
    || starts_with (slash ∷ slash ∷ []) next
    || includes backslash next
    || any is_in_class next

unfoldable pub safe_next_path : Option Text → Text
safe_next_path none = home
safe_next_path (some next) = if is_refused_path next then home else next

module _ (env : AuthEnv) where
  unfoldable pub create_login_state : Option Text → Outcome String
  create_login_state next = elim (required_secret env.access_secret) [
    | throw e ↦ throw e
    | ok secret ↦ ok (
        env.sign_state secret
          (record { type = some "oidc-state"; next = some (safe_next_path next) }))
  ]

  -- Whatever throws inside the source's `try` is reported as an invalid state.
  unfoldable pub parse_login_state : String → Outcome Text
  parse_login_state state = elim (required_secret env.access_secret) [
    | throw e ↦ throw (unauthorized "Invalid or expired login state")
    | ok secret ↦ elim (env.verify_state secret state) [
      | none ↦ throw (unauthorized "Invalid or expired login state")
      | some claims ↦
          if get_or (map_some (str_eq "oidc-state") claims.type) false
          then ok (safe_next_path claims.next)
          else throw (unauthorized "Invalid or expired login state")
    ]
  ]

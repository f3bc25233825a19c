-- ===== src/Auth/Redirect/Paths.antt =====
-- What `safeNextPath` of auth.service.ts lets through.
use signara.Prelude.{
  ℕ, ◌≡◌, refl, String, true, false, Option, none, some, [], ◌∷◌, any, every, ltb, leb, not, ◌&&◌,
  ◌||◌, ◌==◌, Bool, Bool-cases, inl, inr, arith,
}
use signara.Exec.{ok}
use signara.Text.{Text, starts_with, includes}
use signara.Auth.{AuthEnv, StateClaims, required_secret}
use signara.Auth.Redirect.{
  slash, backslash, home, is_in_class, is_refused_path, safe_next_path, create_login_state,
  parse_login_state,
}

-- A path on the site itself: one slash at the start, and no backslash, which browsers read as one.
pub record IsLocal (path : Text) : Type 0 where
  pub rooted : starts_with (slash ∷ []) path ≡ true
  pub one_slash : starts_with (slash ∷ slash ∷ []) path ≡ false
  pub no_backslash : includes backslash path ≡ false

kept-IsLocal : (path : Text) → is_refused_path path ≡ false → IsLocal path
kept-IsLocal path h = record {
  rooted = ground arith;
  one_slash = ground arith;
  no_backslash = ground arith;
}

-- A login lands on a path of the site itself, whatever was asked for.
pub safe_next_path-IsLocal : (next : Option Text) → IsLocal (safe_next_path next)
unfolding safe_next_path
safe_next_path-IsLocal none = record { rooted = refl; one_slash = refl; no_backslash = refl }
safe_next_path-IsLocal (some next) = elim (Bool-cases (is_refused_path next)) [
  | inl bad ↦ rw bad (record { rooted = refl; one_slash = refl; no_backslash = refl })
  | inr good ↦ rw good (kept-IsLocal next good)
]

pub safe_next_path_idem :
    (next : Option Text) → safe_next_path (some (safe_next_path next)) ≡ safe_next_path next
unfolding safe_next_path
safe_next_path_idem none = refl
safe_next_path_idem (some next) = elim (Bool-cases (is_refused_path next)) [
  | inl bad ↦ rw bad refl
  | inr good ↦ rw good (rw good refl)
]

any_letter : (p : Text) → includes b'u' p ≡ true → any is_in_class p ≡ true
any_letter [] h = h
any_letter (d ∷ p) h = ground (arith, any_letter p)

-- The lower-case letters but `f` and `u`, and the control characters.
abbrev pub is_kept_char : ℕ → Bool
is_kept_char c = ltb c 32 || (leb b'a' c && leb c b'z' && not (c == b'f') && not (c == b'u'))

plain-char :
    (c : ℕ)
    → is_kept_char c ≡ true
    → (is_in_class c ≡ false) × ((c == slash) ≡ false) × ((c == backslash) ≡ false)
plain-char c h = ground arith

plain-path :
    (p : Text)
    → every is_kept_char p ≡ true
    → (any is_in_class p ≡ false) × (includes backslash p ≡ false)
plain-path [] h = (refl, refl)
plain-path (c ∷ p) h =
    let (in_class, not_slash, not_back) = plain-char c (ground arith) in
    let (rest, rest') = plain-path p (ground arith) in (ground arith, ground arith)

plain-kept : (p : Text) → every is_kept_char p ≡ true → is_refused_path (slash ∷ p) ≡ false
plain-kept [] h = refl
plain-kept (c ∷ p) h =
    let (in_class, not_slash, not_back) = plain-char c (ground arith) in
    let (rest, rest') = plain-path (c ∷ p) h in ground arith

-- The test for control characters has the wrong class: a path of control characters and lower-case
-- letters but `f` and `u` behind one slash is kept as it is, and any path with a letter `u` is
-- replaced by the home page.
pub next_path_class :
    (p path : Text)
    → every is_kept_char p ≡ true
    → includes b'u' path ≡ true
    → (safe_next_path (some (slash ∷ p)) ≡ slash ∷ p) × (safe_next_path (some path) ≡ home)
unfolding safe_next_path
next_path_class p path plain letter =
    let bad = any_letter path letter in
    let good = plain-kept p plain in (ground (arith, good), ground (arith, bad))

module _ (env : AuthEnv) where
  -- With a secret whose signed states verify to their claims, a state that was made for a path is
  -- read back as the path on the site that a login may land on.
  pub parse-create_login_state :
      (secret : String) (next : Option Text)
      → required_secret env.access_secret ≡ ok secret
      → ((claims : StateClaims)
          → env.verify_state secret (env.sign_state secret claims) ≡ some claims)
      → (state : String) × (create_login_state env next ≡ ok state)
        × (parse_login_state env state ≡ ok (safe_next_path next))
  unfolding create_login_state parse_login_state
  parse-create_login_state secret next set verifies = (
    env.sign_state secret (record { type = some "oidc-state"; next = some (safe_next_path next) }),
    ground arith,
    ground (
      arith,
      set,
      verifies (record { type = some "oidc-state"; next = some (safe_next_path next) }),
      safe_next_path_idem next,
    ),
  )

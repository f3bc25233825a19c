-- ===== src/Posture/Fit.antt =====
-- What the check of apps/api/src/config/secret-posture.ts lets start.
use signara.Prelude.{
  ◌≡◌, refl, ap, sym, subst, ◌∙◌, ◌↔◌, Bool, true, not, ◌&&◌, ◌==◌, arith, List, [], ◌∷◌, ◌++◌,
  String, if◌then◌else◌, every, length, All, false, get_or, str_eq, Option-cases, none, some, inl,
  inr,
}
use signara.Text.{Text, is_blank_text}
use signara.Posture.Placeholder.{HasPlaceholder}
use signara.Posture.Search.{matches_placeholder_iff}
use signara.Posture.{
  ProcessEnv, starts, start_unless, problems, required_in_production, no_placeholders, trimmed,
  is_placeholder, unset, shipped, is_production, assert_secret_posture, Problem,
}

empty-append :
    (ps qs : List Problem) → (length (ps ++ qs) == 0) ≡ ((length ps == 0) && (length qs == 0))
empty-append [] qs = ground arith
empty-append (p ∷ ps) qs = ground arith

start_unless-starts :
    (ps : List Problem) (a b : Bool)
    → (length ps == 0) ≡ (a && b)
    → (start_unless ps ≡ starts) ↔ ((a ≡ true) × (b ≡ true))
start_unless-starts [] a b h = (λ e. ground arith, λ both. refl)
start_unless-starts (p ∷ ps) a b h = (λ e. ground arith, λ both. ground arith)

module _ (env : ProcessEnv) where
  abbrev pub is_set : String → Bool
  is_set key = not (is_blank_text (trimmed env key))

  abbrev pub is_own : String → Bool
  is_own key = not (is_placeholder env key)

  unset-empty : (ks : List String) → (length (unset env ks) == 0) ≡ every is_set ks
  unset-empty [] = refl
  unset-empty (k ∷ ks) = ground (arith, unset-empty ks)

  shipped-empty : (ks : List String) → (length (shipped env ks) == 0) ≡ every is_own ks
  shipped-empty [] = refl
  shipped-empty (k ∷ ks) = ground (arith, shipped-empty ks)

  problems-empty :
      (length (problems env) == 0)
      ≡ (every is_set required_in_production && every is_own no_placeholders)
  problems-empty =
      empty-append (unset env required_in_production) (shipped env no_placeholders)
      ∙ ap (λ b. b && (length (shipped env no_placeholders) == 0))
          (unset-empty required_in_production)
      ∙ ap (λ b. every is_set required_in_production && b) (shipped-empty no_placeholders)

every-All :
    {A : Type 0} (p : A → Bool) (P : A → Type 0)
    → ((x : A) → (p x ≡ true) ↔ P x)
    → (xs : List A) → (every p xs ≡ true) ↔ All P xs
every-All p P h [] = (λ e. tt, λ e. refl)
every-All p P h (x ∷ xs) = (
  λ e. ((h x).0 (ground arith), (every-All p P h xs).0 (ground arith)),
  λ (px, pxs). let e = (h x).1 px in let es = (every-All p P h xs).1 pxs in ground arith,
)

blank-cases : (t : Text) → (not (is_blank_text t) ≡ true) ↔ ¬ (t ≡ [])
blank-cases [] = (λ e. absurd (cc), λ n. absurd (n refl))
blank-cases (c ∷ t) = (λ e n. cc, λ n. refl)

not_iff : (b : Bool) (P : Type 0) → (b ≡ true) ↔ P → (not b ≡ true) ↔ ¬ P
not_iff true P h = (λ e. absurd (cc), λ n. absurd (n (h.0 refl)))
not_iff false P h = (λ e p. cc (h.1 p), λ n. refl)

-- The keys of the deployment that have no safe default.
abbrev pub signing_keys : List String
signing_keys = "JWT_ACCESS_SECRET" ∷ "JWT_REFRESH_SECRET" ∷ "CRYPTO_MASTER_KEY" ∷ []

-- The keys that must not hold what `.env.example` ships.
abbrev pub shipped_keys : List String
shipped_keys =
    "JWT_ACCESS_SECRET" ∷ "JWT_REFRESH_SECRET" ∷ "CRYPTO_MASTER_KEY" ∷ "POSTGRES_PASSWORD"
    ∷ "REDIS_PASSWORD" ∷ "DATABASE_URL" ∷ "REDIS_URL" ∷ "S3_SECRET_KEY" ∷ "MEILISEARCH_API_KEY"
    ∷ "OIDC_CLIENT_SECRET" ∷ "AUTHENTIK_SECRET_KEY" ∷ "AUTHENTIK_DB_PASSWORD"
    ∷ "AUTHENTIK_BOOTSTRAP_PASSWORD" ∷ []

module _ (env : ProcessEnv) where
  -- The value of a key without the blanks around it; a missing one is empty.
  abbrev pub setting : String → Text
  setting key = elim (env.value key) [ none ↦ env.trim [] | some t ↦ env.trim t ]

  trimmed-setting : (key : String) → trimmed env key ≡ setting key
  trimmed-setting key = elim (Option-cases (env.value key)) [
    | inl missing ↦ ground arith
    | inr (t, given) ↦ ground arith
  ]

  set_iff : (key : String) → (is_set env key ≡ true) ↔ ¬ (setting key ≡ [])
  set_iff key =
      subst (λ t. (not (is_blank_text (trimmed env key)) ≡ true) ↔ ¬ (t ≡ [])) (trimmed-setting key)
        (blank-cases (trimmed env key))

  own_iff : (key : String) → (is_own env key ≡ true) ↔ ¬ HasPlaceholder (setting key)
  own_iff key =
      subst (λ t. (not (is_placeholder env key) ≡ true) ↔ ¬ HasPlaceholder t) (trimmed-setting key)
        (not_iff (is_placeholder env key) (HasPlaceholder (trimmed env key))
          (matches_placeholder_iff (trimmed env key)))

  -- In production the service starts exactly if the three signing keys are set and none of the
  -- thirteen watched keys holds a placeholder anywhere in its value: `change`, perhaps one of `-`, `_`
  -- and `.`, and `me`, in letters of any case.
  pub posture_iff :
      env.node_env ≡ some "production"
      → (assert_secret_posture env ≡ starts) ↔ (
          All (λ key. ¬ (setting key ≡ [])) signing_keys
          × All (λ key. ¬ HasPlaceholder (setting key)) shipped_keys)
  unfolding assert_secret_posture
  posture_iff h =
      let live : is_production env ≡ true =
        ap (λ o. str_eq (get_or o "development") "production") h in
      let all_set = every-All (is_set env) (λ key. ¬ (setting key ≡ [])) set_iff signing_keys in
      let all_own =
        every-All (is_own env) (λ key. ¬ HasPlaceholder (setting key)) own_iff shipped_keys in
      let checks =
        start_unless-starts (problems env) (every (is_set env) signing_keys)
          (every (is_own env) shipped_keys) (problems-empty env) in
      let same = ap (λ b. if b then start_unless (problems env) else starts) live in
      (
        λ e. let (s, o) = checks.0 (sym same ∙ e) in (all_set.0 s, all_own.0 o),
        λ (s, o). same ∙ checks.1 (all_set.1 s, all_own.1 o),
      )

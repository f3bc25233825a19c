-- ===== src/Webhooks/Endpoints/Urls.antt =====
-- Which URLs `create` of webhooks.service.ts registers.
use signara.Prelude.{
  ◌≡◌, ◌⊎◌, inl, inr, refl, sym, ap, ◌∙◌, subst, true, false, String, Option, none, some, get_or,
  arith, Option-cases, Bool-cases,
}
use signara.Exec.{ok}
use signara.Env.{Env, Url}
use signara.Webhooks.Hosts.{is_private_host}
use signara.Webhooks.Endpoints.{check_url, assert_deliverable_url, is_https}

module _ (env : Env) where
  abbrev pub IsDeliverable : Url → Type 0
  IsDeliverable url =
      ((is_https url.protocol ≡ true) × (is_private_host env.lower url.hostname ≡ false))
      ⊎ ((env.allow_private ≡ some true) × (is_private_host env.lower url.hostname ≡ true))

  allowed : (o : Option _) → get_or o false ≡ true → o ≡ some true
  allowed none h = cc
  allowed (some true) h = refl
  allowed (some false) h = cc

  check_url-ok :
      (url target : Url) → check_url env url ≡ ok target → (target ≡ url) × IsDeliverable url
  unfolding check_url
  check_url-ok url target h = elim (Bool-cases (is_private_host env.lower url.hostname)) [
    | inl private ↦ (ground arith, inr (allowed env.allow_private (ground arith), private))
    | inr public ↦ (ground arith, inl (ground arith, public))
  ]

  -- An accepted URL is one that parses; its host is not private and its protocol is https, unless
  -- the host is private and the deployment allows private hosts.
  pub accepted_url :
      (raw : String) (target : Url)
      → assert_deliverable_url env raw ≡ ok target
      → (env.parse_url raw ≡ some target) × IsDeliverable target
  unfolding assert_deliverable_url
  accepted_url raw target h = elim (Option-cases (env.parse_url raw)) [
    | inl bad ↦ absurd (ground arith)
    | inr (url, parsed) ↦
        let (same, good) = check_url-ok url target (ground arith) in
        (parsed ∙ ap some (sym same), subst IsDeliverable (sym same) good)
  ]

-- ===== src/Guards/Admitted.antt =====
-- Whom the guards of apps/api/src/common/guards let through, and with which rights.
use signara.Prelude.{
  ℕ, ◌≡◌, sym, ap, ◌∙◌, String, Bool, true, false, not, ◌&&◌, ◌||◌, ◌==◌, Option, none, some, [],
  inl, inr, find, find-mem, find-holds, get_or, is_some, truthy, update_where, Bool-cases,
  Option-cases, arith,
}
use signara.Exec.{ok, Outcome-cases}
use signara.User.{AuthenticatedUser, user}
use signara.Accounts.{User, ApiKey, Accounts}
use signara.Guards.Keys.{
  IsUsableKey, HasKeyRights, unowned, owned, is_valid_key-IsUsableKey, usable-IsOwner,
}
use signara.Guards.{
  Route, Headers, is_admin, granted, has_any, no_codes, permissions_guard, has_org, tenant_guard,
  jwt_auth_guard, admit,
}
use signara.Guards.Principal.{
  GuardEnv, extract_bearer, resolve_principal, authenticate_api_key, is_valid_key, is_usable_user,
  is_member, key_owner, key_principal,
}

module _ (env : GuardEnv) where
  -- The caller that a route lets through, as far as the route asks.
  pub record IsGranted (route : Route) (caller : AuthenticatedUser) : Type 0 where
    pub tenant : (not route.tenant_required || is_some caller.org) ≡ true
    pub permitted :
        (no_codes route.required_codes
          || is_admin caller.platform_role
          || has_any (get_or route.required_codes []) (granted caller))
        ≡ true

  tenant_guard-ok :
      (route : Route) (o : Option AuthenticatedUser) {b : Bool}
      → route.is_public ≡ false
      → tenant_guard route o ≡ ok b
      → (not route.tenant_required || has_org o) ≡ true
  unfolding tenant_guard
  tenant_guard-ok route o private h = ground arith

  permissions_guard-ok :
      (route : Route) (caller : AuthenticatedUser) {b : Bool}
      → route.is_public ≡ false
      → permissions_guard route (some caller) ≡ ok b
      → (no_codes route.required_codes
          || is_admin caller.platform_role
          || has_any (get_or route.required_codes []) (granted caller))
        ≡ true
  unfolding permissions_guard
  permissions_guard-ok route caller private h = ground arith

  caller_known :
      (route : Route) (headers : Headers) (s s' : Accounts) {o : Option AuthenticatedUser}
      → route.is_public ≡ false
      → jwt_auth_guard env route headers s ≡ (ok o, s')
      → (caller : AuthenticatedUser) × (o ≡ some caller)
  unfolding jwt_auth_guard
  caller_known route headers s s' private h = elim (Bool-cases (truthy headers.x_api_key)) [
    | inl keyed ↦
        elim (Outcome-cases (authenticate_api_key env (get_or headers.x_api_key "") s).0) [
          | inr (e, refused) ↦ absurd (ground arith)
          | inl (caller, known) ↦ (caller, ground arith)
        ]
    | inr unkeyed ↦
        let token = extract_bearer env headers.authorization in
        elim (Bool-cases (truthy token)) [
          | inr bare ↦ absurd (ground arith)
          | inl borne ↦ elim (Outcome-cases (resolve_principal env (get_or token "") s).0) [
            | inr (e, refused) ↦ absurd (ground arith)
            | inl (caller, known) ↦ (caller, ground arith)
          ]
        ]
  ]

  -- A route that is not public lets a call through only with a caller, who has a tenant if the route
  -- asks for one, and who is a platform administrator or has one of the codes if it names any.
  pub admit_grants :
      (route : Route) (headers : Headers) (s s' : Accounts) {o : Option AuthenticatedUser}
      → route.is_public ≡ false
      → admit env route headers s ≡ (ok o, s')
      → (caller : AuthenticatedUser) × (o ≡ some caller) × IsGranted route caller
  unfolding admit
  admit_grants route headers s s' private h =
      elim (Outcome-cases (jwt_auth_guard env route headers s).0) [
        | inr (e, unknown) ↦ absurd (ground arith)
        | inl (p, known) ↦ elim (Outcome-cases (tenant_guard route p)) [
          | inr (e, outside) ↦ absurd (ground arith)
          | inl (b, inside) ↦ elim (Outcome-cases (permissions_guard route p)) [
            | inr (e, barred) ↦ absurd (ground arith)
            | inl (c, allowed) ↦
                let t = (jwt_auth_guard env route headers s).1 in
                let (caller, e) = caller_known route headers s t private (λ i. (known i, t)) in
                (
                  caller,
                  ground arith,
                  record {
                    tenant = tenant_guard-ok route (some caller) private (rw e at inside);
                    permitted = permissions_guard-ok route caller private (rw e at allowed);
                  },
                )
          ]
        ]
      ]

  -- The row is stamped with its last use before the owner is looked up.
  abbrev touched : ApiKey → Accounts → Accounts
  touched k s = record s {
    api_keys =
        update_where (λ x. x.id == k.id) (λ x. record x { last_used_at = some env.now }) s.api_keys;
  }

  abbrev is_owner_row : Accounts → ApiKey → ℕ → User → Bool
  is_owner_row s k id u = u.id == id && is_usable_user u && is_member s k.organization_id u.id

  owner_row :
      (s : Accounts) (k : ApiKey) (id : ℕ) (v : User)
      → is_owner_row s k id v ≡ true
      → (v.id ≡ id) × (is_usable_user v ≡ true) × (is_member s k.organization_id v.id ≡ true)
  owner_row s k id v h = ground arith

  owner_rights :
      (s : Accounts) (k : ApiKey) (owner : Option User) (caller : AuthenticatedUser)
      → caller ≡ key_principal env k owner
      → key_owner k (touched k s) ≡ ok owner
      → HasKeyRights s k caller
  unfolding key_owner
  owner_rights s k none caller same held = elim (Option-cases k.user_id) [
    | inl nobody ↦ unowned nobody (ap (λ c. c.org) same)
    | inr (id, by) ↦ elim (Option-cases (find (is_owner_row s k id) s.users)) [
      | inl missing ↦ absurd (ground arith)
      | inr (v, found) ↦ absurd (ground arith)
    ]
  ]
  owner_rights s k (some u) caller same held = elim (Option-cases k.user_id) [
    | inl nobody ↦ absurd (ground arith)
    | inr (id, by) ↦ elim (Option-cases (find (is_owner_row s k id) s.users)) [
      | inl missing ↦ absurd (ground arith)
      | inr (v, found) ↦
          let (named, usable, joined) =
            owner_row s k id v (find-holds (is_owner_row s k id) s.users found) in
          owned v
            (usable-IsOwner s k v (find-mem _ s.users found) (by ∙ ap some (sym named)) usable
              joined)
            (ap (λ c. c.org) same)
    ]
  ]

  -- An API key is accepted only if its hash is stored, it is neither revoked nor expired, and its
  -- organization is active or on trial and not deleted; its caller is no platform administrator, and
  -- acts in no tenant if the key has no owner, or, with the scopes of the key, in the key's own, where
  -- its owner, an active user, has a membership.
  pub api_key_rights :
      (raw_key : String) (s s' : Accounts) (caller : AuthenticatedUser)
      → authenticate_api_key env raw_key s ≡ (ok caller, s')
      → (k : ApiKey) × IsUsableKey env s raw_key k
        × (caller.platform_role ≡ user)
        × HasKeyRights s k caller
  unfolding authenticate_api_key
  api_key_rights raw_key s s' caller h =
      elim (Option-cases (find (is_valid_key env s (env.sha256 raw_key)) s.api_keys)) [
        | inl missing ↦ absurd (ground arith)
        | inr (k, found) ↦ elim (Outcome-cases (key_owner k (touched k s))) [
          | inr (e, refused) ↦ absurd (ground arith)
          | inl (owner, held) ↦
              let same : caller ≡ key_principal env k owner = (ground arith) in
              (
                k,
                is_valid_key-IsUsableKey env s raw_key k (find-mem _ s.api_keys found)
                    (find-holds (is_valid_key env s (env.sha256 raw_key)) s.api_keys found),
                ap (λ c. c.platform_role) same,
                owner_rights s k owner caller same held,
              )
        ]
      ]

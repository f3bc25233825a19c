-- ===== src/ApiKeys/Scopes.antt =====
-- What a key of api-keys.service.ts may do once it is presented to the guard of
-- apps/api/src/common/guards/jwt-auth.guard.ts.
use signara.Prelude.{
  ◌+◌, ◌≡◌, refl, ap, String, Bool, true, false, ◌&&◌, ◌==◌, str_eq, eq_iff, some, List, [], ◌∷◌,
  ◌++◌, inl, inr, find, any, get_or, map_some, ltb, Bool-cases, arith,
}
use signara.Exec.{ok}
use signara.User.{AuthenticatedUser, Org}
use signara.Accounts.{User, ApiKey, Accounts}
use signara.ApiKeys.{KeyInput, CreatedKey, KeyEnv, expiry, plaintext, key_row, create}
use signara.Guards.Principal.{
  GuardEnv, has_open_org, is_valid_key, is_usable_user, is_member, key_owner, key_principal,
  authenticate_api_key,
}

-- A row behind rows that fail the test is found if it passes.
find-behind :
    (p q : ApiKey → Bool) (xs : List ApiKey) (y : ApiKey)
    → ((x : ApiKey) → p x ≡ true → q x ≡ true)
    → any q xs ≡ false
    → p y ≡ true
    → find p (xs ++ y ∷ []) ≡ some y
find-behind p q [] y narrow h pass = rw pass
find-behind p q (x ∷ xs) y narrow h pass = elim (Bool-cases (p x)) [
  | inl hit ↦ let bad = narrow x hit in absurd (ground arith)
  | inr miss ↦ rw miss (find-behind p q xs y narrow (ground arith) pass)
]

module _ (env : KeyEnv) (guard_env : GuardEnv) where
  -- The tables after a key was created.
  abbrev stored : AuthenticatedUser → Org → KeyInput → Accounts → Accounts
  stored user org input s = record s {
    api_keys = s.api_keys ++ key_row env user org input s ∷ [];
    ids_drawn = s.ids_drawn + 1;
    tokens_drawn = s.tokens_drawn + 1;
  }

  create-ok :
      (user : AuthenticatedUser) (org : Org) (input : KeyInput) (s s' : Accounts)
      {created : CreatedKey}
      → user.org ≡ some org
      → create env user input s ≡ (ok created, s')
      → (created.key ≡ plaintext env s)
        × (any (λ k. str_eq k.key_hash (env.sha256 (plaintext env s))) s.api_keys ≡ false)
        × (s' ≡ stored user org input s)
  unfolding create
  create-ok user org input s s' member h =
      elim (Bool-cases (any (λ k. str_eq k.key_hash (env.sha256 (plaintext env s))) s.api_keys)) [
        | inl taken ↦ absurd (ground arith)
        | inr fresh ↦ (ground arith, fresh, ground arith)
      ]

  module _ (user : AuthenticatedUser) (org : Org) (input : KeyInput) (s : Accounts)
      (open_org : has_open_org s org.id ≡ true)
      (live : get_or (map_some (λ t. ltb guard_env.now t) (expiry env input.expires_in_days)) true
        ≡ true) where
    abbrev hash_of : String
    hash_of = env.sha256 (plaintext env s)

    abbrev tables : Accounts
    tables = stored user org input s

    row_valid : is_valid_key guard_env tables hash_of (key_row env user org input s) ≡ true
    row_valid = let same = (eq_iff hash_of hash_of).1 refl in rw (same, open_org) live

    row_found :
        any (λ k. str_eq k.key_hash hash_of) s.api_keys ≡ false
        → find (is_valid_key guard_env tables hash_of) tables.api_keys
          ≡ some (key_row env user org input s)
    row_found fresh =
        find-behind (is_valid_key guard_env tables hash_of) (λ k. str_eq k.key_hash hash_of)
          s.api_keys (key_row env user org input s) (λ x e. ground arith) fresh row_valid

    abbrev key_org : Org
    key_org = record { id = org.id; role = "API_KEY"; permissions = get_or input.scopes [] }

    row_owned :
        (u : User) (rows : List ApiKey)
        → find (λ x. x.id == user.id && is_usable_user x && is_member s org.id x.id) s.users
          ≡ some u
        → key_owner (key_row env user org input s) (record tables { api_keys = rows }) ≡ ok (some u)
    unfolding key_owner
    row_owned u rows owner = ground arith

    key_works :
        (u : User)
        → any (λ k. str_eq k.key_hash hash_of) s.api_keys ≡ false
        → guard_env.sha256 (plaintext env s) ≡ hash_of
        → find (λ x. x.id == user.id && is_usable_user x && is_member s org.id x.id) s.users
          ≡ some u
        → (caller : AuthenticatedUser) × ((authenticate_api_key guard_env
              (plaintext env s)
              tables).0
            ≡ ok caller)
          × (caller.org ≡ some key_org)
    unfolding authenticate_api_key
    key_works u fresh same owner = (
      key_principal guard_env (key_row env user org input s) (some u),
      rw (same, row_found fresh) (rw (row_owned u _ owner) refl),
      refl,
    )

  -- A new key is accepted while it has not expired, if its tenant is open and its owner an active
  -- member, and it then acts with exactly the scopes that were asked for, whatever the permissions of
  -- the caller who asked.
  pub authenticate-create :
      (user : AuthenticatedUser) (org : Org) (input : KeyInput) (u : User) (s s' : Accounts)
      (created : CreatedKey)
      → guard_env.sha256 ≡ env.sha256
      → user.org ≡ some org
      → create env user input s ≡ (ok created, s')
      → get_or (map_some (λ t. ltb guard_env.now t) (expiry env input.expires_in_days)) true ≡ true
      → has_open_org s org.id ≡ true
      → find (λ x. x.id == user.id && is_usable_user x && is_member s org.id x.id) s.users ≡ some u
      → (caller : AuthenticatedUser) × ((authenticate_api_key guard_env created.key s').0
          ≡ ok caller)
        × (caller.org
            ≡ some (record { id = org.id; role = "API_KEY"; permissions = get_or input.scopes [] }))
  authenticate-create user org input u s s' created same member h live open_org owner =
      let (shown, fresh, final) = create-ok user org input s s' {created = created} member h in
      let (caller, accepted, rights) =
        key_works user org input s open_org live u fresh (ap (λ f. f (plaintext env s)) same)
          owner in
      (caller, rw (shown, final) accepted, rights)

-- ===== src/Guards/Keys.antt =====
-- What makes an API key usable, and what its caller may do, described without the code's tests
-- (`authenticateApiKey` of apps/api/src/common/guards/jwt-auth.guard.ts).
use signara.Prelude.{
  ℕ, ◌≡◌, ◌<◌, refl, String, true, false, ◌&&◌, ◌==◌, Option, none, some, ◌⊎◌, inl, inr, map_some,
  ltb, ltb→lt, ==_iff, eq_iff, any-mem, find, find-mem, find-holds, Memᴰ, get_or, is_some,
  Option-cases, arith,
}
use signara.User.{AuthenticatedUser}
use signara.Accounts.{
  User, UserStatus, Organization, OrgStatus, OrgMembership, ApiKey, Accounts, active_user,
  invited_user, suspended_user, deactivated_user, active_org, trial_org, suspended_org,
  canceled_org, is_live_org, is_active_user,
}
use signara.Guards.Principal.{GuardEnv, is_valid_key, is_usable_user, has_open_org, is_member}

-- The organization exists, is active or on trial, and is not deleted.
pub record IsOpen (s : Accounts) (id : ℕ) : Type 0 where
  pub organization : Organization
  pub stored : Memᴰ organization s.organizations
  pub named : organization.id ≡ id
  pub live : (organization.status ≡ active_org) ⊎ (organization.status ≡ trial_org)
  pub undeleted : organization.deleted_at ≡ none

-- The owner of the key: a stored user who is active and not deleted, with a membership in the key's
-- organization.
pub record IsOwner (s : Accounts) (k : ApiKey) (u : User) : Type 0 where
  pub stored : Memᴰ u s.users
  pub named : k.user_id ≡ some u.id
  pub active : u.status ≡ active_user
  pub undeleted : u.deleted_at ≡ none
  pub membership : OrgMembership
  pub kept : Memᴰ membership s.memberships
  pub of_user : membership.user_id ≡ u.id
  pub of_org : membership.organization_id ≡ k.organization_id

-- The rights of a key's caller: none for a key without an owner, or the scopes of the key in its
-- organization.
pub data HasKeyRights (s : Accounts) (k : ApiKey) (caller : AuthenticatedUser) : Type 0 where
  unowned : k.user_id ≡ none → caller.org ≡ none → HasKeyRights s k caller
  owned :
      (u : User)
      → IsOwner s k u
      → caller.org
        ≡ some (record { id = k.organization_id; role = "API_KEY"; permissions = k.scopes })
      → HasKeyRights s k caller

is_live_org-cases : (o : OrgStatus) → is_live_org o ≡ true → (o ≡ active_org) ⊎ (o ≡ trial_org)
is_live_org-cases active_org h = inl refl
is_live_org-cases trial_org h = inr refl
is_live_org-cases suspended_org h = cc
is_live_org-cases canceled_org h = cc

is_active_user-eq : (u : UserStatus) → is_active_user u ≡ true → u ≡ active_user
is_active_user-eq active_user h = refl
is_active_user-eq invited_user h = cc
is_active_user-eq suspended_user h = cc
is_active_user-eq deactivated_user h = cc

no_date : (d : Option ℕ) → is_some d ≡ false → d ≡ none
no_date none h = refl
no_date (some t) h = cc

has_open_org-IsOpen : (s : Accounts) (id : ℕ) → has_open_org s id ≡ true → IsOpen s id
has_open_org-IsOpen s id h =
    elim (Option-cases (find (λ (o : Organization). o.id == id) s.organizations)) [
      | inl missing ↦ absurd (ground arith)
      | inr (o, found) ↦ record {
        organization = o;
        stored = find-mem _ s.organizations found;
        named =
            (==_iff o.id id).0
              (find-holds (λ (q : Organization). q.id == id) s.organizations found);
        live = is_live_org-cases o.status (ground arith);
        undeleted = no_date o.deleted_at (ground arith);
      }
    ]

pub usable-IsOwner :
    (s : Accounts) (k : ApiKey) (u : User)
    → Memᴰ u s.users
    → k.user_id ≡ some u.id
    → is_usable_user u ≡ true
    → is_member s k.organization_id u.id ≡ true
    → IsOwner s k u
usable-IsOwner s k u m named usable joined =
    let (row, kept, both) =
      any-mem (λ (x : OrgMembership). x.user_id == u.id && x.organization_id == k.organization_id)
        s.memberships (ground arith) in
    record {
      stored = m;
      named = named;
      active = is_active_user-eq u.status (ground arith);
      undeleted = no_date u.deleted_at (ground arith);
      membership = row;
      kept = kept;
      of_user = (==_iff row.user_id u.id).0 (ground arith);
      of_org = (==_iff row.organization_id k.organization_id).0 (ground arith);
    }

module _ (env : GuardEnv) where
  -- A stored key that may be used now.
  pub record IsUsableKey (s : Accounts) (raw_key : String) (k : ApiKey) : Type 0 where
    pub stored : Memᴰ k s.api_keys
    pub hashed : k.key_hash ≡ env.sha256 raw_key
    pub unrevoked : k.revoked_at ≡ none
    pub unexpired : (k.expires_at ≡ none) ⊎ ((t : ℕ) × (k.expires_at ≡ some t) × (env.now < t))
    pub opened : IsOpen s k.organization_id

  unexpired-cases :
      (d : Option ℕ)
      → get_or (map_some (λ t. ltb env.now t) d) true ≡ true
      → (d ≡ none) ⊎ ((t : ℕ) × (d ≡ some t) × (env.now < t))
  unexpired-cases none h = inl refl
  unexpired-cases (some t) h = inr (t, refl, ltb→lt env.now t h)

  pub is_valid_key-IsUsableKey :
      (s : Accounts) (raw_key : String) (k : ApiKey)
      → Memᴰ k s.api_keys
      → is_valid_key env s (env.sha256 raw_key) k ≡ true
      → IsUsableKey s raw_key k
  is_valid_key-IsUsableKey s raw_key k m h = record {
    stored = m;
    hashed = (eq_iff k.key_hash (env.sha256 raw_key)).0 (ground arith);
    unrevoked = no_date k.revoked_at (ground arith);
    unexpired = unexpired-cases k.expires_at (ground arith);
    opened = has_open_org-IsOpen s k.organization_id (ground arith);
  }

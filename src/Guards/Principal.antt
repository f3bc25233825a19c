-- ===== src/Guards/Principal.antt =====
-- Who calls (`extractBearer`, `resolvePrincipal` and `authenticateApiKey` of
-- apps/api/src/common/guards/jwt-auth.guard.ts).
use Prim.Native.String.{◌++◌ as ◌<>◌, len, slice}
use text.Mathlib.Text.{starts_with}
use signara.Prelude.{
  ℕ, String, Bool, true, false, not, ◌&&◌, ◌||◌, ◌==◌, str_eq, Option, none, some, List, [],
  if◌then◌else◌, get_or, map_some, is_some, truthy, find, any, update_where, ltb,
}
use signara.Exec.{
  Exec, Outcome, ok, throw, unauthorized, pure, lift, gets, modify, require, ◌>>=◌, ◌>>◌,
}
use signara.User.{AuthenticatedUser, Org, user}
use signara.Accounts.{
  User, Organization, OrgMembership, ApiKey, Accounts, MemberRole, owner_role, admin_role,
  manager_role, auditor_role, member_role, is_active_user, is_live_org,
}

pub record TokenHeader : Type 0 where
  pub alg : Option String
  pub kid : Option String

pub record TokenPayload : Type 0 where
  pub sub : Option String
  pub email : Option String
  pub type : Option String

pub record GuardEnv : Type 0 where
  pub now : ℕ
  pub trim : String → String
  -- `auth.jwtAccessSecret`, and whether `oidc.jwksUrl` is set
  pub access_secret : Option String
  pub has_jwks : Bool
  -- the header that `jwt.decode` reads; `none` where it reads none
  pub decode : String → Option TokenHeader
  -- `jwt.verify` of an HS256 token under a secret, and of an RS256 token under a key for the issuer
  -- and the audience of the configuration; `none` where it throws
  pub verify_hs256 : String → String → Option TokenPayload
  pub verify_rs256 : String → String → Option TokenPayload
  -- `jwks.getSigningKey(kid)`; `none` where it throws
  pub signing_key : String → Option String
  -- the SHA-256 of a key, in hex
  pub sha256 : String → String
  -- the id `system`, of a key without a user
  pub system_id : ℕ

abbrev pub role_name : MemberRole → String
role_name owner_role = "OWNER"
role_name admin_role = "ADMIN"
role_name manager_role = "MANAGER"
role_name auditor_role = "AUDITOR"
role_name member_role = "MEMBER"

abbrev pub find_org : ℕ → Accounts → Option Organization
find_org id s = find (λ o. o.id == id) s.organizations

-- `organization: { status: { in: ['ACTIVE', 'TRIAL'] } }`
abbrev pub has_live_org : Accounts → ℕ → Bool
has_live_org s id = get_or (map_some (λ o. is_live_org o.status) (find_org id s)) false

-- ... and `deletedAt: null`
abbrev pub has_open_org : Accounts → ℕ → Bool
has_open_org s id =
    get_or (map_some (λ o. is_live_org o.status && not (is_some o.deleted_at)) (find_org id s))
      false

abbrev pub is_usable_user : User → Bool
is_usable_user u = is_active_user u.status && not (is_some u.deleted_at)

abbrev pub is_member : Accounts → ℕ → ℕ → Bool
is_member s organization_id user_id =
    any (λ m. m.user_id == user_id && m.organization_id == organization_id) s.memberships
    && has_open_org s organization_id

-- The owner of a key, if the key has one, as an active member of its organization.
unfoldable pub key_owner : ApiKey → Accounts → Outcome (Option User)
key_owner k s = elim k.user_id [
  | none ↦ ok none
  | some id ↦
      elim (find (λ u. u.id == id && is_usable_user u && is_member s k.organization_id u.id)
        s.users) [
          | none ↦ throw (unauthorized "API key owner is not an active organization member")
          | some u ↦ ok (some u)
        ]
]

module _ (env : GuardEnv) where
  unfoldable pub extract_bearer : Option String → Option String
  extract_bearer none = none
  extract_bearer (some authorization) =
      if starts_with authorization "Bearer "
      then some (env.trim (slice authorization 7 (len authorization)))
      else none

  abbrev unsupported : Outcome TokenPayload
  unsupported = throw (unauthorized "Invalid or expired token")

  abbrev or_unsupported : Option TokenPayload → Outcome TokenPayload
  or_unsupported none = unsupported
  or_unsupported (some p) = ok p

  abbrev access_payload : TokenPayload → Option TokenPayload
  access_payload p = if get_or (map_some (str_eq "access") p.type) false then some p else none

  -- A token that Signara issued itself.
  abbrev verify_local : String → Outcome TokenPayload
  verify_local token =
      if truthy env.access_secret
      then elim (env.verify_hs256 (get_or env.access_secret "") token) [
        | none ↦ unsupported
        | some p ↦ or_unsupported (access_payload p)
      ]
      else unsupported

  abbrev verify_with_key : Option String → String → Outcome TokenPayload
  verify_with_key none token = unsupported
  verify_with_key (some key) token = or_unsupported (env.verify_rs256 key token)

  -- A token of the identity provider.
  abbrev verify_idp : Option String → String → Outcome TokenPayload
  verify_idp kid token =
      if env.has_jwks && truthy kid
      then verify_with_key (env.signing_key (get_or kid "")) token
      else unsupported

  abbrev verify_by : TokenHeader → String → Outcome TokenPayload
  verify_by header token =
      if get_or (map_some (str_eq "HS256") header.alg) false
      then verify_local token
      else if get_or (map_some (str_eq "RS256") header.alg) false
      then verify_idp header.kid token
      else unsupported

  -- Whatever throws inside the source's `try` is reported as an invalid token.
  unfoldable pub verify_token : String → Outcome TokenPayload
  verify_token token = elim (env.decode token) [
    | none ↦ unsupported
    | some header ↦ verify_by header token
  ]

  abbrev is_payload_user : String → String → User → Bool
  is_payload_user sub email u =
      (get_or (map_some (str_eq sub) u.auth_provider_id) false || str_eq u.email email)
      && is_usable_user u

  unfoldable pub find_payload_user : TokenPayload → Accounts → Outcome User
  find_payload_user p s =
      if truthy p.sub && truthy p.email
      then elim (find (is_payload_user (get_or p.sub "") (get_or p.email "")) s.users) [
        | none ↦
            throw (unauthorized "User is not provisioned. Ask your administrator to invite you.")
        | some u ↦ ok u
      ]
      else throw (unauthorized "Token missing required claims (sub, email)")

  -- The oldest membership in an organization that is active or on trial.
  abbrev active_membership : User → Accounts → Option OrgMembership
  active_membership u s =
      find (λ m. m.user_id == u.id && has_live_org s m.organization_id) s.memberships

  -- `membership.roleRef?.permissions.map(...) ?? []`
  abbrev role_permissions : Accounts → OrgMembership → List String
  role_permissions s m = elim m.role_id [
    | none ↦ []
    | some id ↦ get_or (map_some (λ r. r.permissions) (find (λ r. r.id == id) s.roles)) []
  ]

  abbrev org_of : Accounts → OrgMembership → Org
  org_of s m = record {
    id = m.organization_id;
    role = role_name m.role;
    permissions = role_permissions s m;
  }

  abbrev principal : User → Accounts → AuthenticatedUser
  principal u s = record {
    id = u.id;
    email = u.email;
    display_name = u.display_name;
    platform_role = u.platform_role;
    org = map_some (org_of s) (active_membership u s);
  }

  unfoldable pub resolve_principal : String → Exec Accounts AuthenticatedUser
  resolve_principal token = do
    payload ← lift (verify_token token)
    u ← λ s. (find_payload_user payload s, s)
    caller ← gets (principal u)
    modify (λ s. record s {
      users =
          update_where (λ x. x.id == u.id) (λ x. record x { last_login_at = some env.now }) s.users;
    })
    pure caller

  -- `keyHash`, `revokedAt: null`, an open organization and no expiry before now
  abbrev pub is_valid_key : Accounts → String → ApiKey → Bool
  is_valid_key s key_hash k =
      str_eq k.key_hash key_hash
      && not (is_some k.revoked_at)
      && has_open_org s k.organization_id
      && get_or (map_some (λ t. ltb env.now t) k.expires_at) true

  abbrev pub key_principal : ApiKey → Option User → AuthenticatedUser
  key_principal k owner = record {
    id = get_or k.user_id env.system_id;
    email = get_or (map_some (λ u. u.email) owner) ("apikey:" <> k.prefix);
    display_name = some k.name;
    platform_role = user;
    org =
        map_some (λ u. record { id = k.organization_id; role = "API_KEY"; permissions = k.scopes })
          owner;
  }

  unfoldable pub authenticate_api_key : String → Exec Accounts AuthenticatedUser
  authenticate_api_key raw_key = do
    k ← λ s.
        require (find (is_valid_key s (env.sha256 raw_key)) s.api_keys)
          (unauthorized "Invalid API key") s
    modify (λ s. record s {
      api_keys =
          update_where (λ x. x.id == k.id) (λ x. record x { last_used_at = some env.now })
            s.api_keys;
    })
    owner ← λ s. (key_owner k s, s)
    pure (key_principal k owner)

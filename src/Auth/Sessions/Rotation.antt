-- ===== src/Auth/Sessions/Rotation.antt =====
-- A session that a refresh has claimed (`refresh` of auth.service.ts) is spent: no later call of the
-- service makes it live again.
use signara.Prelude.{
  ℕ, ◌≡◌, refl, ap, ◌∙◌, subst, String, Bool, true, false, not, ◌||◌, ◌==◌, ==_iff, List, [], ◌∷◌,
  inl, inr, any, every, select, length, update_where, any-append, every-append, every-update_where,
  is_some, Bool-cases, arith,
}
use signara.Exec.{ok, throw, unauthorized, Outcome-cases}
use signara.Accounts.{User, LoginSession, Accounts}
use signara.Auth.{AuthEnv, required_secret}
use signara.Auth.Sessions.{
  TokenPair, issue_token_pair, create_session, start_session, is_claimed_by, revoke_row,
  claim_session, rotate_session,
}

abbrev has_id : ℕ → LoginSession → Bool
has_id id x = x.id == id

abbrev is_over : ℕ → LoginSession → Bool
is_over id x = not (x.id == id) || is_some x.revoked_at

-- The table has a session of this id, and it is revoked.
pub record IsSpent (id : ℕ) (s : Accounts) : Type 0 where
  pub there : any (has_id id) s.sessions ≡ true
  pub over : every (is_over id) s.sessions ≡ true

any-update_where :
    (id : ℕ) (q : LoginSession → Bool) (f : LoginSession → LoginSession) (xs : List LoginSession)
    → ((x : LoginSession) → (f x).id ≡ x.id)
    → any (has_id id) (update_where q f xs) ≡ any (has_id id) xs
any-update_where id q f [] keep = refl
any-update_where id q f (x ∷ xs) keep = ground (arith, keep x, any-update_where id q f xs keep)

-- Revoking rows, whichever they are, leaves a spent session spent.
pub revoke_rows-IsSpent :
    (env : AuthEnv) (id : ℕ) (q : LoginSession → Bool) (s : Accounts)
    → IsSpent id s
    → IsSpent id (record s { sessions = update_where q (revoke_row env) s.sessions })
revoke_rows-IsSpent env id q s h = record {
  there = any-update_where id q (revoke_row env) s.sessions (λ x. refl) ∙ h.there;
  over = every-update_where (is_over id) q (revoke_row env) s.sessions (λ x e. ground arith) h.over;
}

other_id :
    (id new : ℕ) (xs : List LoginSession)
    → any (has_id id) xs ≡ true
    → any (has_id new) xs ≡ false
    → (new == id) ≡ false
other_id id new xs h free = elim (Bool-cases (new == id)) [
  | inl same ↦ let e = (==_iff new id).0 same in absurd (ground arith)
  | inr other ↦ other
]

pub create_session-IsSpent :
    (env : AuthEnv) (id user_id : ℕ) (token fingerprint ip : String) (s : Accounts)
    → IsSpent id s
    → IsSpent id (create_session env user_id token fingerprint ip s).1
unfolding create_session
create_session-IsSpent env id user_id token fingerprint ip s h =
    elim (Bool-cases (any (has_id (env.uuid s.ids_drawn)) s.sessions)) [
      | inl taken ↦ rw taken (record { there = h.there; over = h.over })
      | inr free ↦
          let other = other_id id (env.uuid s.ids_drawn) s.sessions h.there free in
          rw free (record {
            there = rw (any-append, h.there) refl;
            over = rw (every-append, h.over, other) refl;
          })
    ]

none_claimed :
    (id : ℕ) (xs : List LoginSession)
    → every (is_over id) xs ≡ true
    → length (select (is_claimed_by id) xs) ≡ 0
none_claimed id [] h = refl
none_claimed id (x ∷ xs) h = ground (arith, none_claimed id xs)

claimed_there :
    (id : ℕ) (xs : List LoginSession)
    → length (select (is_claimed_by id) xs) ≡ 1
    → any (has_id id) xs ≡ true
claimed_there id [] h = ground arith
claimed_there id (x ∷ xs) h = ground (arith, claimed_there id xs)

claimed_over :
    (env : AuthEnv) (id : ℕ) (xs : List LoginSession)
    → every (is_over id) (update_where (is_claimed_by id) (revoke_row env) xs) ≡ true
claimed_over env id [] = refl
claimed_over env id (x ∷ xs) = ground (arith, claimed_over env id xs)

-- `revoked.count !== 1`
pub claim_refused :
    (env : AuthEnv) (x : LoginSession) (u : User) (fingerprint ip : String) (s : Accounts)
    → IsSpent x.id s
    → (rotate_session env x u fingerprint ip s).0
      ≡ throw (unauthorized "Invalid or expired refresh token")
unfolding rotate_session claim_session
claim_refused env x u fingerprint ip s h = ground (arith, none_claimed x.id s.sessions h.over)

issue-sessions :
    (env : AuthEnv) (user_id : ℕ) (email : String) (s : Accounts)
    → (issue_token_pair env user_id email s).1.sessions ≡ s.sessions
unfolding issue_token_pair
issue-sessions env user_id email s = elim (Outcome-cases (required_secret env.access_secret)) [
  | inr (e, unset) ↦ ground arith
  | inl (a, set) ↦ elim (Outcome-cases (required_secret env.refresh_secret)) [
    | inr (e, unset) ↦ ground arith
    | inl (r, set') ↦ ground arith
  ]
]

issue-IsSpent :
    (env : AuthEnv) (id user_id : ℕ) (email : String) (s : Accounts)
    → IsSpent id s
    → IsSpent id (issue_token_pair env user_id email s).1
issue-IsSpent env id user_id email s h = record {
  there = ap (any (has_id id)) (issue-sessions env user_id email s) ∙ h.there;
  over = ap (every (is_over id)) (issue-sessions env user_id email s) ∙ h.over;
}

pub start_session-IsSpent :
    (env : AuthEnv) (id user_id : ℕ) (email fingerprint ip : String) (s : Accounts)
    → IsSpent id s
    → IsSpent id (start_session env user_id email fingerprint ip s).1
unfolding start_session
start_session-IsSpent env id user_id email fingerprint ip s h =
    let t = (issue_token_pair env user_id email s).1 in
    let issued_spent = issue-IsSpent env id user_id email s h in
    elim (Outcome-cases (issue_token_pair env user_id email s).0) [
      | inr (e, unset) ↦ rw unset issued_spent
      | inl (pair, issued) ↦
          let kept =
            create_session-IsSpent env id user_id pair.refresh_token fingerprint ip t
              issued_spent in
          elim (Outcome-cases (create_session env user_id pair.refresh_token fingerprint ip t).0) [
            | inr (e, taken) ↦ rw (issued, taken) kept
            | inl (v, stored) ↦ rw (issued, stored) kept
          ]
    ]

abbrev claimed : AuthEnv → LoginSession → Accounts → Accounts
claimed env x s = record s {
  sessions = update_where (is_claimed_by x.id) (revoke_row env) s.sessions;
}

-- Whatever is spent before a rotation is spent after it, however the rotation ends.
pub rotate_session-IsSpent :
    (env : AuthEnv) (id : ℕ) (x : LoginSession) (u : User) (fingerprint ip : String) (s : Accounts)
    → IsSpent id (claimed env x s)
    → IsSpent id (rotate_session env x u fingerprint ip s).1
unfolding rotate_session claim_session
rotate_session-IsSpent env id x u fingerprint ip s h =
    elim (Bool-cases (length (select (is_claimed_by x.id) s.sessions) == 1)) [
      | inr lost ↦ rw lost h
      | inl won ↦
          rw won (start_session-IsSpent env id x.user_id u.email fingerprint ip (claimed env x s) h)
    ]

-- After a rotation that gave tokens the session is spent.
pub rotate_session-spends :
    (env : AuthEnv) (x : LoginSession) (u : User) (fingerprint ip : String) (s s' : Accounts)
    {pair : TokenPair}
    → rotate_session env x u fingerprint ip s ≡ (ok pair, s')
    → IsSpent x.id s'
unfolding rotate_session claim_session
rotate_session-spends env x u fingerprint ip s s' h =
    elim (Bool-cases (length (select (is_claimed_by x.id) s.sessions) == 1)) [
      | inr lost ↦ absurd (ground arith)
      | inl won ↦ subst (IsSpent x.id) (ap (λ r. r.1) h) (
          rotate_session-IsSpent env x.id x u fingerprint ip s (record {
            there =
                any-update_where x.id (is_claimed_by x.id) (revoke_row env) s.sessions (λ y. refl)
                ∙ claimed_there x.id s.sessions
                    ((==_iff (length (select (is_claimed_by x.id) s.sessions)) 1).0 won);
            over = claimed_over env x.id s.sessions;
          }))
    ]

-- ===== src/Auth/Sessions/Steps.antt =====
-- The auth service as a transition system: its calls in any order, where a refresh may be cut between
-- its lookup and its claim.
use signara.Prelude.{ℕ, ◌≡◌, sym, subst, String, inl, inr}
use signara.Exec.{ok, throw, unauthorized, Outcome-cases}
use signara.Accounts.{User, LoginSession, Accounts}
use signara.Auth.{AuthEnv}
use signara.Auth.Sessions.{
  TokenPair, find_session, rotate_session, refresh, revoke_session, logout_all,
}
use signara.Auth.Sessions.Rotation.{
  IsSpent, revoke_rows-IsSpent, rotate_session-IsSpent, rotate_session-spends, claim_refused,
}
use signara.Auth.Login.{IdpClaims, login_with_idp}
use signara.Auth.Login.Frame.{login_with_idp-IsSpent}

-- One call, at an instant of its own and whether it returns or throws. `rotates` is the rest of a
-- refresh that looked its session up at some earlier time.
pub data Step (s t : Accounts) : Type 0 where
  logs_in :
      (env : AuthEnv) (claims : IdpClaims) (fingerprint ip : String)
      → t ≡ (login_with_idp env claims fingerprint ip s).1
      → Step s t
  refreshes :
      (env : AuthEnv) (token fingerprint ip : String)
      → t ≡ (refresh env token fingerprint ip s).1
      → Step s t
  rotates :
      (env : AuthEnv) (x : LoginSession) (u : User) (fingerprint ip : String)
      → t ≡ (rotate_session env x u fingerprint ip s).1
      → Step s t
  revokes :
      (env : AuthEnv) (token fingerprint : String)
      → t ≡ revoke_session env token fingerprint s
      → Step s t
  logs_out : (env : AuthEnv) (user_id : ℕ) → t ≡ logout_all env user_id s → Step s t

pub data Reach (s : Accounts) : Accounts → Type 0 where
  here : Reach s s
  next : {t u : Accounts} → Reach s t → Step t u → Reach s u

rotate-IsSpent :
    (env : AuthEnv) (id : ℕ) (x : LoginSession) (u : User) (fingerprint ip : String) (s : Accounts)
    → IsSpent id s
    → IsSpent id (rotate_session env x u fingerprint ip s).1
rotate-IsSpent env id x u fingerprint ip s h =
    rotate_session-IsSpent env id x u fingerprint ip s (revoke_rows-IsSpent env id _ s h)

refresh-IsSpent :
    (env : AuthEnv) (id : ℕ) (token fingerprint ip : String) (s : Accounts)
    → IsSpent id s
    → IsSpent id (refresh env token fingerprint ip s).1
unfolding refresh
refresh-IsSpent env id token fingerprint ip s h =
    elim (Outcome-cases (find_session env token fingerprint s)) [
      | inr (e, refused) ↦ rw refused h
      | inl ((x, u), found) ↦ rw found (rotate-IsSpent env id x u fingerprint ip s h)
    ]

Step-IsSpent : (id : ℕ) (s t : Accounts) → IsSpent id s → Step s t → IsSpent id t
unfolding revoke_session logout_all
Step-IsSpent id s t h (logs_in env claims fingerprint ip e) =
    subst (IsSpent id) (sym e) (login_with_idp-IsSpent env id claims fingerprint ip s h)
Step-IsSpent id s t h (refreshes env token fingerprint ip e) =
    subst (IsSpent id) (sym e) (refresh-IsSpent env id token fingerprint ip s h)
Step-IsSpent id s t h (rotates env x u fingerprint ip e) =
    subst (IsSpent id) (sym e) (rotate-IsSpent env id x u fingerprint ip s h)
Step-IsSpent id s t h (revokes env token fingerprint e) =
    subst (IsSpent id) (sym e) (revoke_rows-IsSpent env id _ s h)
Step-IsSpent id s t h (logs_out env user_id e) =
    subst (IsSpent id) (sym e) (revoke_rows-IsSpent env id _ s h)

Reach-IsSpent : (id : ℕ) {s t : Accounts} → IsSpent id s → Reach s t → IsSpent id t
Reach-IsSpent id h here = h
Reach-IsSpent id h (next {t} {u} r step) = Step-IsSpent id t u (Reach-IsSpent id h r) step

-- A session whose refresh gave tokens gives none again, whatever calls come in between and however
-- early the other refresh looked it up: its claim is refused.
pub rotated_once :
    (env env' : AuthEnv) (x : LoginSession) (u u' : User) (fingerprint ip fingerprint' ip' : String)
    (s s' t : Accounts) (pair : TokenPair)
    → rotate_session env x u fingerprint ip s ≡ (ok pair, s')
    → Reach s' t
    → (rotate_session env' x u' fingerprint' ip' t).0
      ≡ throw (unauthorized "Invalid or expired refresh token")
rotated_once env env' x u u' fingerprint ip fingerprint' ip' s s' t pair h r =
    claim_refused env' x u' fingerprint' ip' t
      (Reach-IsSpent x.id (rotate_session-spends env x u fingerprint ip s s' {pair = pair} h) r)

-- ===== src/Auth/Sessions/Ending.antt =====
-- When a refresh of auth.service.ts gives tokens, and that none does after a logout.
use signara.Prelude.{
  ℕ, ◌+◌, ◌*◌, ◌≡◌, refl, String, true, false, ◌==◌, none, some, List, [], ◌∷◌, find, any, select,
  length, update_where, arith,
}
use signara.Exec.{ok, throw, unauthorized}
use signara.Accounts.{User, LoginSession, Accounts, find_user, is_active_user}
use signara.Auth.{AuthEnv, required_secret}
use signara.Auth.Sessions.{
  TokenPair, issue_token_pair, create_session, start_session, token_user, is_live_session,
  is_claimed_by, revoke_row, find_session, claim_session, rotate_session, refresh, logout_all,
}

none_live :
    (env env' : AuthEnv) (hash : String) (user_id : ℕ) (xs : List LoginSession)
    → find
        (is_live_session env' hash user_id)
        (update_where (λ x. x.user_id == user_id) (revoke_row env) xs)
      ≡ none
none_live env env' hash user_id [] = refl
none_live env env' hash user_id (x ∷ xs) = ground (arith, none_live env env' hash user_id xs)

-- Right after a logout from everywhere, no refresh token of the user is accepted, from any client.
pub logout_all_stops :
    (env env' : AuthEnv) (user_id : ℕ) (token fingerprint ip : String) (s : Accounts)
    → token_user env' token ≡ ok user_id
    → (refresh env' token fingerprint ip (logout_all env user_id s)).0
      ≡ throw (unauthorized "Invalid or expired refresh token")
unfolding refresh find_session logout_all
logout_all_stops env env' user_id token fingerprint ip s owner =
    let gone = none_live env env' (env'.fingerprint_hash fingerprint token) user_id s.sessions in
    ground arith

-- A refresh gives tokens if the token is a refresh token of an active user, its session is live, no
-- other row has the session's id, the secrets are set and the new id is free.
pub refresh_accepts :
    (env : AuthEnv) (token fingerprint ip access_secret refresh_secret : String) (user_id : ℕ)
    (x : LoginSession) (u : User) (s : Accounts)
    → required_secret env.access_secret ≡ ok access_secret
    → required_secret env.refresh_secret ≡ ok refresh_secret
    → token_user env token ≡ ok user_id
    → find (is_live_session env (env.fingerprint_hash fingerprint token) user_id) s.sessions
      ≡ some x
    → find_user x.user_id s.users ≡ some u
    → is_active_user u.status ≡ true
    → length (select (is_claimed_by x.id) s.sessions) ≡ 1
    → any
        (λ y. y.id == env.uuid s.ids_drawn)
        (update_where (is_claimed_by x.id) (revoke_row env) s.sessions)
      ≡ false
    → (pair : TokenPair) × ((refresh env token fingerprint ip s).0 ≡ ok pair)
unfolding refresh find_session rotate_session claim_session start_session issue_token_pair
    create_session
refresh_accepts env token fingerprint ip access_secret refresh_secret user_id x u s set set' owner
      live known welcome alone free =
    (
      record {
        access_token = env.sign_access access_secret x.user_id u.email s.tokens_drawn;
        refresh_token = env.sign_refresh refresh_secret x.user_id u.email (s.tokens_drawn + 1);
        expires_in = 15 * 60;
      },
      ground arith,
    )

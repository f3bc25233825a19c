-- ===== src/Auth/Login/Reactivation.antt =====
-- Which accounts a login (`loginWithIdp` of auth.service.ts) lets in.
use signara.Prelude.{◌+◌, ◌*◌, ◌≡◌, String, false, ◌==◌, some, any, str_eq, arith}
use signara.Exec.{ok}
use signara.Accounts.{User, Accounts}
use signara.Auth.{AuthEnv, required_secret}
use signara.Auth.Sessions.{TokenPair, issue_token_pair, create_session, start_session}
use signara.Auth.Login.{
  IdpClaims, find_by_email, sub_taken, login_update, upsert_user, login_with_idp,
}

-- A login of an account that exists gives tokens whatever its status, suspended or deactivated
-- included, if the provider's id is not another account's, the secrets are set and the new id is
-- free.
pub login_reactivates :
    (env : AuthEnv) (claims : IdpClaims) (fingerprint ip access_secret refresh_secret : String)
    (u : User) (s : Accounts)
    → str_eq (env.lower claims.email) "" ≡ false
    → required_secret env.access_secret ≡ ok access_secret
    → required_secret env.refresh_secret ≡ ok refresh_secret
    → sub_taken claims.sub (env.lower claims.email) s ≡ false
    → find_by_email (env.lower claims.email) s.users ≡ some u
    → any (λ x. x.id == env.uuid s.ids_drawn) s.sessions ≡ false
    → (pair : TokenPair) × ((login_with_idp env claims fingerprint ip s).0 ≡ ok pair)
unfolding login_with_idp upsert_user login_update start_session issue_token_pair create_session
login_reactivates env claims fingerprint ip access_secret refresh_secret u s given set set' own
      known free =
    (
      record {
        access_token = env.sign_access access_secret u.id (env.lower claims.email) s.tokens_drawn;
        refresh_token =
            env.sign_refresh refresh_secret u.id (env.lower claims.email) (s.tokens_drawn + 1);
        expires_in = 15 * 60;
      },
      ground arith,
    )

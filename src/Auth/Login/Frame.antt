-- ===== src/Auth/Login/Frame.antt =====
-- What a login (`loginWithIdp` of auth.service.ts) leaves of the sessions.
use signara.Prelude.{ℕ, String, Bool-cases, Option-cases, inl, inr, str_eq}
use signara.Exec.{Outcome-cases}
use signara.Accounts.{Accounts, is_active_user}
use signara.Auth.{AuthEnv}
use signara.Auth.Sessions.Rotation.{IsSpent, start_session-IsSpent}
use signara.Auth.Login.{IdpClaims, find_by_email, sub_taken, upsert_user, login_with_idp}

module _ (env : AuthEnv) (id : ℕ) where
  upsert-IsSpent :
      (email : String) (claims : IdpClaims) (s : Accounts)
      → IsSpent id s
      → IsSpent id (upsert_user env email claims s).1
  unfolding upsert_user
  upsert-IsSpent email claims s h = elim (Bool-cases (sub_taken claims.sub email s)) [
    | inl taken ↦ rw taken h
    | inr free ↦ elim (Option-cases (find_by_email email s.users)) [
      | inl new ↦ rw (free, new) (record { there = h.there; over = h.over })
      | inr (u, known) ↦ rw (free, known) (record { there = h.there; over = h.over })
    ]
  ]

  pub login_with_idp-IsSpent :
      (claims : IdpClaims) (fingerprint ip : String) (s : Accounts)
      → IsSpent id s
      → IsSpent id (login_with_idp env claims fingerprint ip s).1
  unfolding login_with_idp
  login_with_idp-IsSpent claims fingerprint ip s h =
      let email = env.lower claims.email in
      elim (Bool-cases (str_eq email "")) [
        | inl empty ↦ rw empty h
        | inr given ↦ elim (Outcome-cases (upsert_user env email claims s).0) [
          | inr (e, taken) ↦ rw (given, taken) (upsert-IsSpent email claims s h)
          | inl (u, stored) ↦ elim (Bool-cases (is_active_user u.status)) [
            | inr barred ↦ rw (given, stored, barred) (upsert-IsSpent email claims s h)
            | inl welcome ↦
                rw (given, stored, welcome)
                  (start_session-IsSpent env id u.id email fingerprint ip _
                    (upsert-IsSpent email claims s h))
          ]
        ]
      ]

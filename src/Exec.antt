-- ===== src/Exec.antt =====
-- Handlers of the API: actions that change the database and may throw an HTTP exception. What was
-- written before a throw stays written (no transaction spans a handler), so the state comes back
-- beside the error too.
use signara.Prelude.{
  ◌≡◌, refl, ◌⊎◌, inl, inr, String, Bool, true, false, Option, none, some, List, [], ◌∷◌,
}

-- The exception classes of `@nestjs/common` that the services throw, with their message; `internal`
-- is any other error that a handler passes on.
pub data HttpException : Type 0 where
  bad_request : String → HttpException
  conflict : String → HttpException
  forbidden : String → HttpException
  not_found : String → HttpException
  unauthorized : String → HttpException
  internal : String → HttpException

pub data Outcome {ℓ} (A : Type ℓ) : Type ℓ where
  ok : A → Outcome A
  throw : HttpException → Outcome A

abbrev pub Exec {ℓ} : Type ℓ → Type ℓ → Type ℓ
Exec S A = S → Outcome A × S

pub Outcome-cases {ℓ} :
    {A : Type ℓ} (o : Outcome A) → ((a : A) × (o ≡ ok a)) ⊎ ((e : HttpException) × (o ≡ throw e))
Outcome-cases (ok a) = inl (a, refl)
Outcome-cases (throw e) = inr (e, refl)

module _ {ℓ} {S A : Type ℓ} where
  abbrev pub pure : A → Exec S A
  pure a s = (ok a, s)

  abbrev pub raise : HttpException → Exec S A
  raise e s = (throw e, s)

  abbrev pub gets : (S → A) → Exec S A
  gets f s = (ok (f s), s)

  abbrev pub lift : Outcome A → Exec S A
  lift r s = (r, s)

module _ {S : Type 0} where
  abbrev pub modify : (S → S) → Exec S (Unit {0})
  modify f s = (ok tt, f s)

  -- `if (b) throw e;`
  abbrev pub throw_if : Bool → HttpException → Exec S (Unit {0})
  throw_if true e s = (throw e, s)
  throw_if false e s = (ok tt, s)

module _ {ℓ} {S A B : Type ℓ} where
  abbrev pub continue : Outcome A → (A → Exec S B) → Exec S B
  continue (ok a) f s = f a s
  continue (throw e) f s = (throw e, s)

  infixl 10 ◌>>=◌ ◌>>◌
  abbrev pub ◌>>=◌ : Exec S A → (A → Exec S B) → Exec S B
  ◌>>=◌ m f s = continue (m s).0 f (m s).1

  abbrev pub ◌>>◌ : Exec S A → Exec S B → Exec S B
  m >> n = m >>= λ _. n

module _ {S A : Type 0} where
  -- `for (const a of as) await f(a);`, where `f` does not throw
  abbrev pub for_each : (A → S → S) → List A → S → S
  for_each f [] s = s
  for_each f (a ∷ as') s = for_each f as' (f a s)

  -- `if (!a) throw e;` on an optional value, which is then used
  abbrev pub require : Option A → HttpException → Exec S A
  require none e s = (throw e, s)
  require (some a) e s = (ok a, s)

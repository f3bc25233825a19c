-- ===== src/Webhooks/Events/Known.antt =====
-- What an endpoint can subscribe to (`resolveEvents` of webhooks.service.ts).
use signara.Prelude.{
  ◌≡◌, refl, subst, String, Bool, true, false, not, ◌||◌, Option, some, none, List, [], ◌∷◌, any,
  every, select, to_set, contains, str_eq, arith, Bool-cases, inl, inr,
}
use signara.Exec.{ok}
use signara.Webhooks.Events.{webhook_events, resolve_given, resolve_events}

every-not-any :
    (p : String → Bool) (xs : List String) → any (λ x. not (p x)) xs ≡ false → every p xs ≡ true
every-not-any p [] h = refl
every-not-any p (x ∷ xs) h = let rest = every-not-any p xs in ground (arith, rest)

every-select_of :
    (p q : String → Bool) (xs : List String) → every p xs ≡ true → every p (select q xs) ≡ true
every-select_of p q [] h = refl
every-select_of p q (x ∷ xs) h = ground (arith, every-select_of p q xs)

every-to_set :
    (p : String → Bool) (xs : List String) → every p xs ≡ true → every p (to_set str_eq xs) ≡ true
every-to_set p [] h = refl
every-to_set p (x ∷ xs) h =
    let here : p x ≡ true = ground arith in
    let rest = every-to_set p xs (ground arith) in
    let kept = every-select_of p (λ y. not (str_eq x y)) (to_set str_eq xs) rest in rw (here, kept)

abbrev pub is_known : String → Bool
is_known e = str_eq e "*" || contains str_eq e webhook_events

every-weaken :
    (p : String → Bool) (xs : List String)
    → every p xs ≡ true
    → every (λ x. str_eq x "*" || p x) xs ≡ true
every-weaken p [] h = refl
every-weaken p (x ∷ xs) h =
    let here : p x ≡ true = ground arith in
    let rest = every-weaken p xs (ground arith) in
    elim (Bool-cases (str_eq x "*")) [ inl e ↦ rw (e, rest) | inr e ↦ rw (e, here, rest) ]

-- An accepted subscription names known events only, or everything.
pub resolved_known :
    (events : Option (List String)) (resolved : List String)
    → resolve_events events ≡ ok resolved
    → every is_known resolved ≡ true
unfolding resolve_events resolve_given
resolved_known none resolved h =
    let e : ("*" ∷ []) ≡ resolved = (cc) in subst (λ r. every is_known r ≡ true) e refl
resolved_known (some []) resolved h =
    let e : ("*" ∷ []) ≡ resolved = (cc) in subst (λ r. every is_known r ≡ true) e refl
resolved_known (some (e ∷ es)) resolved h =
    let listed = λ (x : String). contains str_eq x webhook_events in
    elim (Bool-cases (any (λ x. not (listed x)) (e ∷ es))) [
      | inl unknown ↦ absurd (ground arith)
      | inr known ↦
          let same : to_set str_eq (e ∷ es) ≡ resolved = ground arith in
          subst (λ r. every is_known r ≡ true) same
            (every-to_set is_known (e ∷ es)
              (every-weaken listed (e ∷ es) (every-not-any listed (e ∷ es) known)))
    ]

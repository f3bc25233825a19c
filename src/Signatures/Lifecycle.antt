-- ===== src/Signatures/Lifecycle.antt =====
-- The lifecycle of a signing request as a machine on its status alone, and what it takes for a
-- handler of signatures.service.ts to follow it.
pub mod Signing
pub mod Guests
pub mod Senders
pub mod Runs
use signara.Prelude.{
  ℕ, ◌≡◌, refl, sym, ap, ◌∙◌, Bool, true, false, ◌==◌, Option, none, some, List, [], ◌∷◌, ◌++◌,
  find, find-update_where, find-holds, ==_iff, update_where, Bool-cases, Option-cases, inl, inr,
  Memᴰ, arith,
}
use signara.Db.{
  Db, SigningRequest, DocumentStatus, in_progress, completed, cancelled, expired, is_active,
  is_completed, find_request,
}

-- The moves of a request: while it is active it progresses, completes or expires, and unless it is
-- completed its sender can cancel it.
pub data Moves (a : DocumentStatus) : DocumentStatus → Type 0 where
  stays : Moves a a
  progresses : is_active a ≡ true → Moves a in_progress
  completes : is_active a ≡ true → Moves a completed
  expires : is_active a ≡ true → Moves a expired
  cancels : is_completed a ≡ false → Moves a cancelled

-- A row and what a call made of it.
pub record IsMoved (r r' : SigningRequest) : Type 0 where
  pub status : Moves r.status r'.status
  pub organization : r'.organization_id ≡ r.organization_id
  pub document : r'.document_id ≡ r.document_id

abbrev pub find_in : ℕ → List SigningRequest → Option SigningRequest
find_in id rows = find (λ r. r.id == id) rows

-- Every request is still there, moved as the machine allows.
abbrev pub IsLifecycle : List SigningRequest → List SigningRequest → Type 0
IsLifecycle rows rows' =
    (id : ℕ) (r : SigningRequest)
    → find_in id rows ≡ some r
    → (r' : SigningRequest) × (find_in id rows' ≡ some r') × IsMoved r r'

-- The primary key: a row is what its id finds.
abbrev pub IsKeyed : Db → Type 0
IsKeyed db = (r : SigningRequest) → Memᴰ r db.requests → find_request r.id db ≡ some r

pub IsMoved-refl : (r : SigningRequest) → IsMoved r r
IsMoved-refl r = record { status = stays; organization = refl; document = refl }

pub same-IsLifecycle : (rows rows' : List SigningRequest) → rows' ≡ rows → IsLifecycle rows rows'
same-IsLifecycle rows rows' e id r found = (r, ap (find_in id) e ∙ found, IsMoved-refl r)

find-append :
    (id : ℕ) (xs ys : List SigningRequest) {r : SigningRequest}
    → find_in id xs ≡ some r
    → find_in id (xs ++ ys) ≡ some r
find-append id [] ys h = absurd (ground arith)
find-append id (x ∷ xs) ys h = elim (Bool-cases (x.id == id)) [
  | inl hit ↦ rw hit (rw hit at h)
  | inr miss ↦ rw miss (find-append id xs ys (rw miss at h))
]

pub added-IsLifecycle :
    (rows rows' new : List SigningRequest) → rows' ≡ rows ++ new → IsLifecycle rows rows'
added-IsLifecycle rows rows' new e id r found =
    (r, ap (find_in id) e ∙ find-append id rows new found, IsMoved-refl r)

-- A write to the row of one id, if it moves the row that the id finds.
pub update-IsLifecycle :
    (rows rows' : List SigningRequest) (k : ℕ) (f : SigningRequest → SigningRequest)
    → rows' ≡ update_where (λ q. q.id == k) f rows
    → ((q : SigningRequest) → (f q).id ≡ q.id)
    → ((q : SigningRequest) → find_in k rows ≡ some q → IsMoved q (f q))
    → IsLifecycle rows rows'
update-IsLifecycle rows rows' k f e keep moves id r found =
    let step =
      ap (find_in id) e
      ∙ find-update_where (λ q. q.id == id) (λ q. q.id == k) f rows
          (λ q. ap (λ n. n == id) (keep q)) in
    let named = (==_iff r.id id).0 (find-holds (λ (q : SigningRequest). q.id == id) rows found) in
    elim (Bool-cases (r.id == k)) [
      | inl hit ↦
          let same = (==_iff r.id k).0 hit in
          (f r, rw (step, found, hit) refl, moves r (rw (sym same ∙ named) found))
      | inr miss ↦ (r, rw (step, found, miss) refl, IsMoved-refl r)
    ]

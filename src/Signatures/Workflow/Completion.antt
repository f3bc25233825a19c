-- ===== src/Signatures/Workflow/Completion.antt =====
-- When `advanceWorkflow` of signatures.service.ts completes a request.
use signara.Prelude.{
  ℕ, ◌≡◌, refl, sym, ap, ◌∙◌, subst, ◌≢◌, ◌↔◌, Bool, true, false, not, ◌||◌, ◌==◌, ==_iff, Option,
  none, some, List, every, find, update_where, Memᴰ, every-mem, every-of_mem, every-sort_by,
  every-select, every-update_where_back, find-update_where, Bool-cases, inl, inr, arith,
}
use signara.Db.{
  Db, Signer, SigningRequest, SigningMode, sequential, parallel, completed, signed, cc_recipient,
  invited, is_cc, find_request,
}
use signara.Env.{Env}
use signara.Signatures.Trail.Frame.{signers-record_event, requests-record_event}
use signara.Signatures.Workflow.{
  is_done, all_signed, is_next, ordered_signers, complete, invite_next, advance_found,
}

-- Everyone but the carbon copies of a request has signed.
abbrev pub AllSigned : ℕ → Db → Type 0
AllSigned id db =
    (s : Signer) → Memᴰ s db.signers → s.request_id ≡ id → s.role ≢ cc_recipient → s.status ≡ signed

abbrev pub IsCompleted : ℕ → Db → Type 0
IsCompleted id db = (r : SigningRequest) × (find_request id db ≡ some r) × (r.status ≡ completed)

abbrev row_done : ℕ → Signer → Bool
row_done id s = not (s.request_id == id) || is_done s

done_sound :
    (id : ℕ) (s : Signer)
    → row_done id s ≡ true
    → s.request_id ≡ id
    → s.role ≢ cc_recipient
    → s.status ≡ signed
done_sound id s h e n = ground arith

done_complete :
    (id : ℕ) (s : Signer)
    → (s.request_id ≡ id → s.role ≢ cc_recipient → s.status ≡ signed)
    → row_done id s ≡ true
done_complete id s h = elim (Bool-cases (s.request_id == id)) [
  | inr other ↦ rw other
  | inl same ↦ elim (Bool-cases (is_cc s.role)) [
    | inl copy ↦ ground arith
    | inr real ↦ let done = h ((==_iff _ _).0 same) (λ e. cc (real, ap is_cc e)) in ground arith
  ]
]

AllSigned-of_every : (id : ℕ) (db : Db) → every (row_done id) db.signers ≡ true → AllSigned id db
AllSigned-of_every id db h s m = done_sound id s (every-mem (row_done id) db.signers h m)

every_of_AllSigned : (id : ℕ) (db : Db) → AllSigned id db → every (row_done id) db.signers ≡ true
every_of_AllSigned id db h =
    every-of_mem (row_done id) db.signers (λ s m. done_complete id s (h s m))

all_signed-eq : (id : ℕ) (db : Db) → all_signed id db ≡ every (row_done id) db.signers
all_signed-eq id db =
    every-sort_by (λ s. s.order_index) is_done _ ∙ every-select is_done (λ s. s.request_id == id) _

-- The test of `advanceWorkflow` holds exactly if every signer of the request, carbon copies aside,
-- has signed.
pub all_signed_iff : (id : ℕ) (db : Db) → (all_signed id db ≡ true) ↔ AllSigned id db
all_signed_iff id db = (
  λ h. AllSigned-of_every id db (rw all_signed-eq at h),
  λ h. rw all_signed-eq (every_of_AllSigned id db h),
)

module _ (env : Env) where
  -- Completing leaves the signers alone, and sets the status of the request's row.
  signers-complete : (r : SigningRequest) (db : Db) → (complete env r db).signers ≡ db.signers
  unfolding complete
  signers-complete r db = signers-record_event env r.id _ none _ _

  pub requests-complete :
      (r : SigningRequest) (db : Db)
      → (complete env r db).requests
        ≡ update_where
            (λ q. q.id == r.id)
            (λ q. record q { status = completed; completed_at = some env.now })
            db.requests
  unfolding complete
  requests-complete r db = requests-record_event env r.id _ none _ _

  complete-IsCompleted :
      (r : SigningRequest) (db : Db)
      → find_request r.id db ≡ some r
      → IsCompleted r.id (complete env r db)
  complete-IsCompleted r db found = (
    record r { status = completed; completed_at = some env.now },
    rw (requests-complete r db, find-update_where, found) (ground arith),
    refl,
  )

  -- Inviting the next signer neither signs anyone nor touches a request.
  invite_next-AllSigned :
      (id : ℕ) (o : Option Signer) (db : Db)
      → AllSigned id (invite_next env id o db)
      → AllSigned id db
  unfolding invite_next
  invite_next-AllSigned id none db h = h
  invite_next-AllSigned id (some n) db h = AllSigned-of_every id db (
      every-update_where_back (row_done id) (λ s. s.id == n.id) (λ s. record s { status = invited })
        db.signers (λ s e. ground arith) (every_of_AllSigned id (invite_next env id (some n) db) h))

  requests-invite_next :
      (id : ℕ) (o : Option Signer) (db : Db) → (invite_next env id o db).requests ≡ db.requests
  unfolding invite_next
  requests-invite_next id none db = refl
  requests-invite_next id (some n) db = refl

  advanced-IsCompleted :
      (r : SigningRequest) (mode : SigningMode) (db : Db)
      → all_signed r.id db ≡ true
      → find_request r.id db ≡ some r
      → IsCompleted r.id (advance_found env (some r) mode db)
        × AllSigned r.id (advance_found env (some r) mode db)
  unfolding advance_found
  advanced-IsCompleted r mode db all found = rw all (
    complete-IsCompleted r db found,
    subst
        (λ (l : List Signer).
          (s : Signer) → Memᴰ s l → s.request_id ≡ r.id → s.role ≢ cc_recipient → s.status ≡ signed)
        (sym (signers-complete r db)) ((all_signed_iff r.id db).0 all),
  )

  -- The state of a request that somebody has still to sign.
  waiting-AllSigned :
      (r : SigningRequest) (mode : SigningMode) (db : Db)
      → all_signed r.id db ≡ false
      → AllSigned r.id (advance_found env (some r) mode db)
      → AllSigned r.id db
  unfolding advance_found
  waiting-AllSigned r sequential db some_left h =
      invite_next-AllSigned r.id (find is_next (ordered_signers r.id db)) db (rw some_left at h)
  waiting-AllSigned r parallel db some_left h = rw some_left at h

  pub requests_waiting :
      (r : SigningRequest) (mode : SigningMode) (db : Db)
      → all_signed r.id db ≡ false
      → (advance_found env (some r) mode db).requests ≡ db.requests
  unfolding advance_found
  requests_waiting r sequential db some_left = rw some_left (requests-invite_next r.id _ db)
  requests_waiting r parallel db some_left = rw some_left

  -- After advancing, the request is completed exactly if everyone has signed.
  pub advance_found-completes :
      (r : SigningRequest) (mode : SigningMode) (db : Db)
      → find_request r.id db ≡ some r
      → r.status ≢ completed
      → IsCompleted r.id (advance_found env (some r) mode db)
        ↔ AllSigned r.id (advance_found env (some r) mode db)
  advance_found-completes r mode db found live = elim (Bool-cases (all_signed r.id db)) [
    | inl all ↦
        let (done, signed_all) = advanced-IsCompleted r mode db all found in
        (λ _. signed_all, λ _. done)
    | inr left ↦ (
      λ c.
          let found' : find_request r.id db ≡ some c.0 =
            (rw (requests_waiting r mode db left) at (c.1)) in
          absurd (live (ground arith)),
      λ h.
          let e = (all_signed_iff r.id db).1 (waiting-AllSigned r mode db left h) in
          absurd (ground arith),
    )
  ]

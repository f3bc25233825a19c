-- ===== src/Signatures/Create/Accepted.antt =====
-- What an accepted input of `createRequest` of signatures.service.ts is like, and whom it invites.
use signara.Prelude.{
  ℕ, suc, ◌+◌, ◌≤◌, ◌≡◌, refl, ap, false, length, arith, List, [], ◌∷◌, map, ◌==◌, is_some, select,
  any, str_eq,
}
use signara.Exec.{ok}
use signara.Db.{Db, Signer, sequential, parallel, is_invited}
use signara.Env.{Env}
use signara.Signatures.Create.{
  CreateRequestInput, OrderedSigner, has_duplicates, ordered_inputs, check_input, signer_rows,
}

module _ (env : Env) where
  pub record IsAcceptable (input : CreateRequestInput) : Type 0 where
    pub some_signer : 1 ≤ length input.signers
    pub few_signers : length input.signers ≤ 50
    pub distinct_emails :
        has_duplicates str_eq (map (λ s. env.normalize s.email) (ordered_inputs input.signers))
        ≡ false
    pub distinct_orders :
        has_duplicates ◌==◌ (map (λ s. s.order_index) (ordered_inputs input.signers)) ≡ false
    pub no_targets : any (λ r. is_some r.target_signer_id) input.workflow_rules ≡ false

  -- An accepted input has 1 to 50 signers, no two with the same normalized email or the same place in
  -- the order, and no rule with a target.
  pub check_input-ok :
      (input : CreateRequestInput) (db db' : Db) {u : Unit {0}}
      → check_input env input db ≡ (ok u, db')
      → IsAcceptable input
  unfolding check_input
  check_input-ok input db db' h = record {
    some_signer = ground arith;
    few_signers = ground arith;
    distinct_emails = ground arith;
    distinct_orders = ground arith;
    no_targets = ground arith;
  }

  later_pending :
      (request_id ids tokens index : ℕ) (ss : List OrderedSigner)
      → 1 ≤ index
      → select
          (λ s. is_invited s.status)
          (signer_rows env sequential request_id ids tokens index ss)
        ≡ []
  unfolding signer_rows
  later_pending request_id ids tokens index [] h = refl
  later_pending request_id ids tokens index (s ∷ ss) h =
      ground (arith, later_pending request_id (ids + 1) (tokens + 1) (suc index) ss (omega arith))

  -- In sequential mode exactly one signer is invited from the start: the first in the order.
  pub sequential_invites :
      (request_id ids tokens : ℕ) (s : OrderedSigner) (ss : List OrderedSigner)
      → map
          (λ (t : Signer). t.order_index)
          (select
            (λ t. is_invited t.status)
            (signer_rows env sequential request_id ids tokens 0 (s ∷ ss)))
        ≡ s.order_index ∷ []
  unfolding signer_rows
  sequential_invites request_id ids tokens s ss =
      ap (λ l. s.order_index ∷ map (λ (t : Signer). t.order_index) l)
        (later_pending request_id (ids + 1) (tokens + 1) 1 ss (omega arith))

  -- In parallel mode every signer is invited from the start.
  pub parallel_invites :
      (request_id ids tokens index : ℕ) (ss : List OrderedSigner)
      → select (λ t. is_invited t.status) (signer_rows env parallel request_id ids tokens index ss)
        ≡ signer_rows env parallel request_id ids tokens index ss
  unfolding signer_rows
  parallel_invites request_id ids tokens index [] = refl
  parallel_invites request_id ids tokens index (s ∷ ss) =
      rw (parallel_invites request_id (ids + 1) (tokens + 1) (suc index) ss)

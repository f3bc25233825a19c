-- ===== src/Signatures/Workflow/Frame.antt =====
-- What advancing a request (`advanceWorkflow` of signatures.service.ts) leaves alone.
use signara.Prelude.{ℕ, ◌≡◌, refl, Option, none, some, Bool-cases, inl, inr, find, if◌then◌else◌}
use signara.Db.{
  Db, Signer, SigningRequest, SigningMode, sequential, parallel, is_sequential, ev_signed,
}
use signara.Env.{Env}
use signara.Signatures.Trail.Frame.{signatures-record_event, fields-record_event}
use signara.Signatures.Workflow.{
  all_signed, is_next, ordered_signers, complete, invite_next, advance_found,
}

-- The tables that only a signature itself writes.
pub record SameRecords (before after : Db) : Type 0 where
  pub signatures : after.signatures ≡ before.signatures
  pub fields : after.fields ≡ before.fields

module _ (env : Env) where
  complete-Same : (r : SigningRequest) (db : Db) → SameRecords db (complete env r db)
  unfolding complete
  complete-Same r db = record {
    signatures = signatures-record_event env r.id ev_signed none _ _;
    fields = fields-record_event env r.id ev_signed none _ _;
  }

  invite_next-Same :
      (id : ℕ) (o : Option Signer) (db : Db) → SameRecords db (invite_next env id o db)
  unfolding invite_next
  invite_next-Same id none db = record { signatures = refl; fields = refl }
  invite_next-Same id (some n) db = record { signatures = refl; fields = refl }

  pub advance_found-Same :
      (o : Option SigningRequest) (mode : SigningMode) (db : Db)
      → SameRecords db (advance_found env o mode db)
  unfolding advance_found
  advance_found-Same none mode db = record { signatures = refl; fields = refl }
  advance_found-Same (some r) mode db = elim (Bool-cases (all_signed r.id db)) [
    | inl all ↦ rw all (complete-Same r db)
    | inr left ↦ rw left (waiting mode)
  ]
    where
      waiting :
          (mode' : SigningMode)
          → SameRecords db (
              if is_sequential mode'
              then invite_next env r.id (find is_next (ordered_signers r.id db)) db
              else db)
      waiting sequential = invite_next-Same r.id (find is_next (ordered_signers r.id db)) db
      waiting parallel = record { signatures = refl; fields = refl }

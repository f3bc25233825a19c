-- ===== src/Signatures/Turn.antt =====
-- Whose turn it is (`canSignNow` and `canSignerAct` of signatures.service.ts).
use signara.Prelude.{
  ℕ, Bool, true, false, not, ◌&&◌, ◌==◌, ltb, if◌then◌else◌, List, every, select, Option, none,
  some,
}
use signara.Db.{Db, Signer, SigningMode, is_cc, is_parallel, is_approver, is_signed, is_waiting}

-- `deadline && deadline < new Date()`
abbrev pub is_past : ℕ → Option ℕ → Bool
is_past now none = false
is_past now (some deadline) = ltb deadline now

unfoldable pub can_sign_now : SigningMode → Signer → Bool
can_sign_now mode s =
    if is_approver s.role then true else if is_parallel mode then true else is_waiting s.status

-- The rows that `canSignerAct` reads: the signers before this one, carbon copies left out.
abbrev pub is_earlier : Signer → Signer → Bool
is_earlier s c =
    c.request_id == s.request_id && ltb c.order_index s.order_index && not (is_cc c.role)

abbrev pub earlier : Signer → Db → List Signer
earlier s db = select (is_earlier s) db.signers

abbrev pub earlier_signed : Signer → Db → Bool
earlier_signed s db = every (λ c. is_signed c.status) (earlier s db)

unfoldable pub can_signer_act : SigningMode → Signer → Db → Bool
can_signer_act mode s db =
    if is_cc s.role then false else if is_parallel mode then true else earlier_signed s db

-- ===== src/Bank/Lifecycle.antt =====
-- The life of a transfer under its commands (aggregates/transfer.ts).
use instructed.Prelude.{◌≡◌, refl, ◌⊎◌, inl, inr, Option, some, List, [], ◌∷◌, String, subst, sym}
use instructed.Prelude.Int.{ℤ}
use instructed.Result.{Result, ok}
use instructed.Bank.{
  BankEvent, TransferStage, unrequested, requested, completed, failed, TransferState,
  TransferCommand, request_transfer, mark_transfer_completed, mark_transfer_failed, transfer_apply,
  transfer_decide, request_in, complete_in, fail_in, transfer_requested, transfer_completed,
  transfer_failed,
}

-- The steps that a transfer may take.
pub data Step : TransferStage → TransferStage → Type 0 where
  request : Step unrequested requested
  complete : Step requested completed
  fail : Step requested failed

-- The state after a command: with the event that it leads to, or as it was.
abbrev pub after_command : TransferState → Result (Option BankEvent) → TransferState
after_command state (ok (some e)) = transfer_apply state e
after_command state _ = state

abbrev pub after_commands : TransferState → List TransferCommand → TransferState
after_commands state [] = state
after_commands state (c ∷ cs) = after_commands (after_command state (transfer_decide state c)) cs

request_in-Step :
    (state : TransferState) (s : TransferStage) (from to : String) (amount : ℤ) (id : String)
    → let after = after_command state (request_in s (transfer_requested from to amount id)) in
      (after ≡ state) ⊎ Step s after.stage
request_in-Step state unrequested from to amount id = inr request
request_in-Step state requested from to amount id = inl refl
request_in-Step state completed from to amount id = inl refl
request_in-Step state failed from to amount id = inl refl

complete_in-Step :
    (state : TransferState) (s : TransferStage) (id : String)
    → let after = after_command state (complete_in s (transfer_completed id)) in
      (after ≡ state) ⊎ Step s after.stage
complete_in-Step state unrequested id = inl refl
complete_in-Step state requested id = inr complete
complete_in-Step state completed id = inl refl
complete_in-Step state failed id = inl refl

fail_in-Step :
    (state : TransferState) (s : TransferStage) (id reason : String)
    → let after = after_command state (fail_in s (transfer_failed id reason)) in
      (after ≡ state) ⊎ Step s after.stage
fail_in-Step state unrequested id reason = inl refl
fail_in-Step state requested id reason = inr fail
fail_in-Step state completed id reason = inl refl
fail_in-Step state failed id reason = inl refl

-- Every command takes one legal step of the lifecycle, or it leaves the state of the transfer as it was,
-- its amount, parties and reason included.
pub transfer_decide-Step :
    (state : TransferState) (c : TransferCommand)
    → (after_command state (transfer_decide state c) ≡ state)
      ⊎ Step state.stage (after_command state (transfer_decide state c)).stage
transfer_decide-Step state (request_transfer id from to amount) =
    request_in-Step state state.stage from to amount id
transfer_decide-Step state (mark_transfer_completed id) = complete_in-Step state state.stage id
transfer_decide-Step state (mark_transfer_failed id reason) =
    fail_in-Step state state.stage id reason

abbrev pub IsTerminal : TransferStage → Type 0
IsTerminal completed = Unit
IsTerminal failed = Unit
IsTerminal _ = ⊥

no-Step : {s s' : TransferStage} → IsTerminal s → Step s s' → ⊥
no-Step t request = t
no-Step t complete = t
no-Step t fail = t

-- A transfer that is completed or failed stays exactly as it is, whatever commands come, in whatever
-- number and order: its outcome is final, and redelivered commands do nothing.
pub after_commands-terminal :
    (state : TransferState) (cs : List TransferCommand)
    → IsTerminal state.stage
    → after_commands state cs ≡ state
after_commands-terminal state [] t = refl
after_commands-terminal state (c ∷ cs) t = elim (transfer_decide-Step state c) [
  | inl same ↦
      subst (λ s. after_commands s cs ≡ state) (sym same) (after_commands-terminal state cs t)
  | inr step ↦ elim (no-Step t step) [ ]
]

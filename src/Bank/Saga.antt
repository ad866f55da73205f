-- ===== src/Bank/Saga.antt =====
-- The money-transfer process manager (process-managers/transfer-pm.ts): `routeFn`, `apply`, `handle`.
use instructed.Prelude.{
  String, ◌==◌, Bool, true, false, Option, none, some, List, [], ◌∷◌, if◌then◌else◌,
}
use instructed.Prelude.Int.{ℤ}
use instructed.Result.{ok}
use instructed.Workers.Routing.{RoutingDecision, RoutingFn, ignore, partition}
use instructed.Facade.{only_types}
use instructed.Bank.{
  BankEvent, account_deposited_to, account_withdrawn_from, account_withdrawal_refused,
  transfer_requested, AccountCommand, deposit_to_account, withdraw_from_account, TransferCommand,
  mark_transfer_completed, mark_transfer_failed,
}

pub data TransferPmStage : Type 0 where
  starting : TransferPmStage
  debited : (transfer_id : String) → TransferPmStage
  completed : TransferPmStage
  failed : (reason : String) → TransferPmStage

-- A text that is present and not empty, as a condition reads it.
abbrev pub truthy : Option String → Option String
truthy none = none
truthy (some x) = if x == "" then none else some x

abbrev pub partition_of : Option String → RoutingDecision
partition_of none = ignore
partition_of (some id) = partition id

abbrev pub transfer_partition : BankEvent → RoutingDecision
transfer_partition (transfer_requested _ _ _ transfer_id) = partition transfer_id
transfer_partition (account_withdrawn_from _ transfer_id _) = partition_of (truthy transfer_id)
transfer_partition (account_deposited_to _ transfer_id) = partition_of (truthy transfer_id)
transfer_partition (account_withdrawal_refused _ _ transfer_id) = partition_of (truthy transfer_id)
transfer_partition _ = ignore

abbrev pub transfer_route_fn : RoutingFn BankEvent
transfer_route_fn =
    only_types
      ("TransferRequested" ∷ "AccountWithdrawnFrom" ∷ "AccountDepositedTo"
        ∷ "AccountWithdrawalRefused" ∷ [])
      (λ event. ok (transfer_partition event.payload))

abbrev debited_for : TransferPmStage → Option String → TransferPmStage
debited_for state none = state
debited_for state (some id) = debited id

abbrev pub transfer_pm_apply : TransferPmStage → BankEvent → TransferPmStage
transfer_pm_apply state (account_withdrawn_from _ transfer_id _) =
    debited_for state (truthy transfer_id)
transfer_pm_apply state (account_deposited_to _ _) = completed
transfer_pm_apply state (account_withdrawal_refused reason _ _) = failed reason
transfer_pm_apply state _ = state

pub data DispatchedCommand : Type 0 where
  to_account : AccountCommand → DispatchedCommand
  to_transfer : TransferCommand → DispatchedCommand

pub record Handled : Type 0 where
  pub commands : List DispatchedCommand
  pub complete : Bool

abbrev only_complete : Handled
only_complete = record { commands = []; complete = true }

abbrev do_nothing : Handled
do_nothing = record { commands = []; complete = false }

abbrev deposit_for : ℤ → Option String → Option String → Handled
deposit_for amount none _ = do_nothing
deposit_for amount (some to) none = do_nothing
deposit_for amount (some to) (some id) = record {
  commands = to_account (deposit_to_account to amount (some id)) ∷ [];
  complete = false;
}

abbrev mark_completed : Option String → Handled
mark_completed none = only_complete
mark_completed (some id) = record {
  commands = to_transfer (mark_transfer_completed id) ∷ [];
  complete = true;
}

abbrev mark_failed : String → Option String → Handled
mark_failed reason none = only_complete
mark_failed reason (some id) = record {
  commands = to_transfer (mark_transfer_failed id reason) ∷ [];
  complete = true;
}

-- The state is not read.
abbrev pub transfer_handle : BankEvent → Handled
transfer_handle (transfer_requested from to amount transfer_id) = record {
  commands = to_account (withdraw_from_account from amount (some transfer_id) (some to)) ∷ [];
  complete = false;
}
transfer_handle (account_withdrawn_from amount transfer_id to) =
    deposit_for amount (truthy to) (truthy transfer_id)
transfer_handle (account_deposited_to _ transfer_id) = mark_completed (truthy transfer_id)
transfer_handle (account_withdrawal_refused reason _ transfer_id) =
    mark_failed reason (truthy transfer_id)
transfer_handle _ = do_nothing

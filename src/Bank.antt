-- ===== src/Bank.antt =====
-- The bank-account example (examples/typescript/bank-account/src/): its events and commands, and the
-- aggregates `Account` and `Transfer`. An event's type and data are one constructor, as the
-- discriminated unions of the source have it; `event_name` gives the type back. Amounts are integers.
pub mod Saga
pub mod Money
pub mod Lifecycle
pub mod Balances
pub mod Transfers
pub mod Router
use instructed.Prelude.{
  String, ◌<>◌, Bool, true, false, Option, none, some, List, [], if◌then◌else◌,
}
use instructed.Prelude.Int.{ℤ, pos, ◌+ℤ◌, ◌-ℤ◌, ltb_ℤ}
use instructed.Errors.{Thrown}
use instructed.Result.{Result, ok, throw, stuck}
use instructed.Types.{NewEvent}
use instructed.Aggregate.{AggregateDefinition, DomainEvent, Produced, one, many}

pub data BankEvent : Type 0 where
  account_opened : (owner : String) → BankEvent
  account_deposited_to : (amount : ℤ) (transfer_id : Option String) → BankEvent
  account_withdrawn_from : (amount : ℤ) (transfer_id to : Option String) → BankEvent
  account_withdrawal_refused :
      (reason : String) (amount : ℤ) (transfer_id : Option String) → BankEvent
  transfer_requested : (from to : String) (amount : ℤ) (transfer_id : String) → BankEvent
  transfer_completed : (transfer_id : String) → BankEvent
  transfer_failed : (transfer_id reason : String) → BankEvent

abbrev pub event_name : BankEvent → String
event_name (account_opened _) = "AccountOpened"
event_name (account_deposited_to _ _) = "AccountDepositedTo"
event_name (account_withdrawn_from _ _ _) = "AccountWithdrawnFrom"
event_name (account_withdrawal_refused _ _ _) = "AccountWithdrawalRefused"
event_name (transfer_requested _ _ _ _) = "TransferRequested"
event_name (transfer_completed _) = "TransferCompleted"
event_name (transfer_failed _ _) = "TransferFailed"

pub data AccountCommand : Type 0 where
  open_account : (account_id owner : String) → AccountCommand
  deposit_to_account :
      (account_id : String) (amount : ℤ) (transfer_id : Option String) → AccountCommand
  withdraw_from_account :
      (account_id : String) (amount : ℤ) (transfer_id to : Option String) → AccountCommand

pub data TransferCommand : Type 0 where
  request_transfer : (transfer_id from to : String) (amount : ℤ) → TransferCommand
  mark_transfer_completed : (transfer_id : String) → TransferCommand
  mark_transfer_failed : (transfer_id reason : String) → TransferCommand

-- An event as `execute` returns it: the type and the data alone.
abbrev pub emitted : BankEvent → NewEvent BankEvent
emitted e = record {
  event_id = none;
  type = event_name e;
  payload = e;
  metadata = none;
  causation_id = none;
  correlation_id = none;
}

pub record AccountState : Type 0 where
  pub opened : Bool
  pub owner : Option String
  pub balance : ℤ

abbrev pub account_initial : AccountState
account_initial = record { opened = false; owner = none; balance = pos 0 }

-- The events of other aggregates fall through the `switch`; they are not on an account's stream.
abbrev pub account_apply : AccountState → BankEvent → AccountState
account_apply state (account_opened owner) = record state { opened = true; owner = some owner }
account_apply state (account_deposited_to amount _) = record state {
  balance = state.balance +ℤ amount;
}
account_apply state (account_withdrawn_from amount _ _) = record state {
  balance = state.balance -ℤ amount;
}
account_apply state _ = state

abbrev pub withdrawn_or_refused : AccountState → ℤ → Option String → Option String → BankEvent
withdrawn_or_refused state amount transfer_id to =
    if ltb_ℤ state.balance amount
    then account_withdrawal_refused "insufficient funds" amount transfer_id
    else account_withdrawn_from amount transfer_id to

abbrev pub unless_open : Bool → BankEvent → Result BankEvent
unless_open true e = throw (Thrown.error "account already open")
unless_open false e = ok e

abbrev pub when_open : Bool → BankEvent → Result BankEvent
when_open true e = ok e
when_open false e = throw (Thrown.error "account not open")

-- One event, or the error thrown.
abbrev pub account_decide : AccountState → AccountCommand → Result BankEvent
account_decide state (open_account _ owner) = unless_open state.opened (account_opened owner)
account_decide state (deposit_to_account _ amount transfer_id) =
    when_open state.opened (account_deposited_to amount transfer_id)
account_decide state (withdraw_from_account _ amount transfer_id to) =
    when_open state.opened (withdrawn_or_refused state amount transfer_id to)

pub data TransferStage : Type 0 where
  unrequested requested completed failed : TransferStage

abbrev pub stage_name : TransferStage → String
stage_name unrequested = "none"
stage_name requested = "requested"
stage_name completed = "completed"
stage_name failed = "failed"

pub record TransferState : Type 0 where
  pub stage : TransferStage
  pub from : Option String
  pub to : Option String
  pub amount : Option ℤ
  pub transfer_id : Option String
  pub reason : Option String

abbrev pub transfer_initial : TransferState
transfer_initial = record {
  stage = unrequested;
  from = none;
  to = none;
  amount = none;
  transfer_id = none;
  reason = none;
}

abbrev pub transfer_apply : TransferState → BankEvent → TransferState
transfer_apply state (transfer_requested from to amount transfer_id) = record {
  stage = requested;
  from = some from;
  to = some to;
  amount = some amount;
  transfer_id = some transfer_id;
  reason = none;
}
transfer_apply state (transfer_completed _) = record state { stage = completed }
transfer_apply state (transfer_failed _ reason) = record state {
  stage = failed;
  reason = some reason;
}
transfer_apply state _ = state

abbrev pub request_in : TransferStage → BankEvent → Result (Option BankEvent)
request_in unrequested e = ok (some e)
request_in stage e = throw (Thrown.error ("transfer already " <> stage_name stage))

abbrev pub complete_in : TransferStage → BankEvent → Result (Option BankEvent)
complete_in completed e = ok none
complete_in requested e = ok (some e)
complete_in stage e =
    throw (Thrown.error ("cannot complete transfer in stage '" <> stage_name stage <> "'"))

abbrev pub fail_in : TransferStage → BankEvent → Result (Option BankEvent)
fail_in failed e = ok none
fail_in requested e = ok (some e)
fail_in stage e =
    throw (Thrown.error ("cannot fail transfer in stage '" <> stage_name stage <> "'"))

-- One event, `[]`, or the error thrown.
abbrev pub transfer_decide : TransferState → TransferCommand → Result (Option BankEvent)
transfer_decide state (request_transfer transfer_id from to amount) =
    request_in state.stage (transfer_requested from to amount transfer_id)
transfer_decide state (mark_transfer_completed transfer_id) =
    complete_in state.stage (transfer_completed transfer_id)
transfer_decide state (mark_transfer_failed transfer_id reason) =
    fail_in state.stage (transfer_failed transfer_id reason)

abbrev pub returned : Result BankEvent → Result (Produced BankEvent)
returned (ok e) = ok (one (emitted e))
returned (throw e) = throw e
returned stuck = stuck

abbrev pub returned_any : Result (Option BankEvent) → Result (Produced BankEvent)
returned_any (ok (some e)) = ok (one (emitted e))
returned_any (ok none) = ok (many [])
returned_any (throw e) = throw e
returned_any stuck = stuck

abbrev pub account : AggregateDefinition AccountState AccountCommand BankEvent
account = record {
  type = "Account";
  stream_name = none;
  initial_state = account_initial;
  execute = λ state command. returned (account_decide state command);
  apply = λ state event. ok (account_apply state event.payload);
  snapshot_policy = none;
  snapshot_module_version = none;
}

abbrev pub transfer : AggregateDefinition TransferState TransferCommand BankEvent
transfer = record {
  type = "Transfer";
  stream_name = none;
  initial_state = transfer_initial;
  execute = λ state command. returned_any (transfer_decide state command);
  apply = λ state event. ok (transfer_apply state event.payload);
  snapshot_policy = none;
  snapshot_module_version = none;
}

-- ===== src/Bank/Money.antt =====
-- The balances of accounts under commands and transfers (aggregates/account.ts,
-- process-managers/transfer-pm.ts).
use instructed.Prelude.{
  String, ◌==◌, inl, inr, Bool, true, false, Option, some, List, [], ◌∷◌, Bool-cases, if◌then◌else◌,
}
use instructed.Prelude.Int.{ℤ, pos, ◌+ℤ◌, ◌-ℤ◌, ◌≤ℤ◌, ltb_ℤ, -ℤ-covered, +ℤ-covered}
use instructed.Result.{Result, ok}
use instructed.Facade.{CommandTarget}
use instructed.Bank.Router.{app_command_router}
use instructed.Bank.{
  BankEvent, AccountCommand, AccountState, open_account, deposit_to_account, withdraw_from_account,
  account_apply, account_decide, account_deposited_to, withdrawn_or_refused, when_open, unless_open,
  account_opened,
}
use instructed.Bank.Saga.{transfer_handle, DispatchedCommand, to_account, to_transfer}

-- A command that asks for a deposit of less than nothing is the exception.
abbrev pub IsFair : AccountCommand → Type 0
IsFair (deposit_to_account _ amount _) = pos 0 ≤ℤ amount
IsFair _ = Unit

abbrev pub after_command : AccountState → Result BankEvent → AccountState
after_command state (ok e) = account_apply state e
after_command state _ = state

abbrev pub after_commands : AccountState → List AccountCommand → AccountState
after_commands state [] = state
after_commands state (c ∷ cs) = after_commands (after_command state (account_decide state c)) cs

abbrev pub AllFair : List AccountCommand → Type 0
AllFair [] = Unit
AllFair (c ∷ cs) = IsFair c × AllFair cs

withdraw_keeps :
    (state : AccountState) (amount : ℤ) (id to : Option String)
    → pos 0 ≤ℤ state.balance
    → pos 0 ≤ℤ (account_apply state (withdrawn_or_refused state amount id to)).balance
withdraw_keeps state amount id to h = elim (Bool-cases (ltb_ℤ state.balance amount)) [
  | inl short ↦ rw short h
  | inr enough ↦ rw enough (-ℤ-covered state.balance amount h enough)
]

when_open-keeps :
    (state : AccountState) (is_open : Bool) (e : BankEvent)
    → pos 0 ≤ℤ state.balance
    → pos 0 ≤ℤ (account_apply state e).balance
    → pos 0 ≤ℤ (after_command state (when_open is_open e)).balance
when_open-keeps state true e h h' = h'
when_open-keeps state false e h h' = h

unless_open-keeps :
    (state : AccountState) (is_open : Bool) (owner : String)
    → pos 0 ≤ℤ state.balance
    → pos 0 ≤ℤ (after_command state (unless_open is_open (account_opened owner))).balance
unless_open-keeps state true owner h = h
unless_open-keeps state false owner h = h

decide_keeps :
    (state : AccountState) (c : AccountCommand)
    → IsFair c
    → pos 0 ≤ℤ state.balance
    → pos 0 ≤ℤ (after_command state (account_decide state c)).balance
decide_keeps state (open_account id owner) fair h = unless_open-keeps state state.opened owner h
decide_keeps state (deposit_to_account id amount transfer_id) fair h =
    when_open-keeps state state.opened (account_deposited_to amount transfer_id) h
      (+ℤ-covered state.balance amount h fair)
decide_keeps state (withdraw_from_account id amount transfer_id to) fair h =
    when_open-keeps state state.opened (withdrawn_or_refused state amount transfer_id to) h
      (withdraw_keeps state amount transfer_id to h)

-- Whatever commands come, withdrawals of any amount and refused ones included, the balance of an
-- account never goes below zero, as long as it is not below zero at first and no
-- deposit is of a negative amount.
pub after_commands-balance :
    (state : AccountState) (cs : List AccountCommand)
    → AllFair cs
    → pos 0 ≤ℤ state.balance
    → pos 0 ≤ℤ (after_commands state cs).balance
after_commands-balance state [] fair h = h
after_commands-balance state (c ∷ cs) fair h =
    after_commands-balance (after_command state (account_decide state c)) cs fair.1
      (decide_keeps state c fair.0 h)

-- The accounts of the application, each under its id.
abbrev pub Accounts : Type 0
Accounts = String → AccountState

abbrev pub put : String → AccountState → Accounts → Accounts
put id state accounts other = if other == id then state else accounts other

-- A command to an account, run on the account that the router names.
abbrev pub deliver : AccountCommand → Result CommandTarget → Accounts → Accounts
deliver c (ok target) accounts =
    put target.aggregate_id
      (after_command (accounts target.aggregate_id)
        (account_decide (accounts target.aggregate_id) c))
      accounts
deliver c _ accounts = accounts

abbrev pub run_dispatched : List DispatchedCommand → Accounts → Accounts
run_dispatched [] accounts = accounts
run_dispatched (to_account c ∷ cs) accounts =
    run_dispatched cs (deliver c (app_command_router (to_account c)) accounts)
run_dispatched (to_transfer c ∷ cs) accounts = run_dispatched cs accounts

-- The accounts after a command to one of them, and after what the process manager dispatches on its event.
abbrev pub and_handled : String → Result BankEvent → Accounts → Accounts
and_handled id (ok e) accounts =
    run_dispatched (transfer_handle e).commands (put id (account_apply (accounts id) e) accounts)
and_handled id _ accounts = accounts

abbrev pub withdrawn : String → String → String → ℤ → Accounts → Accounts
withdrawn from to transfer_id amount accounts =
    and_handled from
      (account_decide (accounts from)
        (withdraw_from_account from amount (some transfer_id) (some to)))
      accounts

module _ (accounts : Accounts) (from to transfer_id : String) (amount : ℤ) where
  -- The accounts with the whole amount moved, and nothing else changed.
  abbrev pub transferred : Accounts
  transferred id =
      if id == to
      then record (accounts to) { balance = (accounts to).balance +ℤ amount }
      else if id == from
      then record (accounts from) { balance = (accounts from).balance -ℤ amount }
      else accounts id

  abbrev pub goes_through : Bool → Bool → Accounts
  goes_through true false = transferred
  goes_through _ _ = accounts

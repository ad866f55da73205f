-- ===== src/Tests/Bank.antt =====
-- The theorems on the bank-account example.
use instructed.Prelude.{
  ◌==◌, if◌then◌else◌, ◌≡◌, ◌⊎◌, refl, true, none, some, Option, List, [], ◌∷◌, arith,
}
use instructed.Prelude.Int.{pos, ◌≤ℤ◌}
use instructed.Bank.{
  transfer_requested, AccountState, AccountCommand, TransferState, TransferCommand, account_opened,
  account_deposited_to, account_initial, account_apply, open_account, deposit_to_account,
  withdraw_from_account, transfer_initial, transfer_apply, transfer_decide, transfer_completed,
  request_transfer, mark_transfer_completed, mark_transfer_failed,
}
use instructed.Bank.Lifecycle as Life
use instructed.Bank.Lifecycle.{Step, transfer_decide-Step, after_commands-terminal}
use instructed.Bank.Money as Cash
use instructed.Bank.Money.{after_commands-balance, Accounts}
use instructed.Bank.Transfers as Moves
use instructed.Bank.Transfers.{TransferRow, transfers_handler, row-Shows}
use instructed.Bank.Balances.{BalanceRow, balances_handler, Shows, Delivered, Delivered-Shows}

transfer_decide-Step_example :
    (Life.after_command transfer_initial
        (transfer_decide transfer_initial (request_transfer "t1" "Ann" "Bob" (pos 5)))
      ≡ transfer_initial)
    ⊎ Step transfer_initial.stage
        (Life.after_command transfer_initial
          (transfer_decide transfer_initial (request_transfer "t1" "Ann" "Bob" (pos 5)))).stage
transfer_decide-Step_example =
    transfer_decide-Step transfer_initial (request_transfer "t1" "Ann" "Bob" (pos 5))

abbrev done : TransferState
done = transfer_apply transfer_initial (transfer_completed "t1")

abbrev late : List TransferCommand
late = mark_transfer_failed "t1" "late" ∷ mark_transfer_completed "t1" ∷ []

after_commands-terminal_example : Life.after_commands done late ≡ done
after_commands-terminal_example = after_commands-terminal done late tt

abbrev day : List AccountCommand
day =
    open_account "1" "Ann"
    ∷ deposit_to_account "1" (pos 10) none
    ∷ withdraw_from_account "1" (pos 30) none none
    ∷ withdraw_from_account "1" (pos 4) none none
    ∷ []

after_commands-balance_example : pos 0 ≤ℤ (Cash.after_commands account_initial day).balance
after_commands-balance_example =
    after_commands-balance account_initial day (tt, (omega arith, (tt, (tt, tt)))) (omega arith)

abbrev ann : AccountState
ann = record { opened = true; owner = some "Ann"; balance = pos 10 }

abbrev bob : AccountState
bob = record { opened = true; owner = some "Bob"; balance = pos 2 }

abbrev accounts : Accounts
accounts id = if id == "a" then ann else bob

abbrev row : Option BalanceRow
row = balances_handler 3 (account_opened "Ann") none

abbrev paid_row : Option BalanceRow
paid_row = balances_handler 5 (account_deposited_to (pos 8) none) row

abbrev opened_state : AccountState
opened_state = account_apply account_initial (account_opened "Ann")

abbrev paid_state : AccountState
paid_state = account_apply opened_state (account_deposited_to (pos 8) none)

deliveries : Delivered paid_state 5 paid_row
deliveries =
    Delivered.next opened_state 3 5 row (account_deposited_to (pos 8) none)
      (Delivered.opened account_initial "Ann" 3 refl) (omega arith)

Delivered-Shows_example : Shows paid_state 5 paid_row
Delivered-Shows_example = Delivered-Shows deliveries

abbrev asked : TransferState
asked = transfer_apply transfer_initial (transfer_requested "a" "b" (pos 4) "t1")

abbrev asked_row : Option TransferRow
asked_row = transfers_handler 6 9 (transfer_requested "a" "b" (pos 4) "t1") none

row-Shows_example :
    Moves.Shows
      (transfer_apply asked (transfer_completed "t1"))
      8
      (transfers_handler 8 9 (transfer_completed "t1") asked_row)
row-Shows_example = row-Shows (
    Moves.Delivered.outcome asked 6 8 9 asked_row (transfer_completed "t1")
      (Moves.Delivered.request transfer_initial "a" "b" (pos 4) "t1" 6 9) tt (omega arith))

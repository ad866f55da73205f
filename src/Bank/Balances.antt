-- ===== src/Bank/Balances.antt =====
-- The Balances projection (projections/balances/): each handler call is one guarded statement on the row
-- of the event's stream, and touches no other row; `none` is a stream without a row.
use instructed.Prelude.{
  ℕ, ◌≤◌, ◌<◌, String, ◌≡◌, refl, ap, sym, subst, false, Option, none, some, arith, ltb, lt→ltb,
  if◌then◌else◌,
}
use instructed.Prelude.Int.{ℤ, pos, ◌+ℤ◌, ◌-ℤ◌}
use instructed.Bank.{
  BankEvent, account_opened, account_deposited_to, account_withdrawn_from,
  account_withdrawal_refused, transfer_requested, transfer_completed, transfer_failed, AccountState,
  account_apply,
}

pub record BalanceRow : Type 0 where
  pub owner : String
  pub balance : ℤ
  pub last_event_number : ℕ

-- `upsertOpened`: insert, or update where the number is newer.
abbrev pub upsert_opened : String → ℕ → Option BalanceRow → Option BalanceRow
upsert_opened owner n none = some (record { owner = owner; balance = pos 0; last_event_number = n })
upsert_opened owner n (some row) =
    if ltb row.last_event_number n
    then some (record row { owner = owner; last_event_number = n })
    else some row

-- `bumpBalance`: update where the number is newer.
abbrev pub bump_balance : (ℤ → ℤ) → ℕ → Option BalanceRow → Option BalanceRow
bump_balance change n none = none
bump_balance change n (some row) =
    if ltb row.last_event_number n
    then some (record row { balance = change row.balance; last_event_number = n })
    else some row

-- The handler, with `- amount` for `+ -amount`.
abbrev pub balances_handler : ℕ → BankEvent → Option BalanceRow → Option BalanceRow
balances_handler n (account_opened owner) row = upsert_opened owner n row
balances_handler n (account_deposited_to amount _) row =
    bump_balance (λ balance. balance +ℤ amount) n row
balances_handler n (account_withdrawn_from amount _ _) row =
    bump_balance (λ balance. balance -ℤ amount) n row
balances_handler n _ row = row

-- A row that has seen the event with number `n`.
abbrev pub HasSeen : ℕ → Option BalanceRow → Type 0
HasSeen n none = ⊥
HasSeen n (some row) = n ≤ row.last_event_number

not_newer : (a n : ℕ) → n ≤ a → ltb a n ≡ false
not_newer a n h = ground arith

-- An event that is delivered again, to a row that has seen its number, changes nothing.
pub balances_handler-again :
    (n : ℕ) (e : BankEvent) (row : Option BalanceRow)
    → HasSeen n row
    → balances_handler n e row ≡ row
balances_handler-again n e none h = elim h [ ]
balances_handler-again n (account_opened owner) (some row) h =
    rw (not_newer row.last_event_number n h) refl
balances_handler-again n (account_deposited_to amount _) (some row) h =
    rw (not_newer row.last_event_number n h) refl
balances_handler-again n (account_withdrawn_from amount _ _) (some row) h =
    rw (not_newer row.last_event_number n h) refl
balances_handler-again n (account_withdrawal_refused _ _ _) (some row) h = refl
balances_handler-again n (transfer_requested _ _ _ _) (some row) h = refl
balances_handler-again n (transfer_completed _) (some row) h = refl
balances_handler-again n (transfer_failed _ _) (some row) h = refl

-- The row shows an account as its aggregate has it.
abbrev pub Shows : AccountState → ℕ → Option BalanceRow → Type 0
Shows state n none = ⊥
Shows state n (some row) =
    (row.balance ≡ state.balance) × (some row.owner ≡ state.owner) × (row.last_event_number ≤ n)

handler-Shows :
    (state : AccountState) (n m : ℕ) (e : BankEvent) (row : BalanceRow)
    → n < m
    → Shows state n (some row)
    → Shows (account_apply state e) m (balances_handler m e (some row))
handler-Shows state n m (account_opened owner) row newer (b, o, l) =
    rw (lt→ltb row.last_event_number m (omega arith)) (b, refl, omega arith)
handler-Shows state n m (account_deposited_to amount _) row newer (b, o, l) =
    rw (lt→ltb row.last_event_number m (omega arith)) (ap (λ x. x +ℤ amount) b, o, omega arith)
handler-Shows state n m (account_withdrawn_from amount _ _) row newer (b, o, l) =
    rw (lt→ltb row.last_event_number m (omega arith)) (ap (λ x. x -ℤ amount) b, o, omega arith)
handler-Shows state n m (account_withdrawal_refused _ _ _) row newer (b, o, l) = (b, o, omega arith)
handler-Shows state n m (transfer_requested _ _ _ _) row newer (b, o, l) = (b, o, omega arith)
handler-Shows state n m (transfer_completed _) row newer (b, o, l) = (b, o, omega arith)
handler-Shows state n m (transfer_failed _ _) row newer (b, o, l) = (b, o, omega arith)

-- Deliveries of the events of one account in the order of their numbers, each new one followed by any
-- of the earlier events again.
pub data Delivered : AccountState → ℕ → Option BalanceRow → Type 0 where
  opened :
      (state : AccountState) (owner : String) (n : ℕ)
      → state.balance ≡ pos 0
      → Delivered
          (account_apply state (account_opened owner))
          n
          (balances_handler n (account_opened owner) none)
  next :
      (state : AccountState) (n m : ℕ) (row : Option BalanceRow) (e : BankEvent)
      → Delivered state n row
      → n < m
      → Delivered (account_apply state e) m (balances_handler m e row)
  again :
      (state : AccountState) (n m : ℕ) (row : Option BalanceRow) (e : BankEvent)
      → Delivered state n row
      → HasSeen m row
      → Delivered state n (balances_handler m e row)

next-Shows :
    (state : AccountState) (n m : ℕ) (e : BankEvent) (row : Option BalanceRow)
    → n < m
    → Shows state n row
    → Shows (account_apply state e) m (balances_handler m e row)
next-Shows state n m e none newer h = elim h [ ]
next-Shows state n m e (some row) newer h = handler-Shows state n m e row newer h

-- Whatever events are delivered again and however often, the row of an account shows the owner and
-- the balance that the aggregate has after the events delivered for the first time.
pub Delivered-Shows :
    {state : AccountState} {n : ℕ} {row : Option BalanceRow}
    → Delivered state n row
    → Shows state n row
Delivered-Shows (opened state owner n zero_balance) = (sym zero_balance, refl, omega arith)
Delivered-Shows (next state n m row e d newer) =
    next-Shows state n m e row newer (Delivered-Shows d)
Delivered-Shows (again state n m row e d seen) =
    subst (Shows state n) (sym (balances_handler-again m e row seen)) (Delivered-Shows d)

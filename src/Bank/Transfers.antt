-- ===== src/Bank/Transfers.antt =====
-- The Transfers projection (projections/transfers/): each handler call is one guarded statement on the row
-- of the event's transfer, and touches no other row; `none` is a transfer without a row.
use instructed.Prelude.{
  ℕ, ◌≤◌, ◌<◌, String, ◌≡◌, refl, sym, subst, Option, none, some, false, arith, ltb, lt→ltb,
  if◌then◌else◌,
}
use instructed.Prelude.Int.{ℤ}
use instructed.Bank.{
  BankEvent, account_opened, account_deposited_to, account_withdrawn_from,
  account_withdrawal_refused, transfer_requested, transfer_completed, transfer_failed,
  TransferStage, requested, completed, failed, TransferState, transfer_apply,
}

pub record TransferRow : Type 0 where
  pub from : String
  pub to : String
  pub amount : ℤ
  pub status : TransferStage
  pub reason : Option String
  pub requested_at : ℕ
  pub last_event_number : ℕ

-- `upsertRequested`: insert, or update where the number is newer; the status is left.
abbrev pub upsert_requested : String → String → ℤ → ℕ → ℕ → Option TransferRow → Option TransferRow
upsert_requested from to amount at n none = some (record {
  from = from;
  to = to;
  amount = amount;
  status = requested;
  reason = none;
  requested_at = at;
  last_event_number = n;
})
upsert_requested from to amount at n (some row) =
    if ltb row.last_event_number n
    then some (record row {
      from = from;
      to = to;
      amount = amount;
      requested_at = at;
      last_event_number = n;
    })
    else some row

abbrev pub mark_completed : ℕ → Option TransferRow → Option TransferRow
mark_completed n none = none
mark_completed n (some row) =
    if ltb row.last_event_number n
    then some (record row { status = completed; last_event_number = n })
    else some row

abbrev pub mark_failed : String → ℕ → Option TransferRow → Option TransferRow
mark_failed reason n none = none
mark_failed reason n (some row) =
    if ltb row.last_event_number n
    then some (record row { status = failed; reason = some reason; last_event_number = n })
    else some row

-- The handler; `at` is the event's `created_at`.
abbrev pub transfers_handler : ℕ → ℕ → BankEvent → Option TransferRow → Option TransferRow
transfers_handler n at (transfer_requested from to amount _) row =
    upsert_requested from to amount at n row
transfers_handler n at (transfer_completed _) row = mark_completed n row
transfers_handler n at (transfer_failed _ reason) row = mark_failed reason n row
transfers_handler n at _ row = row

abbrev pub HasSeen : ℕ → Option TransferRow → Type 0
HasSeen n none = ⊥
HasSeen n (some row) = n ≤ row.last_event_number

not_newer : (a n : ℕ) → n ≤ a → ltb a n ≡ false
not_newer a n h = ground arith

handler-again :
    (n at : ℕ) (e : BankEvent) (row : Option TransferRow)
    → HasSeen n row
    → transfers_handler n at e row ≡ row
handler-again n at e none h = elim h [ ]
handler-again n at (transfer_requested _ _ _ _) (some row) h =
    rw (not_newer row.last_event_number n h) refl
handler-again n at (transfer_completed _) (some row) h =
    rw (not_newer row.last_event_number n h) refl
handler-again n at (transfer_failed _ _) (some row) h =
    rw (not_newer row.last_event_number n h) refl
handler-again n at (account_opened _) (some row) h = refl
handler-again n at (account_deposited_to _ _) (some row) h = refl
handler-again n at (account_withdrawn_from _ _ _) (some row) h = refl
handler-again n at (account_withdrawal_refused _ _ _) (some row) h = refl

-- The row shows a transfer as its aggregate has it.
abbrev pub Shows : TransferState → ℕ → Option TransferRow → Type 0
Shows state n none = ⊥
Shows state n (some row) =
    (row.status ≡ state.stage)
    × (some row.from ≡ state.from)
    × (some row.to ≡ state.to)
    × (some row.amount ≡ state.amount)
    × (row.reason ≡ state.reason)
    × (row.last_event_number ≤ n)

-- The events after the request; the aggregate emits only one request.
abbrev pub IsOutcome : BankEvent → Type 0
IsOutcome (transfer_completed _) = Unit
IsOutcome (transfer_failed _ _) = Unit
IsOutcome _ = ⊥

outcome-Shows :
    (state : TransferState) (n m at : ℕ) (e : BankEvent) (row : Option TransferRow)
    → IsOutcome e
    → n < m
    → Shows state n row
    → Shows (transfer_apply state e) m (transfers_handler m at e row)
outcome-Shows state n m at e none o newer h = elim h [ ]
outcome-Shows state n m at (transfer_completed _) (some row) o newer (s, f, t, a, r, l) =
    rw (lt→ltb row.last_event_number m (omega arith)) (refl, f, t, a, r, omega arith)
outcome-Shows state n m at (transfer_failed _ reason) (some row) o newer (s, f, t, a, r, l) =
    rw (lt→ltb row.last_event_number m (omega arith)) (refl, f, t, a, refl, omega arith)
outcome-Shows state n m at (transfer_requested _ _ _ _) (some row) o newer h = elim o [ ]
outcome-Shows state n m at (account_opened _) (some row) o newer h = elim o [ ]
outcome-Shows state n m at (account_deposited_to _ _) (some row) o newer h = elim o [ ]
outcome-Shows state n m at (account_withdrawn_from _ _ _) (some row) o newer h = elim o [ ]
outcome-Shows state n m at (account_withdrawal_refused _ _ _) (some row) o newer h = elim o [ ]

-- Deliveries of the events of one transfer: the request, outcomes in the order of their numbers, and in
-- between any event that the row has seen, again.
pub data Delivered : TransferState → ℕ → Option TransferRow → Type 0 where
  request :
      (state : TransferState) (from to : String) (amount : ℤ) (id : String) (n at : ℕ)
      → Delivered
          (transfer_apply state (transfer_requested from to amount id))
          n
          (transfers_handler n at (transfer_requested from to amount id) none)
  outcome :
      (state : TransferState) (n m at : ℕ) (row : Option TransferRow) (e : BankEvent)
      → Delivered state n row
      → IsOutcome e
      → n < m
      → Delivered (transfer_apply state e) m (transfers_handler m at e row)
  again :
      (state : TransferState) (n m at : ℕ) (row : Option TransferRow) (e : BankEvent)
      → Delivered state n row
      → HasSeen m row
      → Delivered state n (transfers_handler m at e row)

-- Whatever events are delivered again and however often, the row of a transfer shows the status, the
-- parties, the amount and the reason that the aggregate has after the events delivered for the first time: a
-- request, and then outcomes.
pub row-Shows :
    {state : TransferState} {n : ℕ} {row : Option TransferRow}
    → Delivered state n row
    → Shows state n row
row-Shows (request state from to amount id n at) = (refl, refl, refl, refl, refl, omega arith)
row-Shows (outcome state n m at row e d o newer) =
    outcome-Shows state n m at e row o newer (row-Shows d)
row-Shows (again state n m at row e d seen) =
    subst (Shows state n) (sym (handler-again m at e row seen)) (row-Shows d)

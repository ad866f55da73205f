-- ===== src/Tests.antt =====
-- Concrete inputs for the theorems: an account opened by an append, with another session that deposits
-- into it while a command runs.
mod Runner
mod Stores
mod Workers
mod Bank
mod Queue
mod Claims
mod Waiting
mod Pm
mod Dispatching
use instructed.Prelude.{
  ℕ, String, ◌≡◌, refl, true, false, select, beq, if◌then◌else◌, Option, none, some, List, [], ◌∷◌,
}
use instructed.Prelude.Int.{ℤ, pos}
use instructed.Types.{NewEvent}
use instructed.Store.{Store, rows_of, stream_version, find_snapshot}
use instructed.Store.Append.{PackedEvent, append_to_stream}
use instructed.Store.Valid.{IsValid, after_append, after_append-IsValid}
use instructed.Session.{Session, Platform}
use instructed.Client.{pack_event}
use instructed.Aggregate.Replay.{IsSound, Trusts, Rely}
use instructed.Aggregate.Rely.{committed, after_append-IsSound, append_to_stream-Rely}
use instructed.Aggregate.Run.{RunCommandOptions}
use instructed.Bank.{
  BankEvent, AccountState, AccountCommand, account_opened, account_deposited_to, emitted, account,
  deposit_to_account,
}

abbrev pub platform : Platform
platform = record {
  is_uuid = λ _. true;
  random_uuid = λ n. if beq n 0 then "u0" else if beq n 1 then "u1" else "u2";
}

abbrev pub stream : String
stream = "Account-1"

abbrev pub empty : Store BankEvent AccountState
empty = record {
  streams = [];
  all_version = 0;
  log = [];
  snapshots = [];
  subscriptions = [];
  work_items = [];
  subscription_locked = λ _. false;
  item_locked = λ _. false;
  now = 7;
}

abbrev pub opening : List (PackedEvent BankEvent)
opening = record (pack_event (emitted (account_opened "Ann"))) { event_id = some "e1" } ∷ []

abbrev pub opened : Store BankEvent AccountState
opened = after_append stream opening empty

abbrev pub paying_in : List (PackedEvent BankEvent)
paying_in =
    record (pack_event (emitted (account_deposited_to (pos 9) none))) { event_id = some "e2" } ∷ []

-- What the other session does.
abbrev pub pays_in : Store BankEvent AccountState → Store BankEvent AccountState
pays_in s = committed s (append_to_stream platform.is_uuid stream "any" none paying_in s)

abbrev pub session : Session BankEvent AccountState
session = record { store = opened; others = pays_in ∷ []; drawn = 0 }

abbrev pub alone : Session BankEvent AccountState
alone = record { store = opened; others = []; drawn = 0 }

abbrev pub deposit : AccountCommand
deposit = deposit_to_account "1" (pos 5) none

abbrev pub defaults : RunCommandOptions
defaults = record {
  retry_budget = none;
  expected_version = none;
  command_id = none;
  causation_id = none;
  correlation_id = none;
}

pub empty-IsValid : IsValid empty
unfolding rows_of stream_version select
empty-IsValid = record { numbered = tt; total = refl; versions = λ u. tt; counts = λ u. refl }

pub opened-IsValid : IsValid opened
opened-IsValid = after_append-IsValid stream opening empty empty-IsValid

nothing_there : {A : Type 0} {a : A} → none ≡ some a → ⊥
nothing_there h = cc

empty-IsSound : IsSound account stream empty
unfolding find_snapshot
empty-IsSound = record {
  valid = empty-IsValid;
  agrees = λ snap found matches. elim (nothing_there found) [ ];
}

pub opened-IsSound : IsSound account stream opened
opened-IsSound = after_append-IsSound account stream stream opening empty empty-IsSound

pub session-Trusts : Trusts account stream session
session-Trusts = record {
  sound = opened-IsSound;
  rely = (append_to_stream-Rely account stream platform.is_uuid stream "any" none paying_in, tt);
}

-- ===== src/Tests/Waiting.antt =====
-- The theorems on waiting for a projection, on the routing worker's decisions and on process managers.
use instructed.Prelude.{
  ℕ, suc, ◌+◌, ◌*◌, ◌≤◌, ◌≡◌, ◌≢◌, refl, arith, false, some, none, List, [], ◌∷◌, beq,
  if◌then◌else◌,
}
use mathlib.Core.List.{Memᴰ}
use instructed.Types.{AppendedEvent, RecordedEvent}
use instructed.Result.{ok, stuck}
use instructed.Store.{WorkItem}
use instructed.Store.Subscriptions.{
  stream_head, keyed, find_subscription, subscription_of, require_subscription,
}
use instructed.Store.Queue.{exists_item, routed_item, item_key}
use instructed.Store.Queue.Calls as SqlQueue
use instructed.Store.Queue.Calls.{require_item}
use instructed.Store.Queue.Route.{Ahead}
use instructed.Session.{Session, run_query, interfere}
use instructed.Client.Queue as ClientQueue
use instructed.Consistency.{
  SubscriptionRef, WaitForProjectionOptions, ref_key, includes, add_all, misplaced, highest, put,
  put_all, poll, wait_from, wait_for_projection, sleep_ms,
}
use instructed.Consistency.Polls.{SeenCaughtUp, wait_for_projection-caught_up}
use instructed.Consistency.Fuel.{wait_for_projection-settles}
use instructed.Workers.Routing.{
  RoutedBatch, routed, ignore, partition, RoutingFn, route_from, route_one_batch,
}
use instructed.Workers.Routing.Ascending.{payloads, route_one_batch-Ahead}
use instructed.Bank.{BankEvent, AccountState, account_opened}
use instructed.Tests.Queue.{queue}

abbrev routed_to : List WorkItem → Session BankEvent AccountState
routed_to items = record { store = queue 3 items []; others = []; drawn = 0 }

-- The projection has seen everything.
abbrev caught_up : Session BankEvent AccountState
caught_up = routed_to []

abbrev appended : AppendedEvent
appended = record {
  event_id = "e3";
  stream_uuid = "Account-1";
  stream_version = 1;
  event_number = 3;
  created_at = 7;
}

abbrev pub projection : SubscriptionRef
projection = record { stream = "$all"; name = "pm" }

abbrev options : WaitForProjectionOptions
options = record { poll_interval = none; timeout = some 50 }

abbrev pub clock : ℕ → ℕ
clock i = 25 * i

waited :
    wait_for_projection clock 9 options (appended ∷ []) (projection ∷ []) caught_up
    ≡ (ok tt, caught_up)
unfolding wait_for_projection misplaced includes add_all highest put put_all poll wait_from ref_key
    ClientQueue.is_subscription_caught_up run_query interfere SqlQueue.is_subscription_caught_up
    require_subscription subscription_of stream_head find_subscription keyed exists_item
waited = refl

wait_for_projection-caught_up_example :
    (target : ℕ) × (3 ≤ target)
    × ((t : SubscriptionRef) × (ref_key t ≡ ref_key projection) × SeenCaughtUp target caught_up t)
wait_for_projection-caught_up_example =
    wait_for_projection-caught_up clock 9 options appended [] (projection ∷ []) caught_up appended
      projection waited (Memᴰ.head refl) (Memᴰ.head refl)

-- One item is never completed: the wait runs into its timeout.
abbrev behind : Session BankEvent AccountState
behind = routed_to (routed_item (item_key "$all" "pm" "a" 1) ∷ [])

wait_for_projection-settles_example :
    (wait_for_projection clock 51 options (appended ∷ []) (projection ∷ []) behind).0 ≢ stuck
wait_for_projection-settles_example =
    wait_for_projection-settles clock 51 options (appended ∷ []) (projection ∷ []) behind
      (ground arith) (ground arith) slept (ground arith)
  where
    slept : (j : ℕ) → 25 * suc j + sleep_ms 25 50 (25 * suc j) ≤ 25 * suc (suc j)
    slept j = omega arith

abbrev event : ℕ → RecordedEvent BankEvent
event n = record {
  event_id = "e";
  event_number = n;
  stream_uuid = "Account-1";
  stream_version = n;
  causation_id = none;
  correlation_id = none;
  metadata = none;
  created_at = 7;
  type = "AccountOpened";
  payload = account_opened "Ann";
}

-- Every event but the fifth goes to one partition.
abbrev by_number : RoutingFn BankEvent
by_number e = if beq e.event_number 5 then ok ignore else ok (partition "a")

abbrev batch : RoutedBatch
batch = record {
  decisions =
      record { partition_key = "a"; event_number = 4 }
      ∷ record { partition_key = "a"; event_number = 6 }
      ∷ [];
  cursor_to = 6;
}

routing : route_one_batch by_number (λ _. false) (event 4 ∷ event 5 ∷ event 6 ∷ []) ≡ routed batch
unfolding route_one_batch route_from
routing = refl

route_one_batch-Ahead_example : Ahead 3 6 (payloads batch.decisions)
route_one_batch-Ahead_example =
    route_one_batch-Ahead by_number (λ _. false) 3 (event 4 ∷ event 5 ∷ event 6 ∷ []) batch
      (ground arith, (ground arith, (ground arith, tt))) routing

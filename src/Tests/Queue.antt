-- ===== src/Tests/Queue.antt =====
-- The theorems on the work queue: two events of one partition, routed, and processed one after the other.
use instructed.Prelude.{ℕ, ◌≡◌, refl, arith, false, some, none, List, [], ◌∷◌, select}
use instructed.Types.{SnapshotInput, Snapshot}
use instructed.Result.{ok}
use instructed.Store.{
  SubscriptionRow, WorkItem, ItemKey, done, Store, upsert_snapshot, record_snapshot,
}
use instructed.Store.Snapshots.{kept}
use instructed.Store.Subscriptions.{
  stream_head, keyed, find_subscription, update_subscription, subscription_of, require_subscription,
}
use instructed.Store.Queue.{
  Decision, RouteBatchRow, ClaimedRow, same_partition, same_key, on_subscription, find_item,
  exists_item, update_item, item_key, routed_item, insert_item, insert_items, is_claimable, blocks,
  least, claimed_item, done_item,
}
use instructed.Store.Queue.Calls.{
  route_batch, candidates, claim_work_item, require_item, complete_work_item_pm,
}
use instructed.Store.Queue.Steps.{
  Reached, fresh, after, routes, claims_item, completes_pm, Reached-in_order,
}
use instructed.Store.Queue.Replay.{route_batch-replayed}
use instructed.Bank.{BankEvent, AccountState, account_initial}
use instructed.Tests.{empty}

abbrev pub subscribed : ℕ → SubscriptionRow
subscribed cursor = record {
  stream_uuid = "$all";
  subscription_name = "pm";
  last_seen = cursor;
  claimed_by = some "router";
  claim_expires_at = some 20;
  created_at = 1;
}

abbrev pub queue : ℕ → List WorkItem → List (Snapshot AccountState) → Store BankEvent AccountState
queue cursor items snapshots = record empty {
  subscriptions = subscribed cursor ∷ [];
  work_items = items;
  snapshots = snapshots;
}

abbrev first : ItemKey
first = item_key "$all" "pm" "a" 1

abbrev second : ItemKey
second = item_key "$all" "pm" "a" 2

abbrev decisions : List Decision
decisions =
    record { partition_key = "a"; event_number = 1 }
    ∷ record { partition_key = "a"; event_number = 2 }
    ∷ []

abbrev routed : Store BankEvent AccountState
routed = queue 2 (routed_item second ∷ routed_item first ∷ []) []

abbrev first_claimed : Store BankEvent AccountState
first_claimed = queue 2 (routed_item second ∷ claimed_item "w" 17 (routed_item first) ∷ []) []

abbrev pub snapshot : SnapshotInput AccountState
snapshot = record {
  source_uuid = "pm-a";
  source_type = "pm";
  source_version = 1;
  payload = account_initial;
  metadata = none;
}

abbrev first_done : Store BankEvent AccountState
first_done =
    queue 2 (routed_item second ∷ done_item (claimed_item "w" 17 (routed_item first)) ∷ [])
      (kept snapshot first_claimed ∷ [])

abbrev second_claimed : Store BankEvent AccountState
second_claimed =
    queue 2
      (claimed_item "w" 17 (routed_item second)
        ∷ done_item (claimed_item "w" 17 (routed_item first))
        ∷ [])
      (kept snapshot first_claimed ∷ [])

abbrev routed_row : RouteBatchRow
routed_row = record { inserted_count = 2; new_last_seen = 2 }

routing : route_batch "$all" "pm" "router" 2 decisions (queue 0 [] []) ≡ ok (routed_row, routed)
unfolding route_batch require_subscription subscription_of stream_head find_subscription keyed
    insert_items insert_item find_item same_key same_partition update_subscription
routing = refl

abbrev claimed_row_of : ℕ → ClaimedRow
claimed_row_of n = record {
  partition_key = "a";
  event_number = n;
  claimed_by = "w";
  lease_expires_at = 17;
  was_takeover = false;
  prior_claimed_by = none;
}

claiming_first :
    claim_work_item "$all" "pm" "w" 10 routed ≡ ok (some (claimed_row_of 1), first_claimed)
unfolding claim_work_item candidates require_subscription subscription_of stream_head
    find_subscription keyed select least exists_item blocks same_key same_partition on_subscription
    is_claimable update_item
claiming_first = refl

completing_first : complete_work_item_pm "w" first snapshot first_claimed ≡ ok (tt, first_done)
unfolding complete_work_item_pm require_item require_subscription subscription_of stream_head
    find_subscription keyed find_item same_key same_partition update_item record_snapshot
    upsert_snapshot
completing_first = refl

claiming_second :
    claim_work_item "$all" "pm" "w" 10 first_done ≡ ok (some (claimed_row_of 2), second_claimed)
unfolding claim_work_item candidates require_subscription subscription_of stream_head
    find_subscription keyed select least exists_item blocks same_key same_partition on_subscription
    is_claimable update_item
claiming_second = refl

reached : Reached second_claimed
unfolding subscription_of find_subscription keyed
reached =
    after first_done second_claimed
      (after first_claimed first_done
        (after routed first_claimed
          (after (queue 0 [] []) routed (fresh (queue 0 [] []) refl) (
            routes "$all" "pm" "router" 2 decisions (subscribed 0) routed_row routing refl
              (ground arith, ground arith, (ground arith, ground arith, tt))))
          (claims_item "$all" "pm" "w" 10 (some (claimed_row_of 1)) claiming_first))
        (completes_pm "w" first snapshot completing_first))
      (claims_item "$all" "pm" "w" 10 (some (claimed_row_of 2)) claiming_second)

abbrev item_done : WorkItem
item_done = done_item (claimed_item "w" 17 (routed_item first))

Reached-in_order_example : item_done.state ≡ done
unfolding find_item same_key same_partition
Reached-in_order_example =
    Reached-in_order second_claimed first second item_done
      (claimed_item "w" 17 (routed_item second)) reached refl refl refl (ground arith) refl

route_batch-replayed_example :
    route_batch "$all" "pm" "router" 2 decisions routed
    ≡ ok (record { inserted_count = 0; new_last_seen = 2 }, routed)
route_batch-replayed_example =
    route_batch-replayed "$all" "pm" "router" 2 decisions (queue 0 [] []) routing

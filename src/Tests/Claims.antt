-- ===== src/Tests/Claims.antt =====
-- The theorems on claims of items and subscriptions: an item whose lease has run out, and one whose lease runs.
use instructed.Prelude.{String, ◌≡◌, ◌≢◌, refl, arith, true, some, none, [], ◌∷◌, select}
use instructed.Result.{ok, throw}
use instructed.Store.{SubscriptionRow, WorkItem, Store}
use instructed.Store.Subscriptions.{
  origin, ClaimOutcome, already_claimed, reported, stream_head, keyed, find_subscription,
  subscription_of, require_subscription, claim_subscription,
}
use instructed.Store.Subscriptions.Leases.{claim_subscription-excludes}
use instructed.Store.Queue.{
  ClaimedRow, same_partition, same_key, on_subscription, find_item, exists_item, update_item,
  item_key, routed_item, is_claimable, blocks, least, claimed_item, item_lost,
}
use instructed.Store.Queue.Calls.{
  candidates, claim_work_item, extend_work_item_claim, complete_work_item_projection,
  complete_work_item_pm, fail_work_item,
}
use instructed.Store.Queue.Rows.{Unique}
use instructed.Store.Queue.Claims.{named, claim_work_item-respects_leases, claim_work_item-fences}
use instructed.Bank.{BankEvent, AccountState}
use instructed.Tests.{empty}
use instructed.Tests.Queue.{queue, snapshot}

-- Left by "w0" at 5; it is 7 now.
abbrev lapsed : WorkItem
lapsed = claimed_item "w0" 5 (routed_item (item_key "$all" "pm" "a" 1))

abbrev running : WorkItem
running = claimed_item "w3" 9 (routed_item (item_key "$all" "pm" "b" 3))

abbrev before : Store BankEvent AccountState
before = queue 3 (lapsed ∷ running ∷ []) []

abbrev later : Store BankEvent AccountState
later = queue 3 (claimed_item "w" 17 lapsed ∷ running ∷ []) []

abbrev taken : ClaimedRow
taken = record {
  partition_key = "a";
  event_number = 1;
  claimed_by = "w";
  lease_expires_at = 17;
  was_takeover = true;
  prior_claimed_by = some "w0";
}

unique : Unique before.work_items
unfolding find_item same_key same_partition
unique = (refl, (refl, tt))

taking : claim_work_item "$all" "pm" "w" 10 before ≡ ok (some taken, later)
unfolding claim_work_item candidates require_subscription subscription_of stream_head
    find_subscription keyed select least exists_item blocks same_key same_partition on_subscription
    is_claimable update_item
taking = refl

claim_work_item-respects_leases_example : running.key ≢ named "$all" "pm" taken
unfolding find_item same_key same_partition
claim_work_item-respects_leases_example =
    claim_work_item-respects_leases "$all" "pm" "w" 10 before running.key running 9 unique taking
      refl refl refl (ground arith)

claim_work_item-fences_example :
    (extend_work_item_claim "w0" (named "$all" "pm" taken) 10 later
      ≡ throw (item_lost "extend_work_item_claim" "lease lost"))
    × (complete_work_item_projection "w0" (named "$all" "pm" taken) later
        ≡ throw (item_lost "complete_work_item_projection" "lease lost"))
    × (complete_work_item_pm "w0" (named "$all" "pm" taken) snapshot later
        ≡ throw (item_lost "complete_work_item_pm" "lease lost"))
    × (fail_work_item "w0" (named "$all" "pm" taken) none later
        ≡ throw (item_lost "fail_work_item" "lease lost"))
claim_work_item-fences_example =
    claim_work_item-fences "$all" "pm" "w" 10 before unique taking "w0" 10 none snapshot other refl
      (ground arith) refl refl
  where
    other : ◌≢◌ {A = String} "w0" "w"
    other e = cc

-- A subscription that nobody has claimed yet, then held until 17.
abbrev unclaimed : Store BankEvent AccountState
unclaimed = empty

abbrev held_row : SubscriptionRow
held_row = record {
  stream_uuid = "$all";
  subscription_name = "pm";
  last_seen = 0;
  claimed_by = some "router";
  claim_expires_at = some 17;
  created_at = 7;
}

abbrev held : Store BankEvent AccountState
held = record empty { subscriptions = held_row ∷ [] }

abbrev held_later : Store BankEvent AccountState
held_later = record held { now = 12 }

claiming :
    claim_subscription "$all" "pm" "router" 10 origin unclaimed
    ≡ ok (reported ClaimOutcome.claimed held_row, held)
unfolding claim_subscription subscription_of stream_head find_subscription keyed
claiming = refl

claim_subscription-excludes_example :
    (r : SubscriptionRow) × (r.claimed_by ≡ some "router")
    × (claim_subscription "$all" "pm" "w2" 10 origin held_later
        ≡ ok (reported already_claimed r, held_later))
unfolding subscription_of stream_head find_subscription keyed
claim_subscription-excludes_example =
    claim_subscription-excludes "$all" "pm" "router" "w2" 10 10 0 origin origin unclaimed held_later
      claiming refl other refl (ground arith) refl refl (ground arith)
  where
    other : ◌≢◌ {A = String} "w2" "router"
    other e = cc

-- ===== src/Store/Queue/Calls.antt =====
-- The procedures of the work queue (sql/instructed.sql), each one transaction. A message leaves out the
-- values that the source puts in it.
use instructed.Prelude.{
  ℕ, ◌+◌, ◌-◌, String, ◌==◌, Bool, not, ◌&&◌, Option, none, some, List, max, ltb, leb, beq, select,
  length,
}
use instructed.Types.{Snapshot, SnapshotInput}
use instructed.Result.{Result, ok, throw_if, ◌>>=◌, ◌>>◌}
use instructed.Store.{
  SubscriptionRow, ItemKey, WorkItem, Store, RawEventRow, raise, order_by, record_snapshot,
}
use instructed.Store.Subscriptions.{
  require_text, require_subscription, require_holder, update_subscription,
}
use instructed.Store.Queue.{
  Decision, RouteBatchRow, ClaimedRow, same_partition, same_key, on_subscription, is_open,
  find_item, exists_item, update_item, item_key, insert_items, is_claimable, blocks, least,
  claimed_item, done_item, failed_item, claimed_row, require_texts, held_item, require_claimed,
  done_before, events_of,
}

module _ {D S : Type 0} where
  unfoldable pub route_batch :
      String → String → String → ℕ → List Decision → Store D S → Result (RouteBatchRow × Store D S)
  route_batch u name worker new_cursor decisions s = do
    require_text name "route_batch: p_subscription_name is null/empty"
    require_text worker "route_batch: p_worker_id is null/empty"
    r ← require_subscription "route_batch" u name s
    require_holder "route_batch" worker r
    let items = insert_items u name decisions s.work_items
    let advance : SubscriptionRow → SubscriptionRow =
        λ q. record q { last_seen = max q.last_seen new_cursor }
    ok (
      record {
        inserted_count = length items - length s.work_items;
        new_last_seen = max r.last_seen new_cursor;
      },
      record s {
        subscriptions = update_subscription u name advance s.subscriptions;
        work_items = items;
      },
    )

  -- The rows that the query of `claim_work_item` ranges over.
  unfoldable pub candidates : String → String → Store D S → List WorkItem
  candidates u name s =
      select
        (λ i.
          on_subscription u name i
          && is_claimable s.now i
          && not (exists_item (blocks i.key) s.work_items)
          && not (s.item_locked i))
        s.work_items

  abbrev pub claim_candidate :
      String → ℕ → Store D S → Option WorkItem → Option ClaimedRow × Store D S
  claim_candidate worker expires s none = (none, s)
  claim_candidate worker expires s (some i) = (
    some (claimed_row worker expires i),
    record s { work_items = update_item i.key (claimed_item worker expires) s.work_items },
  )

  unfoldable pub claim_work_item :
      String → String → String → ℕ → Store D S → Result (Option ClaimedRow × Store D S)
  claim_work_item u name worker lease_seconds s = do
    require_text name "claim_work_item: p_subscription_name is null/empty"
    require_text worker "claim_work_item: p_worker_id is null/empty"
    throw_if (beq lease_seconds 0)
        (raise "22023" "claim_work_item: p_lease_seconds must be a positive integer")
    _ ← require_subscription "claim_work_item" u name s
    ok (claim_candidate worker (s.now + lease_seconds) s (least (candidates u name s)))

  -- What the calls on a claimed item check before they change anything.
  unfoldable pub require_item : String → String → ItemKey → Store D S → Result WorkItem
  require_item procedure worker k s = do
    _ ← require_subscription procedure k.stream_uuid k.subscription_name s
    held_item procedure worker (find_item k s.work_items)

  unfoldable pub complete_work_item_projection :
      String → ItemKey → Store D S → Result (Unit {0} × Store D S)
  complete_work_item_projection worker k s = do
    require_texts "complete_work_item_projection" worker k
    _ ← require_item "complete_work_item_projection" worker k s
    ok (
      tt,
      record s { work_items = select (λ (i : WorkItem). not (same_key i.key k)) s.work_items },
    )

  -- The snapshot is written by `_upsert_snapshot`, which `record_snapshot` calls after its own checks.
  unfoldable pub complete_work_item_pm :
      String → ItemKey → SnapshotInput S → Store D S → Result (Unit {0} × Store D S)
  complete_work_item_pm worker k x s = do
    require_texts "complete_work_item_pm" worker k
    require_text x.source_uuid "complete_work_item_pm: p_snapshot_uuid is null/empty"
    require_text x.source_type "complete_work_item_pm: p_snapshot_type is null/empty"
    _ ← require_item "complete_work_item_pm" worker k s
    record_snapshot x (record s { work_items = update_item k done_item s.work_items })

  unfoldable pub complete_pm_instance :
      String → String → String → String → Store D S → Result ((ℕ × Bool) × Store D S)
  complete_pm_instance u name partition snapshot_uuid s = do
    require_text name "complete_pm_instance: p_subscription_name is null/empty"
    require_text snapshot_uuid "complete_pm_instance: p_snapshot_uuid is null/empty"
    _ ← require_subscription "complete_pm_instance" u name s
    let kept : List WorkItem =
        select (λ (i : WorkItem). not (same_partition i.key (item_key u name partition 0)))
          s.work_items
    let snapshots : List (Snapshot S) =
        select (λ (x : Snapshot S). not (x.source_uuid == snapshot_uuid)) s.snapshots
    ok (
      (length s.work_items - length kept, ltb (length snapshots) (length s.snapshots)),
      record s { work_items = kept; snapshots = snapshots },
    )

  unfoldable pub fail_work_item :
      String → ItemKey → Option String → Store D S → Result (Unit {0} × Store D S)
  fail_work_item worker k error_text s = do
    require_texts "fail_work_item" worker k
    _ ← require_item "fail_work_item" worker k s
    ok (tt, record s { work_items = update_item k (failed_item s.now error_text) s.work_items })

  unfoldable pub extend_work_item_claim : String → ItemKey → ℕ → Store D S → Result (ℕ × Store D S)
  extend_work_item_claim worker k lease_seconds s = do
    require_texts "extend_work_item_claim" worker k
    throw_if (beq lease_seconds 0)
        (raise "22023" "extend_work_item_claim: p_lease_seconds must be a positive integer")
    i ← require_item "extend_work_item_claim" worker k s
    require_claimed i
    let expires = s.now + lease_seconds
    ok (
      expires,
      record s {
        work_items =
            update_item k (λ (j : WorkItem). record j { lease_expires_at = some expires })
              s.work_items;
      },
    )

  unfoldable pub is_subscription_caught_up : String → String → ℕ → Store D S → Result Bool
  is_subscription_caught_up u name target s = do
    require_text name "is_subscription_caught_up: p_subscription_name is null/empty"
    r ← require_subscription "is_subscription_caught_up" u name s
    ok (
        leb target r.last_seen
        && not (
            exists_item
              (λ i. on_subscription u name i && leb i.key.event_number target && is_open i.state)
              s.work_items))

  unfoldable pub list_pm_rebuild_events : ItemKey → Store D S → Result (List (RawEventRow D))
  list_pm_rebuild_events k s = do
    require_text k.subscription_name "list_pm_rebuild_events: p_subscription_name is null/empty"
    _ ← require_subscription "list_pm_rebuild_events" k.stream_uuid k.subscription_name s
    ok (
        events_of (order_by (λ (i : WorkItem). i.key.event_number) (done_before k s.work_items))
          s.log)

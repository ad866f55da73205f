-- ===== src/Client/Queue.antt =====
-- The client's calls on subscriptions and work items (sdks/typescript/src/client/client.ts) and their wire
-- shapes (types/subscription.ts, types/work-item.ts). Event numbers are below 2^53, where `Number` and the
-- cast of `start_from` lose nothing; a date of the driver is the number it stands for.
use instructed.Prelude.{ℕ, String, Bool, Option, none, some, List, map}
use instructed.Errors.{Thrown}
use instructed.Errors.MapPg.{MapPgErrorContext, no_context}
use instructed.Result.{Result, ok, throw, stuck, ◌>>=◌}
use instructed.Types.{RecordedEvent, SnapshotInput}
use instructed.Store.{ItemKey}
use instructed.Store as SqlStore
use instructed.Store.Subscriptions as Sql
use instructed.Store.Subscriptions.{
  StartFrom, origin, ClaimOutcome, claimed, already_claimed, ClaimRow,
}
use instructed.Store.Queue.{RouteBatchRow, ClaimedRow, Decision, item_key}
use instructed.Store.Queue.Calls as SqlQueue
use instructed.Session.{Session, Io, run, run_query}
use instructed.Client.{map_result, map_recorded_event, on_source}
use instructed.Workers.Routing.{RouteDecision}

-- A date is absent where the row had null.
pub record ClaimResult : Type 0 where
  pub result : ClaimOutcome
  pub last_seen : ℕ
  pub claimed_by : Option String
  pub claim_expires_at : Option ℕ

pub record RouteBatchResult : Type 0 where
  pub inserted_count : ℕ
  pub new_last_seen : ℕ

pub record ClaimedWorkItem : Type 0 where
  pub partition_key : String
  pub event_number : ℕ
  pub claimed_by : String
  pub lease_expires_at : ℕ
  pub was_takeover : Bool
  pub prior_claimed_by : Option String

pub record CompletePmInstanceResult : Type 0 where
  pub work_items_deleted : ℕ
  pub snapshot_deleted : Bool

abbrev pub on_ref : String → String → MapPgErrorContext
on_ref u name = record no_context { stream_uuid = some u; subscription_name = some name }

abbrev pub on_partition : String → String → String → MapPgErrorContext
on_partition u name partition = record (on_ref u name) { partition_key = some partition }

abbrev pub on_item : ItemKey → MapPgErrorContext
on_item k = record (on_partition k.stream_uuid k.subscription_name k.partition_key) {
  event_number = some k.event_number;
}

-- `toDate`, of a column that may be null.
abbrev pub to_date : Option ℕ → Result ℕ
to_date none = throw (Thrown.error "expected Date, got object")
to_date (some at) = ok at

-- The result of a claim, from its row.
abbrev pub claim_result : ClaimOutcome → ClaimRow → Result ClaimResult
claim_result claimed r = to_date r.claim_expires_at >>= λ at. ok (record {
  result = claimed;
  last_seen = r.last_seen;
  claimed_by = r.claimed_by;
  claim_expires_at = some at;
})
claim_result already_claimed r = ok (record {
  result = already_claimed;
  last_seen = r.last_seen;
  claimed_by = r.claimed_by;
  claim_expires_at = r.claim_expires_at;
})

-- `options.startFrom`; the procedure's default where it is not given.
abbrev pub start_from_param : Option StartFrom → StartFrom
start_from_param none = origin
start_from_param (some from) = from

abbrev pub decision_payload : RouteDecision → Decision
decision_payload d = record { partition_key = d.partition_key; event_number = d.event_number }

abbrev pub route_batch_result : RouteBatchRow → RouteBatchResult
route_batch_result r = record { inserted_count = r.inserted_count; new_last_seen = r.new_last_seen }

-- `null` of no row.
abbrev pub claimed_work_item : Option ClaimedRow → Option ClaimedWorkItem
claimed_work_item none = none
claimed_work_item (some r) = some (record {
  partition_key = r.partition_key;
  event_number = r.event_number;
  claimed_by = r.claimed_by;
  lease_expires_at = r.lease_expires_at;
  was_takeover = r.was_takeover;
  prior_claimed_by = r.prior_claimed_by;
})

abbrev pub complete_pm_instance_result : ℕ × Bool → CompletePmInstanceResult
complete_pm_instance_result r = record { work_items_deleted = r.0; snapshot_deleted = r.1 }

module _ {D S : Type 0} where
  -- What follows the query of `claimSubscription`.
  abbrev pub of_claim_row : Result ClaimRow × Session D S → Result ClaimResult × Session D S
  of_claim_row (ok r, w) = (claim_result r.result r, w)
  of_claim_row (throw e, w) = (throw e, w)
  of_claim_row (stuck, w) = (stuck, w)

  unfoldable pub delete_snapshot : String → Io D S (Unit {0})
  delete_snapshot u = run (on_source u) (SqlStore.delete_snapshot u)

  unfoldable pub claim_subscription :
      String → String → String → ℕ → Option StartFrom → Io D S ClaimResult
  claim_subscription u name worker lease_seconds from w = of_claim_row (
      run (on_ref u name)
        (Sql.claim_subscription u name worker lease_seconds (start_from_param from)) w)

  unfoldable pub release_subscription : String → String → String → Io D S (Unit {0})
  release_subscription u name worker = run (on_ref u name) (Sql.release_subscription u name worker)

  unfoldable pub delete_subscription : String → String → Io D S (Unit {0})
  delete_subscription u name = run (on_ref u name) (Sql.delete_subscription u name)

  unfoldable pub route_batch :
      String → String → String → ℕ → List RouteDecision → Io D S RouteBatchResult
  route_batch u name worker new_cursor decisions w = map_result route_batch_result (
      run (on_ref u name)
        (SqlQueue.route_batch u name worker new_cursor (map decision_payload decisions)) w)

  unfoldable pub claim_work_item : String → String → String → ℕ → Io D S (Option ClaimedWorkItem)
  claim_work_item u name worker lease_seconds w =
      map_result claimed_work_item
        (run (on_ref u name) (SqlQueue.claim_work_item u name worker lease_seconds) w)

  unfoldable pub extend_work_item_claim : String → String → String → String → ℕ → ℕ → Io D S ℕ
  extend_work_item_claim u name worker partition n lease_seconds =
      let k = item_key u name partition n in
      run (on_item k) (SqlQueue.extend_work_item_claim worker k lease_seconds)

  unfoldable pub complete_work_item_projection :
      String → String → String → String → ℕ → Io D S (Unit {0})
  complete_work_item_projection u name worker partition n =
      let k = item_key u name partition n in
      run (on_item k) (SqlQueue.complete_work_item_projection worker k)

  unfoldable pub complete_work_item_pm :
      String → String → String → String → ℕ → SnapshotInput S → Io D S (Unit {0})
  complete_work_item_pm u name worker partition n x =
      let k = item_key u name partition n in
      run (record (on_item k) { source_uuid = some x.source_uuid })
        (SqlQueue.complete_work_item_pm worker k x)

  unfoldable pub complete_pm_instance :
      String → String → String → String → Io D S CompletePmInstanceResult
  complete_pm_instance u name partition snapshot_uuid w = map_result complete_pm_instance_result (
      run (record (on_partition u name partition) { source_uuid = some snapshot_uuid })
        (SqlQueue.complete_pm_instance u name partition snapshot_uuid) w)

  unfoldable pub fail_work_item :
      String → String → String → String → ℕ → Option String → Io D S (Unit {0})
  fail_work_item u name worker partition n error_text =
      let k = item_key u name partition n in
      run (on_item k) (SqlQueue.fail_work_item worker k error_text)

  unfoldable pub is_subscription_caught_up : String → String → ℕ → Io D S Bool
  is_subscription_caught_up u name target =
      run_query (on_ref u name) (SqlQueue.is_subscription_caught_up u name target)

  unfoldable pub list_pm_rebuild_events :
      String → String → String → ℕ → Io D S (List (RecordedEvent D))
  list_pm_rebuild_events u name partition upper_bound w = map_result (map map_recorded_event) (
      run_query (on_partition u name partition)
        (SqlQueue.list_pm_rebuild_events (item_key u name partition upper_bound)) w)

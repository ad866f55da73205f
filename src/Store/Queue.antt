-- ===== src/Store/Queue.antt =====
-- The work queue of a subscription: `route_batch`, `claim_work_item` and the calls on a claimed item, of
-- sql/instructed.sql. The parameters are not null and not negative, as the SDK's types say.
pub mod Calls
pub mod Rows
pub mod Claims
pub mod Order
pub mod Settled
pub mod Cursor
pub mod Lease
pub mod Route
pub mod Steps
pub mod Replay
use instructed.Prelude.{
  ℕ, suc, ◌+◌, ◌-◌, String, ◌==◌, ◌<>◌, Bool, true, false, not, ◌&&◌, ◌||◌, Option, none, some,
  List, [], ◌∷◌, ◌++◌, map, max, ltb, leb, beq, if◌then◌else◌, select, length, get_or_else,
}
use instructed.Types.{Snapshot, SnapshotInput}
use instructed.Errors.{Thrown}
use instructed.Result.{Result, ok, throw, throw_if, ◌>>=◌, ◌>>◌}
use instructed.Store.{
  SubscriptionRow, WorkItemState, pending, claimed, failed, done, ItemKey, WorkItem, Store,
  RawEventRow, raise, order_by, find_snapshot, record_snapshot,
}
use instructed.Store.Subscriptions.{
  require_text, require_subscription, require_holder, names, update_subscription,
}

-- One element of `p_decisions`.
pub record Decision : Type 0 where
  pub partition_key : String
  pub event_number : ℕ

pub record RouteBatchRow : Type 0 where
  pub inserted_count : ℕ
  pub new_last_seen : ℕ

pub record ClaimedRow : Type 0 where
  pub partition_key : String
  pub event_number : ℕ
  pub claimed_by : String
  pub lease_expires_at : ℕ
  pub was_takeover : Bool
  pub prior_claimed_by : Option String

-- The columns of the primary key but the event number.
unfoldable pub same_partition : ItemKey → ItemKey → Bool
same_partition a b =
    (a.stream_uuid == b.stream_uuid)
    && (a.subscription_name == b.subscription_name)
    && (a.partition_key == b.partition_key)

unfoldable pub same_key : ItemKey → ItemKey → Bool
same_key a b = same_partition a b && beq a.event_number b.event_number

unfoldable pub on_subscription : String → String → WorkItem → Bool
on_subscription u name i = (i.key.stream_uuid == u) && (i.key.subscription_name == name)

-- `state in ('pending','claimed','failed')`
abbrev pub is_open : WorkItemState → Bool
is_open done = false
is_open _ = true

unfoldable pub find_item : ItemKey → List WorkItem → Option WorkItem
find_item k [] = none
find_item k (i ∷ is) = if same_key i.key k then some i else find_item k is

-- `exists (select 1 from subscription_work_items where …)`
unfoldable pub exists_item : (WorkItem → Bool) → List WorkItem → Bool
exists_item p [] = false
exists_item p (i ∷ is) = p i || exists_item p is

-- `update subscription_work_items set … where` the primary key is `k`
unfoldable pub update_item : ItemKey → (WorkItem → WorkItem) → List WorkItem → List WorkItem
update_item k f [] = []
update_item k f (i ∷ is) =
    let rest = update_item k f is in if same_key i.key k then f i ∷ rest else i ∷ rest

abbrev pub item_key : String → String → String → ℕ → ItemKey
item_key u name partition n = record {
  stream_uuid = u;
  subscription_name = name;
  partition_key = partition;
  event_number = n;
}

abbrev pub routed_item : ItemKey → WorkItem
routed_item k = record {
  key = k;
  state = pending;
  claimed_by = none;
  lease_expires_at = none;
  failed_at = none;
  error_text = none;
}

-- `insert … on conflict do nothing`
unfoldable pub insert_item : ItemKey → List WorkItem → List WorkItem
insert_item k items = insert (find_item k items)
  where
    insert : Option WorkItem → List WorkItem
    insert none = routed_item k ∷ items
    insert (some i) = items

unfoldable pub insert_items : String → String → List Decision → List WorkItem → List WorkItem
insert_items u name [] items = items
insert_items u name (d ∷ ds) items =
    insert_items u name ds (insert_item (item_key u name d.partition_key d.event_number) items)

abbrev pub is_null {ℓ} : {A : Type ℓ} → Option A → Bool
is_null none = true
is_null (some _) = false

abbrev pub is_claimed : WorkItemState → Bool
is_claimed claimed = true
is_claimed _ = false

abbrev pub is_failed : WorkItemState → Bool
is_failed failed = true
is_failed _ = false

abbrev pub iff : Bool → Bool → Bool
iff true b = b
iff false b = not b

-- The CHECK constraints that tie a row's columns to its state.
unfoldable pub checks : WorkItem → Bool
checks i =
    iff (is_claimed i.state) (not (is_null i.claimed_by) && not (is_null i.lease_expires_at))
    && iff (is_failed i.state) (not (is_null i.failed_at))
    && (is_null i.error_text || is_failed i.state)

-- An item that `claim_work_item` may pick as far as its own row says.
unfoldable pub is_claimable : ℕ → WorkItem → Bool
is_claimable now i = by_state i.state i.lease_expires_at
  where
    by_state : WorkItemState → Option ℕ → Bool
    by_state pending at = true
    by_state claimed (some at) = ltb at now
    by_state _ _ = false

-- An open item before `k` in its partition.
unfoldable pub blocks : ItemKey → WorkItem → Bool
blocks k i = same_partition i.key k && ltb i.key.event_number k.event_number && is_open i.state

-- The first of the least event number.
unfoldable pub least : List WorkItem → Option WorkItem
least [] = none
least (i ∷ is) = lesser (least is)
  where
    lesser : Option WorkItem → Option WorkItem
    lesser none = some i
    lesser (some j) = if leb i.key.event_number j.key.event_number then some i else some j

abbrev pub claimed_item : String → ℕ → WorkItem → WorkItem
claimed_item worker expires i = record i {
  state = claimed;
  claimed_by = some worker;
  lease_expires_at = some expires;
}

abbrev pub done_item : WorkItem → WorkItem
done_item i = record i { state = done; claimed_by = none; lease_expires_at = none }

abbrev pub failed_item : ℕ → Option String → WorkItem → WorkItem
failed_item now error_text i = record i {
  state = failed;
  failed_at = some now;
  error_text = error_text;
  claimed_by = none;
  lease_expires_at = none;
}

-- `c.prior`, where it is another worker.
abbrev pub taken_from : String → Option String → Option String
taken_from worker none = none
taken_from worker (some prior) = if prior == worker then none else some prior

abbrev pub is_some : Option String → Bool
is_some none = false
is_some (some _) = true

abbrev pub claimed_row : String → ℕ → WorkItem → ClaimedRow
claimed_row worker expires i = record {
  partition_key = i.key.partition_key;
  event_number = i.key.event_number;
  claimed_by = worker;
  lease_expires_at = expires;
  was_takeover = is_some (taken_from worker i.claimed_by);
  prior_claimed_by = taken_from worker i.claimed_by;
}

abbrev pub item_lost : String → String → Thrown
item_lost procedure why = raise "IS030" (procedure <> ": " <> why)

abbrev pub require_texts : String → String → ItemKey → Result (Unit {0})
require_texts procedure worker k = do
  require_text k.subscription_name (procedure <> ": p_subscription_name is null/empty")
  require_text worker (procedure <> ": p_worker_id is null/empty")

-- The row of a work item, held by the caller: IS030 where it is not.
abbrev pub held_item : String → String → Option WorkItem → Result WorkItem
held_item procedure worker none = throw (item_lost procedure "work item gone (takeover)")
held_item procedure worker (some i) =
    if names worker i.claimed_by then ok i else throw (item_lost procedure "lease lost")

abbrev pub require_claimed : WorkItem → Result (Unit {0})
require_claimed i =
    throw_if (not (is_claimed i.state)) (item_lost "extend_work_item_claim" "lease lost")

abbrev pub is_done : WorkItemState → Bool
is_done done = true
is_done _ = false

unfoldable pub done_before : ItemKey → List WorkItem → List WorkItem
done_before k items =
    select (λ i. same_partition i.key k && is_done i.state && ltb i.key.event_number k.event_number)
      items

module _ {D : Type 0} where
  -- The row of `$all` with an event number; every event has one.
  unfoldable pub events_at : ℕ → List (RawEventRow D) → List (RawEventRow D)
  events_at n log = select (λ r. beq r.event_number n) log

  unfoldable pub events_of : List WorkItem → List (RawEventRow D) → List (RawEventRow D)
  events_of [] log = []
  events_of (i ∷ is) log = events_at i.key.event_number log ++ events_of is log

-- ===== src/Store.antt =====
-- The event store behind the SDK (sql/instructed.sql): the procedures that the aggregate runner
-- calls. One `RawEventRow` stands for an event's rows in `events` and `stream_events`, joined as
-- `read_stream` and `read_all` join them; `log` holds them as they were inserted. The row of `$all`
-- in `streams` is `all_version`. A procedure that raises leaves the tables as they were (the
-- transaction is rolled back), so its result holds the new tables only beside a value.

pub mod Append
pub mod Valid
pub mod Read
pub mod Snapshots
pub mod Subscriptions
pub mod Queue
use instructed.Prelude.{
  ℕ, String, ◌==◌, Bool, not, Option, none, some, List, [], ◌∷◌, leb, beq, if◌then◌else◌, take,
  select,
}
use instructed.Types.{Snapshot, SnapshotInput}
use instructed.Json.{Json}
use instructed.Errors.{Thrown}
use instructed.Result.{Result, ok, throw, throw_if, ◌>>=◌, ◌>>◌}

pub record StreamRow : Type 0 where
  pub stream_uuid : String
  pub stream_version : ℕ

pub record RawEventRow (D : Type 0) : Type 0 where
  pub event_id : String
  pub event_number : ℕ
  pub stream_uuid : String
  pub stream_version : ℕ
  pub event_type : String
  pub causation_id : Option String
  pub correlation_id : Option String
  pub payload : D
  pub metadata : Option Json
  pub created_at : ℕ

pub record SubscriptionRow : Type 0 where
  pub stream_uuid : String
  pub subscription_name : String
  pub last_seen : ℕ
  pub claimed_by : Option String
  pub claim_expires_at : Option ℕ
  pub created_at : ℕ

pub data WorkItemState : Type 0 where
  pending claimed failed done : WorkItemState

-- The primary key of a work item.
pub record ItemKey : Type 0 where
  pub stream_uuid : String
  pub subscription_name : String
  pub partition_key : String
  pub event_number : ℕ

pub record WorkItem : Type 0 where
  pub key : ItemKey
  pub state : WorkItemState
  pub claimed_by : Option String
  pub lease_expires_at : Option ℕ
  pub failed_at : Option ℕ
  pub error_text : Option String

pub record Store (D S : Type 0) : Type 0 where
  pub streams : List StreamRow
  pub all_version : ℕ
  pub log : List (RawEventRow D)
  pub snapshots : List (Snapshot S)
  pub subscriptions : List SubscriptionRow
  pub work_items : List WorkItem
  -- The rows that a transaction still running holds locked: what `for update skip locked` passes over.
  pub subscription_locked : SubscriptionRow → Bool
  pub item_locked : WorkItem → Bool
  -- `now()`, in seconds
  pub now : ℕ

-- `raise exception … using errcode`
abbrev pub raise : String → String → Thrown
raise code message =
    Thrown.pg (record { code = some code; message = some message; detail = none; hint = none })

-- `select … from streams where stream_uuid = u`
unfoldable pub stream_version : String → List StreamRow → Option ℕ
stream_version u [] = none
stream_version u (r ∷ rs) =
    if r.stream_uuid == u then some r.stream_version else stream_version u rs

-- `insert … on conflict (stream_uuid) do update`
unfoldable pub set_version : String → ℕ → List StreamRow → List StreamRow
set_version u v [] = record { stream_uuid = u; stream_version = v } ∷ []
set_version u v (r ∷ rs) =
    if r.stream_uuid == u
    then record { stream_uuid = u; stream_version = v } ∷ rs
    else r ∷ set_version u v rs

module _ {A : Type 0} where
  unfoldable pub insert_by : (A → ℕ) → A → List A → List A
  insert_by key x [] = x ∷ []
  insert_by key x (y ∷ ys) =
      let rest = insert_by key x ys in if leb (key x) (key y) then x ∷ y ∷ ys else y ∷ rest

  -- `order by`
  unfoldable pub order_by : (A → ℕ) → List A → List A
  order_by key [] = []
  order_by key (x ∷ xs) = insert_by key x (order_by key xs)

module _ {D : Type 0} where
  -- The rows of one stream.
  unfoldable pub rows_of : String → List (RawEventRow D) → List (RawEventRow D)
  rows_of u log = select (λ r. r.stream_uuid == u) log

module _ {S : Type 0} where
  unfoldable pub find_snapshot : String → List (Snapshot S) → Option (Snapshot S)
  find_snapshot u [] = none
  find_snapshot u (r ∷ rs) = if r.source_uuid == u then some r else find_snapshot u rs

  unfoldable pub upsert_snapshot : Snapshot S → List (Snapshot S) → List (Snapshot S)
  upsert_snapshot x [] = x ∷ []
  upsert_snapshot x (r ∷ rs) =
      if r.source_uuid == x.source_uuid then x ∷ rs else r ∷ upsert_snapshot x rs

module _ {D S : Type 0} where
  unfoldable pub read_stream : String → ℕ → ℕ → Store D S → Result (List (RawEventRow D))
  read_stream u from_version qty s = do
    throw_if (u == "$all")
        (raise "IS005" "read_stream: stream_uuid '$all' is reserved; use read_all")
    throw_if (beq qty 0) (raise "22023" "read_stream: p_qty must be a positive integer")
    elim (stream_version u s.streams) [
      | none ↦ throw (raise "IS003" "read_stream: stream not found")
      | some _ ↦ ok (
          take qty (
            order_by (λ r. r.stream_version)
              (select (λ r. leb from_version r.stream_version) (rows_of u s.log))))
    ]

  unfoldable pub read_all : ℕ → ℕ → Store D S → Result (List (RawEventRow D))
  read_all from_number qty s = do
    throw_if (beq qty 0) (raise "22023" "read_all: p_qty must be a positive integer")
    ok (
        take qty
          (order_by (λ r. r.event_number) (select (λ r. leb from_number r.event_number) s.log)))

  unfoldable pub read_snapshot : String → Store D S → Result (Snapshot S)
  read_snapshot u s = elim (find_snapshot u s.snapshots) [
    | none ↦ throw (raise "IS010" "read_snapshot: snapshot not found")
    | some r ↦ ok r
  ]

  unfoldable pub record_snapshot : SnapshotInput S → Store D S → Result (Unit {0} × Store D S)
  record_snapshot x s = do
    throw_if (x.source_uuid == "") (raise "22023" "record_snapshot: p_source_uuid is null/empty")
    throw_if (x.source_type == "") (raise "22023" "record_snapshot: p_source_type is null/empty")
    ok (
      tt,
      record s {
        snapshots =
            upsert_snapshot
              (record {
                source_uuid = x.source_uuid;
                source_type = x.source_type;
                source_version = x.source_version;
                payload = x.payload;
                metadata = x.metadata;
                created_at = s.now;
              })
              s.snapshots;
      },
    )

  unfoldable pub delete_snapshot : String → Store D S → Result (Unit {0} × Store D S)
  delete_snapshot u s = ok (
    tt,
    record s { snapshots = select (λ (r : Snapshot S). not (r.source_uuid == u)) s.snapshots },
  )

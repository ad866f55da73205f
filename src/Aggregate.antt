-- ===== src/Aggregate.antt =====
-- The aggregate runner (sdks/typescript/src/aggregate/): the definition that an application writes,
-- and the load from snapshot and stream. The state type `S` is also the snapshots' payload: that
-- JSON gives a state back as it was written is taken for granted. Logging is not modelled.

pub mod Run
pub mod Snapshots
pub mod Replay
pub mod Load
pub mod Quiet
pub mod Rely
pub mod Serial
pub mod Occ
pub mod Retry
pub mod Applied
pub mod Truthful
use instructed.Prelude.{
  ℕ, zero, suc, String, ◌<>◌, ◌==◌, Bool, false, true, ◌&&◌, Option, none, some, List, [], ◌∷◌,
  length, ltb, leb, beq, if◌then◌else◌,
}
use instructed.Errors.{Thrown, is_stream_not_found, is_snapshot_not_found}
use instructed.Json.{Json, obj, lookup_field, as_string}
use instructed.Result.{Result, ok, throw, stuck, ◌>>=◌}
use instructed.Types.{NewEvent, RecordedEvent, Snapshot}
use instructed.Session.{Session, Io}
use instructed.Client

-- What `apply` is given. `metadata` is `none` where it is undefined, and `some none` where it is null, as it
-- is read back when it was undefined; an event has its `data`.
pub record DomainEvent (D : Type 0) : Type 0 where
  pub type : String
  pub payload : D
  pub metadata : Option (Option Json)

-- What `execute` returns: one event, an array of them, or `undefined`.
pub data Produced (D : Type 0) : Type 0 where
  one : NewEvent D → Produced D
  many : List (NewEvent D) → Produced D
  nothing : Produced D

pub record SnapshotPolicy (S : Type 0) : Type 0 where
  -- It may throw.
  pub should_snapshot : S → ℕ → ℕ → Result Bool

pub record AggregateDefinition (S C D : Type 0) : Type 0 where
  pub type : String
  pub stream_name : Option (String → String)
  pub initial_state : S
  -- `execute` and `apply` may throw.
  pub execute : S → C → Result (Produced D)
  pub apply : S → DomainEvent D → Result S
  pub snapshot_policy : Option (SnapshotPolicy S)
  pub snapshot_module_version : Option String

abbrev pub prefix_type : String → String → String
prefix_type type id = type <> "-" <> id

-- The default policy: `n` is an integer here, so that `everyN` refuses 0 alone.
abbrev pub every_n : {S : Type 0} → ℕ → Result (SnapshotPolicy S)
every_n n =
    if beq n 0
    then throw (Thrown.error "everyN: n must be a positive integer")
    else ok (record { should_snapshot = λ _ _ events_since_last. ok (leb n events_since_last) })

abbrev pub snapshot_module_version_key : String
snapshot_module_version_key = "$instructed.snapshot_module_version"

-- The module version in a snapshot's metadata, where it is an object with a text at the key.
abbrev pub snap_module_version : Option Json → Option String
snap_module_version (some (obj fields)) =
    as_string (lookup_field snapshot_module_version_key fields)
snap_module_version _ = none

-- `want === undefined ? snapModuleVersion === undefined : snapModuleVersion === want`
abbrev pub versions_match : Option String → Option String → Bool
versions_match none none = true
versions_match none (some _) = false
versions_match (some w) none = false
versions_match (some w) (some v) = v == w

module _ {D : Type 0} where
  abbrev pub recorded_to_domain : RecordedEvent D → DomainEvent D
  recorded_to_domain row = record {
    type = row.type;
    payload = row.payload;
    metadata = some row.metadata;
  }

  abbrev pub normalise_events : Produced D → List (NewEvent D)
  normalise_events nothing = []
  normalise_events (many es) = es
  normalise_events (one e) = e ∷ []

pub record LoadedAggregate (S : Type 0) : Type 0 where
  pub state : S
  pub version : ℕ
  pub events_since_snapshot : ℕ

module _ {S C D : Type 0} (def : AggregateDefinition S C D) where
  abbrev pub row_folded : LoadedAggregate S → RecordedEvent D → S → LoadedAggregate S
  row_folded l row state = record {
    state = state;
    version = row.stream_version;
    events_since_snapshot = suc l.events_since_snapshot;
  }

  abbrev pub fold_row : LoadedAggregate S → RecordedEvent D → Result (LoadedAggregate S)
  fold_row l row =
      def.apply l.state (recorded_to_domain row) >>= λ state. ok (row_folded l row state)

  -- The loop over a page; an error of `apply` ends it.
  abbrev pub fold_page :
      Result (LoadedAggregate S) → List (RecordedEvent D) → Result (LoadedAggregate S)
  fold_page r [] = r
  fold_page r (row ∷ rows) = fold_page (r >>= λ l. fold_row l row) rows

  abbrev pub initially : LoadedAggregate S
  initially = record { state = def.initial_state; version = 0; events_since_snapshot = 0 }

  -- The snapshot, or the initial state on a miss or on another module version.
  abbrev pub from_snapshot : Result (Snapshot S) → Result (LoadedAggregate S)
  from_snapshot (ok snap) =
      if versions_match def.snapshot_module_version (snap_module_version snap.metadata)
      then ok (record {
        state = snap.payload;
        version = snap.source_version;
        events_since_snapshot = 0;
      })
      else ok initially
  from_snapshot (throw e) = if is_snapshot_not_found e then ok initially else throw e
  from_snapshot stuck = stuck

  -- What a page does to the loop: stop, fail, or go on with the rows folded in.
  abbrev pub stops_at : Thrown → LoadedAggregate S → Result (LoadedAggregate S)
  stops_at e l = if is_stream_not_found e && beq l.version 0 then ok l else throw e

  abbrev pub then_next :
      (LoadedAggregate S → Io D S (LoadedAggregate S))
      → Result (LoadedAggregate S)
      → Io D S (LoadedAggregate S)
  then_next next (ok l) w = next l w
  then_next next (throw e) w = (throw e, w)
  then_next next stuck w = (stuck, w)

  -- One round of the paging loop, after its read; `next` is the rest of the loop.
  abbrev pub after_page :
      (LoadedAggregate S → Io D S (LoadedAggregate S))
      → ℕ
      → LoadedAggregate S
      → Result (List (RecordedEvent D)) × Session D S
      → Result (LoadedAggregate S) × Session D S
  after_page next size l (throw e, w) = (stops_at e l, w)
  after_page next size l (stuck, w) = (stuck, w)
  after_page next size l (ok page, w) =
      let rest = then_next next (fold_page (ok l) page) w in
      if beq (length page) 0
      then (ok l, w)
      else if ltb (length page) size
      then (fold_page (ok l) page, w)
      else rest

  -- The paging loop, on fuel: `while (true)`. `size` is `LOAD_PAGE_SIZE`.
  unfoldable pub load_pages : ℕ → ℕ → String → LoadedAggregate S → Io D S (LoadedAggregate S)
  load_pages zero size u l w = (stuck, w)
  load_pages (suc fuel) size u l w =
      after_page (load_pages fuel size u) size l (Client.read_stream u (suc l.version) size w)

  abbrev pub then_load : ℕ → ℕ → String → Result (LoadedAggregate S) → Io D S (LoadedAggregate S)
  then_load fuel size u (ok l) w = load_pages fuel size u l w
  then_load fuel size u (throw e) w = (throw e, w)
  then_load fuel size u stuck w = (stuck, w)

  unfoldable pub load_aggregate : ℕ → ℕ → String → Io D S (LoadedAggregate S)
  load_aggregate fuel size u w =
      let (snap, w') = Client.read_snapshot u w in then_load fuel size u (from_snapshot snap) w'

-- `LOAD_PAGE_SIZE`
abbrev pub load_page_size : ℕ
load_page_size = 500

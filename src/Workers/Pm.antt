-- ===== src/Workers/Pm.antt =====
-- The process-manager substrate (sdks/typescript/src/workers/pm/pm-substrate.ts): the two callbacks that it
-- hands to the processing worker. The state of a process manager is not JSON's null;
-- `apply` and `handle` are user code that may throw, and `handle` may use the same client.
pub mod Staged
pub mod Dispatch
use instructed.Prelude.{
  ℕ, String, ◌==◌, ◌<>◌, Bool, true, false, not, Option, none, some, List, [], ◌∷◌, foldl,
  if◌then◌else◌, select, get_or_else,
}
use instructed.Errors.{Thrown, is_snapshot_not_found}
use instructed.Result.{Result, ok, throw, stuck, ◌>>=◌}
use instructed.Types.{RecordedEvent, Snapshot, SnapshotInput}
use instructed.Session.{Session, Io}
use instructed.Client as Client
use instructed.Client.Queue as ClientQueue
use instructed.Client.Queue.{CompletePmInstanceResult}
use instructed.Aggregate.{prefix_type, versions_match, snap_module_version}
use instructed.Aggregate.Snapshots.{version_metadata}

-- `ProcessingHandlerContext`, without the signal and the logger.
pub record ProcessingHandlerContext : Type 0 where
  pub worker_id : String
  pub partition_key : String
  pub event_number : ℕ
  pub attempt : ℕ

pub record PmSubstrateDefinition (S D : Type 0) : Type 0 where
  pub type : String
  pub stream_name : Option (String → String)
  pub stream : Option String
  pub initial_state : S
  pub apply : S → RecordedEvent D → Result S
  -- The Boolean is `result.complete === true`.
  pub handle : S → RecordedEvent D → ProcessingHandlerContext → Io D S Bool
  pub snapshot_module_version : Option String

pub record StagedWork (S : Type 0) : Type 0 where
  pub source_uuid : String
  pub staged_state : S
  pub complete : Bool

-- The `Map` from a key to the work staged under it.
abbrev pub Staged : Type 0 → Type 0
Staged S = List (String × StagedWork S)

module _ {S : Type 0} where
  unfoldable pub get : String → Staged S → Option (StagedWork S)
  get k [] = none
  get k ((q, x) ∷ rest) = if q == k then some x else get k rest

  unfoldable pub set : String → StagedWork S → Staged S → Staged S
  set k x [] = (k, x) ∷ []
  set k x ((q, y) ∷ rest) = if q == k then (q, x) ∷ rest else (q, y) ∷ set k x rest

  unfoldable pub delete : String → Staged S → Staged S
  delete k staged = select (λ (e : String × StagedWork S). not (e.0 == k)) staged

-- `decimal` is `toString` of a bigint.
abbrev pub key : (ℕ → String) → String → ℕ → String
key decimal partition n = partition <> ":" <> decimal n

module _ {S D : Type 0} (def : PmSubstrateDefinition S D) where
  abbrev pub stream_of : String
  stream_of = get_or_else def.stream "$all"

  abbrev pub source_uuid_of : String → String
  source_uuid_of = get_or_else def.stream_name (prefix_type def.type)

  abbrev pub fold_events : Result S → List (RecordedEvent D) → Result S
  fold_events r [] = r
  fold_events r (e ∷ es) = fold_events (r >>= λ state. def.apply state e) es

  abbrev pub folded : Result (List (RecordedEvent D)) × Session D S → Result S × Session D S
  folded (ok events, w) = (fold_events (ok def.initial_state) events, w)
  folded (throw e, w) = (throw e, w)
  folded (stuck, w) = (stuck, w)

  -- The state from the events done before.
  unfoldable pub rebuild : String → ℕ → Io D S S
  rebuild partition n w =
      folded (ClientQueue.list_pm_rebuild_events stream_of def.type partition n w)

  abbrev pub from_snapshot : Bool → S → String → ℕ → Io D S S
  from_snapshot true state partition n w = (ok state, w)
  from_snapshot false state partition n w = rebuild partition n w

  abbrev pub if_missing : Bool → Thrown → String → ℕ → Io D S S
  if_missing true e partition n w = rebuild partition n w
  if_missing false e partition n w = (throw e, w)

  -- What follows `readSnapshot`.
  abbrev pub after_read : String → ℕ → Result (Snapshot S) × Session D S → Result S × Session D S
  after_read partition n (ok snap, w) =
      from_snapshot (versions_match def.snapshot_module_version (snap_module_version snap.metadata))
        snap.payload partition n w
  after_read partition n (throw e, w) = if_missing (is_snapshot_not_found e) e partition n w
  after_read partition n (stuck, w) = (stuck, w)

  unfoldable pub load_state : String → String → ℕ → Io D S S
  load_state source_uuid partition n w = after_read partition n (Client.read_snapshot source_uuid w)

  module _ (decimal : ℕ → String) (event : RecordedEvent D) (ctx : ProcessingHandlerContext) where
    abbrev pub staged_work : S → Bool → StagedWork S
    staged_work state complete = record {
      source_uuid = source_uuid_of ctx.partition_key;
      staged_state = state;
      complete = complete;
    }

    -- What follows `def.handle`.
    abbrev pub after_handle :
        S → Staged S → Result Bool × Session D S → Result (Unit {0}) × (Staged S × Session D S)
    after_handle state staged (ok complete, w) = (
      ok tt,
      (set (key decimal ctx.partition_key ctx.event_number) (staged_work state complete) staged, w),
    )
    after_handle state staged (throw e, w) = (throw e, (staged, w))
    after_handle state staged (stuck, w) = (stuck, (staged, w))

    abbrev pub after_apply :
        Staged S → Result S → Session D S → Result (Unit {0}) × (Staged S × Session D S)
    after_apply staged (ok state) w = after_handle state staged (def.handle state event ctx w)
    after_apply staged (throw e) w = (throw e, (staged, w))
    after_apply staged stuck w = (stuck, (staged, w))

    abbrev pub after_load :
        Staged S → Result S × Session D S → Result (Unit {0}) × (Staged S × Session D S)
    after_load staged (ok base, w) = after_apply staged (def.apply base event) w
    after_load staged (throw e, w) = (throw e, (staged, w))
    after_load staged (stuck, w) = (stuck, (staged, w))

    -- `adapted.handle`
    unfoldable pub handle : Staged S × Session D S → Result (Unit {0}) × (Staged S × Session D S)
    handle (staged, w) =
        after_load staged
          (load_state (source_uuid_of ctx.partition_key) ctx.partition_key ctx.event_number w)

    abbrev pub pm_snapshot : StagedWork S → SnapshotInput S
    pm_snapshot entry = record {
      source_uuid = entry.source_uuid;
      source_type = def.type;
      source_version = event.event_number;
      payload = entry.staged_state;
      metadata = version_metadata def.snapshot_module_version;
    }

    abbrev pub forget :
        Result CompletePmInstanceResult × Session D S → Result (Unit {0}) × Session D S
    forget (ok _, w) = (ok tt, w)
    forget (throw e, w) = (throw e, w)
    forget (stuck, w) = (stuck, w)

    -- The calls of `complete` on the entry staged.
    abbrev pub persist : Bool → StagedWork S → Io D S (Unit {0})
    persist true entry w =
        forget (
          ClientQueue.complete_pm_instance stream_of def.type ctx.partition_key entry.source_uuid w)
    persist false entry w =
        ClientQueue.complete_work_item_pm stream_of def.type ctx.worker_id ctx.partition_key
          ctx.event_number (pm_snapshot entry) w

    abbrev pub beside :
        Staged S → Result (Unit {0}) × Session D S → Result (Unit {0}) × (Staged S × Session D S)
    beside staged (r, w) = (r, (staged, w))

    abbrev pub complete_entry :
        Option (StagedWork S)
        → Staged S × Session D S
        → Result (Unit {0}) × (Staged S × Session D S)
    complete_entry none (staged, w) = (
      throw (
          Thrown.error (
            "pm substrate: no staged state for "
            <> ctx.partition_key
            <> "/"
            <> decimal ctx.event_number
            <> "; this is a bug")),
      (staged, w),
    )
    complete_entry (some entry) (staged, w) =
        beside (delete (key decimal ctx.partition_key ctx.event_number) staged)
          (persist entry.complete entry w)

    -- `adapted.complete`
    unfoldable pub complete : Staged S × Session D S → Result (Unit {0}) × (Staged S × Session D S)
    complete (staged, w) =
        complete_entry (get (key decimal ctx.partition_key ctx.event_number) staged) (staged, w)

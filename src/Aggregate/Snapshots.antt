-- ===== src/Aggregate/Snapshots.antt =====
-- `runCommandAndApply` (aggregate/run-command.ts) and `runCommandWithSnapshots`
-- (aggregate/snapshots.ts). The warning about a snapshot that could not be written is not modelled.
use instructed.Prelude.{
  ℕ, ◌+◌, String, Bool, false, true, Option, none, some, List, [], ◌∷◌, length,
}
use instructed.Errors.{Thrown}
use instructed.Json.{Json, obj, field, end, str}
use instructed.Result.{Result, ok, throw, stuck, ◌>>=◌}
use instructed.Types.{NewEvent, AppendedEvent, SnapshotInput}
use instructed.Session.{Platform, Io}
use instructed.Client
use instructed.Aggregate.{AggregateDefinition, SnapshotPolicy, snapshot_module_version_key}
use instructed.Aggregate.Run.{RunCommandOptions, ExecutedCommand, to_domain, execute_command}

pub record RanCommand (S : Type 0) : Type 0 where
  pub appended : List AppendedEvent
  pub state : S
  pub version : ℕ
  pub events_since_snapshot : ℕ

-- `appended[appended.length - 1].stream_version`
abbrev pub last_version : List AppendedEvent → Option ℕ
last_version [] = none
last_version (a ∷ []) = some a.stream_version
last_version (a ∷ b ∷ rest) = last_version (b ∷ rest)

abbrev pub version_metadata : Option String → Option Json
version_metadata none = none
version_metadata (some v) = some (obj (field snapshot_module_version_key (str v) end))

module _ {S C D : Type 0} (def : AggregateDefinition S C D) where
  -- The loop over the events appended; an error of `apply` ends it.
  abbrev pub fold_filled : Result S → List (NewEvent D) → Result S
  fold_filled r [] = r
  fold_filled r (e ∷ es) = fold_filled (r >>= λ state. def.apply state (to_domain e)) es

  abbrev pub ran_at : ExecutedCommand S D → Option ℕ → S → Result (RanCommand S)
  ran_at r none state = throw (Thrown.error "Cannot read properties of undefined")
  ran_at r (some version) state = ok (record {
    appended = r.appended;
    state = state;
    version = version;
    events_since_snapshot = r.loaded_events_since_snapshot + length r.appended;
  })

  abbrev pub ran_no_op : ExecutedCommand S D → Result (RanCommand S)
  ran_no_op r = ok (record {
    appended = r.appended;
    state = r.loaded_state;
    version = r.loaded_version;
    events_since_snapshot = r.loaded_events_since_snapshot;
  })

  abbrev pub ran_unless : Bool → ExecutedCommand S D → Result (RanCommand S)
  ran_unless true r = ran_no_op r
  ran_unless false r =
      fold_filled (ok r.loaded_state) r.filled >>= ran_at r (last_version r.appended)

  abbrev pub apply_appended : Result (ExecutedCommand S D) → Result (RanCommand S)
  apply_appended (ok r) = ran_unless r.no_op r
  apply_appended (throw e) = throw e
  apply_appended stuck = stuck

module _ {S C D : Type 0} (p : Platform) (def : AggregateDefinition S C D) (u : String) where
  abbrev pub snapshot_input : RanCommand S → SnapshotInput S
  snapshot_input r = record {
    source_uuid = u;
    source_type = def.type;
    source_version = r.version;
    payload = r.state;
    metadata = version_metadata def.snapshot_module_version;
  }

  abbrev pub wants_snapshot : Option (SnapshotPolicy S) → RanCommand S → Result Bool
  wants_snapshot none r = ok false
  wants_snapshot (some policy) r = policy.should_snapshot r.state r.version r.events_since_snapshot

  -- Whatever `recordSnapshot` does, the command has its result: a failure is only logged.
  -- An error of the policy is not: the call stands outside the `try`.
  abbrev pub snapshot_if : Result Bool → RanCommand S → Io D S (List AppendedEvent)
  snapshot_if (ok false) r w = (ok r.appended, w)
  snapshot_if (ok true) r w = (ok r.appended, (Client.record_snapshot (snapshot_input r) w).1)
  snapshot_if (throw e) r w = (throw e, w)
  snapshot_if stuck r w = (stuck, w)

  abbrev pub consider_snapshot : RanCommand S → List AppendedEvent → Io D S (List AppendedEvent)
  consider_snapshot r [] w = (ok r.appended, w)
  consider_snapshot r (a ∷ as') w = snapshot_if (wants_snapshot def.snapshot_policy r) r w

  abbrev pub after_run : Result (RanCommand S) → Io D S (List AppendedEvent)
  after_run (ok r) w = consider_snapshot r r.appended w
  after_run (throw e) w = (throw e, w)
  after_run stuck w = (stuck, w)

  module _ (command : C) (opts : RunCommandOptions) where
    unfoldable pub run_command_and_apply : ℕ → Io D S (RanCommand S)
    run_command_and_apply fuel w =
        let (r, w') = execute_command p def u command opts fuel w in (apply_appended def r, w')

    unfoldable pub run_command_with_snapshots : ℕ → Io D S (List AppendedEvent)
    run_command_with_snapshots fuel w = let (r, w') = run_command_and_apply fuel w in after_run r w'

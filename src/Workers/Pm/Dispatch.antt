-- ===== src/Workers/Pm/Dispatch.antt =====
-- The process-manager worker (sdks/typescript/src/workers/pm/pm-worker.ts): a substrate whose `handle`
-- dispatches the commands that the user's `handle` returns. The aggregates share their types of states,
-- commands and events; traces are not modelled.
use instructed.Prelude.{
  ℕ, String, ◌==◌, ◌<>◌, ◌≡◌, refl, ap, Bool, Option, none, some, List, [], ◌∷◌, ◌++◌,
  if◌then◌else◌, get_or_else,
}
use instructed.Errors.{Thrown}
use instructed.Result.{Result, ok, throw, stuck}
use instructed.Types.{RecordedEvent, AppendedEvent}
use instructed.Session.{Session, Platform, Io}
use instructed.Aggregate.{AggregateDefinition, prefix_type}
use instructed.Aggregate.Run.{RunCommandOptions}
use instructed.Aggregate.Snapshots.{run_command_with_snapshots}
use instructed.Facade.{CommandTarget}
use instructed.Workers.Pm.{
  ProcessingHandlerContext, PmSubstrateDefinition, Staged, source_uuid_of, load_state, handle,
}

-- The two shapes that `isExplicitDispatch` tells apart.
pub data DispatchedCommand (S C D : Type 0) : Type 0 where
  explicit :
      (stream_uuid : String) (aggregate : AggregateDefinition S C D) (command : C)
      → DispatchedCommand S C D
  lean : C → DispatchedCommand S C D

pub record PmHandleResult (S C D : Type 0) : Type 0 where
  pub commands : Option (List (DispatchedCommand S C D))
  pub complete : Bool

pub record PmDefinition (S C D : Type 0) : Type 0 where
  pub type : String
  pub stream_name : Option (String → String)
  pub stream : Option String
  pub initial_state : S
  pub apply : S → RecordedEvent D → Result S
  pub handle : S → RecordedEvent D → ProcessingHandlerContext → Io D S (PmHandleResult S C D)
  pub snapshot_module_version : Option String

pub record PmWorkerOptions (S C D : Type 0) : Type 0 where
  pub router : Option (C → Result CommandTarget)
  pub aggregates : Option (List (String × AggregateDefinition S C D))

pub record Dispatch (S C D : Type 0) : Type 0 where
  pub aggregate : AggregateDefinition S C D
  pub stream_uuid : String
  pub command : C

abbrev pub no_router : Thrown
no_router =
    Thrown.error
      "startPmWorker: handle returned a lean command (no `aggregate`/`streamUuid`) but no `router`/`aggregates` were supplied. Configure a CommandRouter (see `commandRouter()`) and pass it via PmWorkerOptions, or emit the explicit { aggregate, streamUuid, command } shape."

module _ {S C D : Type 0} where
  abbrev pub find_aggregate :
      String → List (String × AggregateDefinition S C D) → Option (AggregateDefinition S C D)
  find_aggregate type [] = none
  find_aggregate type ((t, def) ∷ rest) = if t == type then some def else find_aggregate type rest

  module _ (type_of : C → String) where
    abbrev pub with_aggregate :
        C → CommandTarget → Option (AggregateDefinition S C D) → Result (Dispatch S C D)
    with_aggregate command route none = throw (
        Thrown.error (
          "startPmWorker: command router resolved \""
          <> type_of command
          <> "\" to aggregate type \""
          <> route.aggregate_type
          <> "\", which is not registered."))
    with_aggregate command route (some def) = ok (record {
      aggregate = def;
      stream_uuid = get_or_else def.stream_name (prefix_type def.type) route.aggregate_id;
      command = command;
    })

    abbrev pub with_route :
        List (String × AggregateDefinition S C D)
        → C
        → Result CommandTarget
        → Result (Dispatch S C D)
    with_route aggregates command (ok route) =
        with_aggregate command route (find_aggregate route.aggregate_type aggregates)
    with_route aggregates command (throw e) = throw e
    with_route aggregates command stuck = stuck

    -- The lean form, resolved through the router.
    abbrev pub resolve_lean :
        Option (C → Result CommandTarget)
        → Option (List (String × AggregateDefinition S C D))
        → C
        → Result (Dispatch S C D)
    resolve_lean (some router) (some aggregates) command =
        with_route aggregates command (router command)
    resolve_lean (some router) none command = throw no_router
    resolve_lean none aggregates command = throw no_router

    unfoldable pub resolve_dispatch :
        DispatchedCommand S C D → PmWorkerOptions S C D → Result (Dispatch S C D)
    resolve_dispatch (explicit u aggregate command) opts =
        ok (record { aggregate = aggregate; stream_uuid = u; command = command })
    resolve_dispatch (lean command) opts = resolve_lean opts.router opts.aggregates command

module _ {S C D : Type 0} (p : Platform) (type_of : C → String) (fuel : ℕ)
    (opts : PmWorkerOptions S C D) (event : RecordedEvent D) where
  abbrev pub dispatch_options : RunCommandOptions
  dispatch_options = record {
    retry_budget = none;
    expected_version = none;
    command_id = none;
    causation_id = some event.event_id;
    correlation_id = event.correlation_id;
  }

  abbrev pub run_dispatch : Result (Dispatch S C D) → Io D S (List AppendedEvent)
  run_dispatch (ok d) w =
      run_command_with_snapshots p d.aggregate d.stream_uuid d.command dispatch_options fuel w
  run_dispatch (throw e) w = (throw e, w)
  run_dispatch stuck w = (stuck, w)

  -- One turn of the loop over the commands.
  unfoldable pub dispatch_one : DispatchedCommand S C D → Io D S (List AppendedEvent)
  dispatch_one c w = run_dispatch (resolve_dispatch type_of c opts) w

  abbrev pub then_rest :
      (Session D S → Result (Unit {0}) × Session D S)
      → Result (List AppendedEvent) × Session D S
      → Result (Unit {0}) × Session D S
  then_rest rest (ok _, w) = rest w
  then_rest rest (throw e, w) = (throw e, w)
  then_rest rest (stuck, w) = (stuck, w)

  unfoldable pub dispatch_all : List (DispatchedCommand S C D) → Io D S (Unit {0})
  dispatch_all [] w = (ok tt, w)
  dispatch_all (c ∷ cs) w = then_rest (dispatch_all cs) (dispatch_one c w)

  abbrev pub done_with : Bool → Result (Unit {0}) × Session D S → Result Bool × Session D S
  done_with complete (ok _, w) = (ok complete, w)
  done_with complete (throw e, w) = (throw e, w)
  done_with complete (stuck, w) = (stuck, w)

  -- What follows the user's `handle`.
  abbrev pub dispatch_result :
      Result (PmHandleResult S C D) × Session D S → Result Bool × Session D S
  dispatch_result (ok r, w) = done_with r.complete (dispatch_all (get_or_else r.commands []) w)
  dispatch_result (throw e, w) = (throw e, w)
  dispatch_result (stuck, w) = (stuck, w)

-- The substrate that `startPmWorker` starts.
unfoldable pub substrate_def :
    {S C D : Type 0}
    → Platform
    → (C → String)
    → ℕ
    → PmWorkerOptions S C D
    → PmDefinition S C D
    → PmSubstrateDefinition S D
substrate_def p type_of fuel opts def = record {
  type = def.type;
  stream_name = def.stream_name;
  stream = def.stream;
  initial_state = def.initial_state;
  apply = def.apply;
  handle =
      λ state event ctx w. dispatch_result p type_of fuel opts event (def.handle state event ctx w);
  snapshot_module_version = def.snapshot_module_version;
}

module _ {S C D : Type 0} (p : Platform) (type_of : C → String) (fuel : ℕ)
    (opts : PmWorkerOptions S C D) (event : RecordedEvent D) where
  -- The loop over a list is the loop over its first part, then the rest.
  dispatch_all-append :
      (cs ds : List (DispatchedCommand S C D)) (w w' : Session D S)
      → dispatch_all p type_of fuel opts event cs w ≡ (ok tt, w')
      → dispatch_all p type_of fuel opts event (cs ++ ds) w
        ≡ dispatch_all p type_of fuel opts event ds w'
  unfolding dispatch_all
  dispatch_all-append [] ds w w' h =
      let same : w ≡ w' = cc in ap (λ v. dispatch_all p type_of fuel opts event ds v) same
  dispatch_all-append (c ∷ cs) ds w w' h =
      turn (dispatch_one p type_of fuel opts event c w) (λ v. dispatch_all-append cs ds v w') h
    where
      turn :
          (q : Result (List AppendedEvent) × Session D S)
          → ((v : Session D S)
              → dispatch_all p type_of fuel opts event cs v ≡ (ok tt, w')
              → dispatch_all p type_of fuel opts event (cs ++ ds) v
                ≡ dispatch_all p type_of fuel opts event ds w')
          → then_rest p type_of fuel opts event (dispatch_all p type_of fuel opts event cs) q
            ≡ (ok tt, w')
          → then_rest p type_of fuel opts event
              (dispatch_all p type_of fuel opts event (cs ++ ds))
              q
            ≡ dispatch_all p type_of fuel opts event ds w'
      turn (ok a, v) onward e = onward v e
      turn (throw t, v) onward e = absurd cc
      turn (stuck, v) onward e = absurd cc

  -- When a process manager's `handle` returns commands of which the first ones are dispatched
  -- and the next one fails, the substrate's `handle` throws that error: the commands after it
  -- are not dispatched, and nothing is staged.
  pub substrate_def-fails :
      (def : PmDefinition S C D) (decimal : ℕ → String) (ctx : ProcessingHandlerContext)
      (cs ds : List (DispatchedCommand S C D)) (c : DispatchedCommand S C D) (complete : Bool)
      (base state : S) (e : Thrown) (staged : Staged S) (w w0 w1 w2 w3 : Session D S)
      → load_state
          (substrate_def p type_of fuel opts def)
          (source_uuid_of (substrate_def p type_of fuel opts def) ctx.partition_key)
          ctx.partition_key
          ctx.event_number
          w
        ≡ (ok base, w0)
      → def.apply base event ≡ ok state
      → def.handle state event ctx w0
        ≡ (ok (record { commands = some (cs ++ c ∷ ds); complete = complete }), w1)
      → dispatch_all p type_of fuel opts event cs w1 ≡ (ok tt, w2)
      → dispatch_one p type_of fuel opts event c w2 ≡ (throw e, w3)
      → handle (substrate_def p type_of fuel opts def) decimal event ctx (staged, w)
        ≡ (throw e, (staged, w3))
  unfolding handle substrate_def dispatch_all
  substrate_def-fails def decimal ctx cs ds c complete base state e staged w w0 w1 w2 w3 loads
        applied handles before fails =
      let onward = dispatch_all-append cs (c ∷ ds) w1 w2 before in
      rw (loads, applied, handles, onward, fails) refl

-- ===== src/Facade/Registry.antt =====
-- The registry and `dispatch` of the facade (sdks/typescript/src/facade/instructed.ts), and how it finds the
-- options of a worker. Aggregates share their types; a number among the options is a natural; logging, and the
-- starting and stopping of workers, are not modelled.
use instructed.Prelude.{
  ℕ, String, ◌==◌, ◌<>◌, ◌≡◌, refl, Option, none, some, List, [], ◌∷◌, ◌++◌, or_else, get_or_else,
  if◌then◌else◌, arith, eq_iff,
}
use instructed.Prelude.Int.{ℤ}
use instructed.Errors.{Thrown}
use instructed.Result.{Result, ok, throw, stuck}
use instructed.Types.{AppendedEvent, ExpectedVersion}
use instructed.Session.{Session, Platform, Io}
use instructed.Aggregate.{AggregateDefinition, prefix_type}
use instructed.Aggregate.Run.{RunCommandOptions, default_retry_budget}
use instructed.Aggregate.Snapshots.{run_command_with_snapshots}
use instructed.Consistency.{SubscriptionRef, wait_for_projection}
use instructed.Facade.{CommandTarget, PartitionBy, sequential, routing_fn_for_partition_by}
use instructed.Workers.Routing.{RoutingFn}

-- An entry of `opts.consistency`: a name is one on `$all`.
pub data ConsistencyEntry : Type 0 where
  by_name : String → ConsistencyEntry
  by_ref : SubscriptionRef → ConsistencyEntry

abbrev pub normalise_consistency : List ConsistencyEntry → List SubscriptionRef
normalise_consistency [] = []
normalise_consistency (by_name name ∷ rest) =
    record { stream = "$all"; name = name } ∷ normalise_consistency rest
normalise_consistency (by_ref s ∷ rest) = s ∷ normalise_consistency rest

pub record DispatchOptions : Type 0 where
  pub consistency : List ConsistencyEntry
  pub consistency_timeout : Option ℕ
  pub retry_budget : Option ℤ
  pub expected_version : Option ExpectedVersion

-- What `dispatch` needs of the registry.
pub record Registry (S C D : Type 0) : Type 0 where
  pub aggregates : List (String × AggregateDefinition S C D)
  pub command_router : Option (C → Result CommandTarget)

-- The two ways to call `dispatch`.
pub data Call (C : Type 0) : Type 0 where
  named : (aggregate_type id : String) (command : C) → Call C
  lean : (command : C) → Call C

pub record Target (S C D : Type 0) : Type 0 where
  pub aggregate : AggregateDefinition S C D
  pub stream_uuid : String
  pub command : C

-- `runOpts`
abbrev pub run_options : DispatchOptions → RunCommandOptions
run_options opts = record {
  retry_budget = some (get_or_else opts.retry_budget default_retry_budget);
  expected_version = opts.expected_version;
  command_id = none;
  causation_id = none;
  correlation_id = none;
}

module _ {D S : Type 0} (wait_fuel : ℕ) (clock : ℕ → ℕ) (opts : DispatchOptions) where
  abbrev pub returning :
      List AppendedEvent
      → Result (Unit {0}) × Session D S
      → Result (List AppendedEvent) × Session D S
  returning appended (ok _, w) = (ok appended, w)
  returning appended (throw e, w) = (throw e, w)
  returning appended (stuck, w) = (stuck, w)

  -- What follows `runCommandWithSnapshots`; no events, or no subscriptions, is no wait.
  abbrev pub after_run :
      Result (List AppendedEvent) × Session D S → Result (List AppendedEvent) × Session D S
  after_run (throw e, w) = (throw e, w)
  after_run (stuck, w) = (stuck, w)
  after_run (ok appended, w) = returning appended (
      wait_for_projection clock wait_fuel
        (record { poll_interval = none; timeout = opts.consistency_timeout }) appended
        (normalise_consistency opts.consistency) w)

module _ {S C D : Type 0} where
  abbrev pub get_aggregate :
      String → List (String × AggregateDefinition S C D) → Option (AggregateDefinition S C D)
  get_aggregate type [] = none
  get_aggregate type ((t, def) ∷ rest) = if t == type then some def else get_aggregate type rest

  abbrev pub add_aggregate :
      AggregateDefinition S C D
      → Registry S C D
      → Option (AggregateDefinition S C D)
      → Result (Registry S C D)
  add_aggregate def r (some _) = throw (
      Thrown.error
        ("Instructed.register: aggregate type \"" <> def.type <> "\" already registered"))
  add_aggregate def r none = ok (record r { aggregates = r.aggregates ++ (def.type, def) ∷ [] })

  unfoldable pub register_aggregate :
      AggregateDefinition S C D → Registry S C D → Result (Registry S C D)
  register_aggregate def r = add_aggregate def r (get_aggregate def.type r.aggregates)

  abbrev pub set_router :
      (C → Result CommandTarget)
      → Registry S C D
      → Option (C → Result CommandTarget)
      → Result (Registry S C D)
  set_router router r (some _) =
      throw (Thrown.error "Instructed.register: a command router is already registered")
  set_router router r none = ok (record r { command_router = some router })

  unfoldable pub register_command_router :
      (C → Result CommandTarget) → Registry S C D → Result (Registry S C D)
  register_command_router router r = set_router router r r.command_router

  abbrev pub on_aggregate :
      String → String → C → Option (AggregateDefinition S C D) → Result (Target S C D)
  on_aggregate type id command none = throw (Thrown.unknown_aggregate_type type)
  on_aggregate type id command (some def) = ok (record {
    aggregate = def;
    stream_uuid = get_or_else def.stream_name (prefix_type def.type) id;
    command = command;
  })

  abbrev pub on_route : Registry S C D → C → Result CommandTarget → Result (Target S C D)
  on_route r command (ok route) =
      on_aggregate route.aggregate_type route.aggregate_id command
        (get_aggregate route.aggregate_type r.aggregates)
  on_route r command (throw e) = throw e
  on_route r command stuck = stuck

  abbrev pub through :
      Registry S C D → C → Option (C → Result CommandTarget) → Result (Target S C D)
  through r command none = throw (
      Thrown.error
        "Instructed.dispatch: no command router registered. Call `register(router)` first, or use the explicit `dispatch(aggregateType, id, command, opts?)` overload.")
  through r command (some router) = on_route r command (router command)

  -- The aggregate, the stream and the command of a call.
  unfoldable pub target_of : Registry S C D → Call C → Result (Target S C D)
  target_of r (named type id command) =
      on_aggregate type id command (get_aggregate type r.aggregates)
  target_of r (lean command) = through r command r.command_router

  module _ (p : Platform) (fuel wait_fuel : ℕ) (clock : ℕ → ℕ) (opts : DispatchOptions) where
    abbrev pub run_target : Result (Target S C D) → Io D S (List AppendedEvent)
    run_target (ok t) w =
        after_run wait_fuel clock opts (
          run_command_with_snapshots p t.aggregate t.stream_uuid t.command (run_options opts) fuel
            w)
    run_target (throw e) w = (throw e, w)
    run_target stuck w = (stuck, w)

    unfoldable pub dispatch : Registry S C D → Call C → Io D S (List AppendedEvent)
    dispatch r call w = run_target (target_of r call) w

pub record WorkerOptions : Type 0 where
  pub batch_size : Option ℕ
  pub lease_seconds : Option ℕ
  pub heartbeat_interval : Option ℕ
  pub poll_interval : Option ℕ

pub record PollOptions : Type 0 where
  pub defaults : Option WorkerOptions
  pub workers : List (String × WorkerOptions)

abbrev pub default_worker_options : WorkerOptions
default_worker_options = record {
  batch_size = some 100;
  lease_seconds = some 30;
  heartbeat_interval = none;
  poll_interval = some 200;
}

abbrev pub worker_options : String → List (String × WorkerOptions) → Option WorkerOptions
worker_options name [] = none
worker_options name ((n, o) ∷ rest) = if n == name then some o else worker_options name rest

-- `options?.[field]`
abbrev pub field : (WorkerOptions → Option ℕ) → Option WorkerOptions → Option ℕ
field f none = none
field f (some o) = f o

-- The tuning found for a worker: its own, else the defaults given, else the SDK's.
unfoldable pub resolve_worker_options : String → PollOptions → WorkerOptions
resolve_worker_options name opts = record {
  batch_size = found (λ o. o.batch_size);
  lease_seconds = found (λ o. o.lease_seconds);
  heartbeat_interval = found (λ o. o.heartbeat_interval);
  poll_interval = found (λ o. o.poll_interval);
}
  where
    found : (WorkerOptions → Option ℕ) → Option ℕ
    found f =
        or_else (field f (worker_options name opts.workers))
          (or_else (field f opts.defaults) (f default_worker_options))

-- `p.def.routeFn`, or the one of `p.def.partitionBy`.
abbrev pub resolve_projection_route_fn :
    {D : Type 0} → (ℕ → String) → Option (RoutingFn D) → Option (PartitionBy D) → RoutingFn D
resolve_projection_route_fn decimal (some route_fn) by = route_fn
resolve_projection_route_fn decimal none by =
    routing_fn_for_partition_by decimal (get_or_else by sequential)

module _ {S C D : Type 0} where
  get_aggregate-append :
      (type : String) (def : AggregateDefinition S C D)
      (rest : List (String × AggregateDefinition S C D))
      → get_aggregate type rest ≡ none
      → get_aggregate type (rest ++ (type, def) ∷ []) ≡ some def
  get_aggregate-append type def [] h = rw ((eq_iff type type).1 refl) refl
  get_aggregate-append type def ((t, x) ∷ rest) h =
      ground (arith, h, get_aggregate-append type def rest)

  -- An aggregate that was registered is the one that a call names, whatever was registered before.
  pub dispatch-registered :
      (def : AggregateDefinition S C D) (r r' : Registry S C D) (id : String) (command : C)
      → register_aggregate def r ≡ ok r'
      → target_of r' (named def.type id command)
        ≡ ok (record {
          aggregate = def;
          stream_uuid = get_or_else def.stream_name (prefix_type def.type) id;
          command = command;
        })
  unfolding register_aggregate target_of
  dispatch-registered def r r' id command h = added (get_aggregate def.type r.aggregates) refl h
    where
      added :
          (o : Option (AggregateDefinition S C D))
          → get_aggregate def.type r.aggregates ≡ o
          → add_aggregate def r o ≡ ok r'
          → on_aggregate def.type id command (get_aggregate def.type r'.aggregates)
            ≡ ok (record {
              aggregate = def;
              stream_uuid = get_or_else def.stream_name (prefix_type def.type) id;
              command = command;
            })
      added (some x) e q = absurd cc
      added none e q =
          let after : r'.aggregates ≡ r.aggregates ++ (def.type, def) ∷ [] = cc in
          rw (after, get_aggregate-append def.type def r.aggregates e) refl

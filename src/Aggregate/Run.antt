-- ===== src/Aggregate/Run.antt =====
-- `executeCommand`, `runCommand` (aggregate/run-command.ts). The dispatch context carries only a logger,
-- so it is left out.
use instructed.Prelude.{
  ℕ, zero, suc, String, Bool, false, true, ◌&&◌, Option, none, some, List, [], ◌∷◌, map,
  if◌then◌else◌, get_or_else, or_else,
}
use instructed.Prelude.Int.{ℤ, pos, negsuc}
use instructed.Errors.{Thrown, is_wrong_expected_version}
use instructed.Json.{Json}
use instructed.Result.{Result, ok, throw, stuck}
use instructed.Types.{NewEvent, AppendedEvent, ExpectedVersion, exact}
use instructed.Session.{Platform, Io}
use instructed.Client
use instructed.Aggregate.{
  DomainEvent, AggregateDefinition, LoadedAggregate, Produced, normalise_events, load_aggregate,
  load_page_size,
}

pub record RunCommandOptions : Type 0 where
  pub retry_budget : Option ℤ
  pub expected_version : Option ExpectedVersion
  pub command_id : Option String
  pub causation_id : Option String
  pub correlation_id : Option String

abbrev pub default_retry_budget : ℤ
default_retry_budget = pos 5

pub record ExecutedCommand (S D : Type 0) : Type 0 where
  pub appended : List AppendedEvent
  pub loaded_state : S
  pub loaded_version : ℕ
  pub loaded_events_since_snapshot : ℕ
  pub filled : List (NewEvent D)
  pub no_op : Bool

abbrev pub is_none : {A : Type 0} → Option A → Bool
is_none none = true
is_none (some a) = false

-- The defaults of §11.8: an event's own links win.
abbrev pub fill_links : {D : Type 0} → String → Option String → NewEvent D → NewEvent D
fill_links causation correlation e = record e {
  causation_id = or_else e.causation_id (some causation);
  correlation_id = or_else e.correlation_id correlation;
}

abbrev pub given : Option Json → Option (Option Json)
given none = none
given (some m) = some (some m)

abbrev pub to_domain : {D : Type 0} → NewEvent D → DomainEvent D
to_domain e = record { type = e.type; payload = e.payload; metadata = given e.metadata }

abbrev pub appended_of : {S D : Type 0} → Result (ExecutedCommand S D) → Result (List AppendedEvent)
appended_of (ok r) = ok r.appended
appended_of (throw e) = throw e
appended_of stuck = stuck

abbrev pub events_of : {D : Type 0} → Result (Produced D) → Result (List (NewEvent D))
events_of (ok produced) = ok (normalise_events produced)
events_of (throw e) = throw e
events_of stuck = stuck

abbrev pub loaded_no_op : {S D : Type 0} → LoadedAggregate S → ExecutedCommand S D
loaded_no_op l = record {
  appended = [];
  loaded_state = l.state;
  loaded_version = l.version;
  loaded_events_since_snapshot = l.events_since_snapshot;
  filled = [];
  no_op = true;
}

module _ {S C D : Type 0} (p : Platform) (def : AggregateDefinition S C D) (u : String) where
  module _ (command : C) (causation : String) (opts : RunCommandOptions) where
    abbrev pub expected_at : LoadedAggregate S → ExpectedVersion
    expected_at l = get_or_else opts.expected_version (exact (pos l.version))

    abbrev pub appended_to :
        LoadedAggregate S
        → List (NewEvent D)
        → Result (List AppendedEvent)
        → Result (ExecutedCommand S D)
    appended_to l filled (ok appended) = ok (record {
      appended = appended;
      loaded_state = l.state;
      loaded_version = l.version;
      loaded_events_since_snapshot = l.events_since_snapshot;
      filled = filled;
      no_op = false;
    })
    appended_to l filled (throw e) = throw e
    appended_to l filled stuck = stuck

    -- From the events that `execute` produced to the append.
    abbrev pub commit_events : LoadedAggregate S → List (NewEvent D) → Io D S (ExecutedCommand S D)
    commit_events l [] w = (ok (loaded_no_op l), w)
    commit_events l (e ∷ es) w =
        let filled = map (fill_links causation opts.correlation_id) (e ∷ es) in
        let (r, w') = Client.append_to_stream p u (expected_at l) filled w in
        (appended_to l filled r, w')

    abbrev pub commit_produced :
        LoadedAggregate S → Result (List (NewEvent D)) → Io D S (ExecutedCommand S D)
    commit_produced l (ok events) w = commit_events l events w
    commit_produced l (throw e) w = (throw e, w)
    commit_produced l stuck w = (stuck, w)

    abbrev pub produced_by : LoadedAggregate S → Result (List (NewEvent D))
    produced_by l = events_of (def.execute l.state command)

    abbrev pub execute_loaded : Result (LoadedAggregate S) → Io D S (ExecutedCommand S D)
    execute_loaded (ok l) w = commit_produced l (produced_by l) w
    execute_loaded (throw e) w = (throw e, w)
    execute_loaded stuck w = (stuck, w)

    -- The `try` block; `fuel` bounds the pages of the load.
    unfoldable pub attempt_once : ℕ → Io D S (ExecutedCommand S D)
    attempt_once fuel w =
        let (loaded, w') = load_aggregate def fuel load_page_size u w in execute_loaded loaded w'

    -- `err instanceof WrongExpectedVersion && explicitExpected === undefined`
    abbrev pub retries : Result (ExecutedCommand S D) → Bool
    retries (throw e) = is_wrong_expected_version e && is_none opts.expected_version
    retries _ = false

    abbrev pub give_up : ℕ → Result (ExecutedCommand S D) → Result (ExecutedCommand S D)
    give_up attempts (throw e) =
        if is_wrong_expected_version e && is_none opts.expected_version
        then throw (Thrown.retry_budget_exhausted attempts e)
        else throw e
    give_up attempts r = r

    -- The `while` loop: `left` is `retryBudget - attempt` when an attempt begins.
    unfoldable pub retry_loop : ℕ → ℕ → ℕ → Io D S (ExecutedCommand S D)
    retry_loop fuel zero attempt w =
        let (r, w') = attempt_once fuel w in (give_up (suc attempt) r, w')
    retry_loop fuel (suc left) attempt w =
        let (r, w') = attempt_once fuel w in
        elim (retries r) [ true ↦ retry_loop fuel left (suc attempt) w' | false ↦ (r, w') ]

  module _ (command : C) (opts : RunCommandOptions) where
    abbrev pub with_causation : String → ℕ → ℕ → Io D S (ExecutedCommand S D)
    with_causation causation fuel budget =
        retry_loop command (get_or_else opts.causation_id causation) opts fuel budget 0

    -- `opts.commandId ?? crypto.randomUUID()` draws a UUID only where none is given.
    abbrev pub with_command_id : Option String → ℕ → ℕ → Io D S (ExecutedCommand S D)
    with_command_id (some id) fuel budget w = with_causation id fuel budget w
    with_command_id none fuel budget w =
        with_causation (p.random_uuid w.drawn) fuel budget (record w { drawn = suc w.drawn })

    -- A retry budget below 0 is refused.
    abbrev pub with_budget : ℤ → ℕ → Io D S (ExecutedCommand S D)
    with_budget (pos budget) fuel w = with_command_id opts.command_id fuel budget w
    with_budget (negsuc _) fuel w =
        (throw (Thrown.error "runCommand: retryBudget must be a non-negative integer"), w)

    unfoldable pub execute_command : ℕ → Io D S (ExecutedCommand S D)
    execute_command = with_budget (get_or_else opts.retry_budget default_retry_budget)

    unfoldable pub run_command : ℕ → Io D S (List AppendedEvent)
    run_command fuel w = let (r, w') = execute_command fuel w in (appended_of r, w')

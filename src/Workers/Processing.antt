-- ===== src/Workers/Processing.antt =====
-- One turn of the processing worker's loop (sdks/typescript/src/workers/processing/processing-worker.ts): claim
-- an item, read its event, run the handler under the policy, complete. The heartbeat runs beside the handler:
-- its calls are among what other sessions commit, and an abort by it is in what `halted` says. `asError` only
-- words an error anew: the error itself is surfaced.
use instructed.Prelude.{
  ℕ, String, ◌<>◌, Bool, true, false, Option, none, some, List, [], ◌∷◌, ◌++◌, beq, if◌then◌else◌,
  get_or_else,
}
use instructed.Errors.{Thrown, is_subscription_not_found, is_work_item_lease_lost}
use instructed.Result.{Result, ok, throw, stuck}
use instructed.Types.{RecordedEvent}
use instructed.Session.{Session}
use instructed.Client as Client
use instructed.Client.Queue as ClientQueue
use instructed.Client.Queue.{ClaimedWorkItem}
use instructed.Workers.Policies.{ErrorPolicy}
use instructed.Workers.Handler.{
  Effect, on_error, sleep, mark_aborted, Ran, returned, pending, run_handler_with_policy,
}
use instructed.Workers.Pm.{ProcessingHandlerContext}

-- `X` is what the callbacks keep beside the session.
pub record ProcessingWorker (X D S P : Type 0) : Type 0 where
  pub stream : String
  pub name : String
  pub worker_id : String
  pub lease_seconds : ℕ
  pub poll_interval : ℕ
  pub handle :
      RecordedEvent D
      → ProcessingHandlerContext
      → X × Session D S
      → Result (Unit {0}) × (X × Session D S)
  pub complete :
      RecordedEvent D
      → ProcessingHandlerContext
      → X × Session D S
      → Result (Unit {0}) × (X × Session D S)
  pub error_policy : ErrorPolicy P

-- How a turn ends: with the effects, newest last; or some promise never settles.
pub data Processed (W : Type 0) : Type 0 where
  processed : List Effect → W → Processed W
  never : Processed W

abbrev pub took_over : ClaimedWorkItem → Thrown
took_over claim = Thrown.error (
    "processing worker: took over work item "
    <> claim.partition_key
    <> " from "
    <> get_or_else claim.prior_claimed_by "null")

abbrev pub takeover_effects : Bool → ClaimedWorkItem → List Effect
takeover_effects true claim = on_error (took_over claim) ∷ []
takeover_effects false claim = []

abbrev pub event_missing : Thrown
event_missing = Thrown.error "processing worker: event not found in $all (race with rebuild?)"

module _ {X D S P : Type 0} (worker : ProcessingWorker X D S P) (halted : ℕ → Bool) (fuel : ℕ) where
  abbrev pub context : String → ℕ → ℕ → ProcessingHandlerContext
  context partition n attempt = record {
    worker_id = worker.worker_id;
    partition_key = partition;
    event_number = n;
    attempt = attempt;
  }

  -- What follows `def.complete`.
  abbrev pub after_complete :
      List Effect → Result (Unit {0}) × (X × Session D S) → Processed (X × Session D S)
  after_complete effects (ok _, w) = processed effects w
  after_complete effects (throw e, w) =
      if is_work_item_lease_lost e
      then processed (effects ++ mark_aborted e ∷ []) w
      else processed (effects ++ on_error e ∷ mark_aborted e ∷ []) w
  after_complete effects (stuck, w) = never

  -- What follows `runHandlerWithPolicy`.
  abbrev pub after_handler :
      RecordedEvent D → String → ℕ → Ran (X × Session D S) → Processed (X × Session D S)
  after_handler event partition n (pending effects) = never
  after_handler event partition n (returned false effects w) = processed effects w
  after_handler event partition n (returned true effects w) =
      after_complete effects (worker.complete event (context partition n 1) w)

  abbrev pub run_event :
      RecordedEvent D → String → ℕ → X × Session D S → Processed (X × Session D S)
  run_event event partition n w = after_handler event partition n (
      run_handler_with_policy (λ attempt. worker.handle event (context partition n attempt))
        worker.error_policy halted n fuel w)

  -- What follows the read of the event.
  abbrev pub after_event :
      String → ℕ → X → Result (List (RecordedEvent D)) × Session D S → Processed (X × Session D S)
  after_event partition n x (throw e, w) = processed (on_error e ∷ []) (x, w)
  after_event partition n x (stuck, w) = never
  after_event partition n x (ok [], w) = processed (on_error event_missing ∷ []) (x, w)
  after_event partition n x (ok (event ∷ more), w) =
      if beq event.event_number n
      then run_event event partition n (x, w)
      else processed (on_error event_missing ∷ []) (x, w)

  unfoldable pub process_one_item : String → ℕ → X × Session D S → Processed (X × Session D S)
  process_one_item partition n (x, w) = after_event partition n x (Client.read_all n 1 w)

  abbrev pub after_effects : List Effect → Processed (X × Session D S) → Processed (X × Session D S)
  after_effects before (processed effects w) = processed (before ++ effects) w
  after_effects before never = never

  -- What follows `claimWorkItem`.
  abbrev pub after_claim :
      X → Result (Option ClaimedWorkItem) × Session D S → Processed (X × Session D S)
  after_claim x (throw e, w) =
      if is_subscription_not_found e
      then processed (sleep worker.poll_interval ∷ []) (x, w)
      else processed (on_error e ∷ sleep worker.poll_interval ∷ []) (x, w)
  after_claim x (stuck, w) = never
  after_claim x (ok none, w) = processed (sleep worker.poll_interval ∷ []) (x, w)
  after_claim x (ok (some claim), w) =
      after_effects (takeover_effects claim.was_takeover claim)
        (process_one_item claim.partition_key claim.event_number (x, w))

  unfoldable pub processing_turn : X × Session D S → Processed (X × Session D S)
  processing_turn (x, w) = after_claim x (
      ClientQueue.claim_work_item worker.stream worker.name worker.worker_id worker.lease_seconds w)

-- ===== src/Workers/Routing/Turn.antt =====
-- One turn of the routing worker's loop (sdks/typescript/src/workers/routing/routing-worker.ts): claim, read,
-- route, commit, release. Traces are not modelled; a sleep is an effect, `onError` does not throw, and a release settles.
use instructed.Prelude.{
  ℕ, zero, suc, String, ◌==◌, Bool, true, false, ◌||◌, Option, List, [], ◌∷◌, ◌++◌, if◌then◌else◌,
}
use instructed.Errors.{Thrown, is_subscription_not_found, is_subscription_lease_lost}
use instructed.Result.{Result, ok, throw, stuck}
use instructed.Types.{RecordedEvent}
use instructed.Session.{Session, Io}
use instructed.Store.Subscriptions.{StartFrom, ClaimOutcome, claimed, already_claimed}
use instructed.Client as Client
use instructed.Client.Queue as ClientQueue
use instructed.Client.Queue.{ClaimResult, RouteBatchResult}
use instructed.Workers.Routing.{
  RoutingFn, Routed, routed, dropped, pending, aborted, route_one_batch,
}
use instructed.Workers.Handler.{Effect, on_error, sleep, mark_aborted}

pub record RoutingWorker (D : Type 0) : Type 0 where
  pub stream : String
  pub name : String
  pub worker_id : String
  pub lease_seconds : ℕ
  pub start_from : Option StartFrom
  pub batch_size : ℕ
  pub poll_interval : ℕ
  pub route_fn : RoutingFn D

-- How a turn ends: the loop goes round, or is left; or `routeFn` or a call never settles. With it what
-- `holdingLease` is, and the effects, newest last.
pub data Turn (D S : Type 0) : Type 0 where
  continues leaves : (holding_lease : Bool) → List Effect → Session D S → Turn D S
  never : Turn D S

abbrev pub is_lease_loss : Thrown → Bool
is_lease_loss e = is_subscription_lease_lost e || is_subscription_not_found e

abbrev pub poll_sleep : {D : Type 0} → RoutingWorker D → List Effect
poll_sleep worker = sleep worker.poll_interval ∷ []

module _ {D S : Type 0} (worker : RoutingWorker D) where
  -- What `releaseQuietly` surfaces.
  abbrev pub surfaced : Result (Unit {0}) × Session D S → List Effect × Session D S
  surfaced (ok _, w) = ([], w)
  surfaced (throw e, w) =
      if is_lease_loss e || is_subscription_not_found e then ([], w) else (on_error e ∷ [], w)
  surfaced (stuck, w) = ([], w)

  -- `releaseQuietly`; `holdingLease` is false after it.
  unfoldable pub release_quietly : Bool → Session D S → List Effect × Session D S
  release_quietly false w = ([], w)
  release_quietly true w =
      surfaced (ClientQueue.release_subscription worker.stream worker.name worker.worker_id w)

  abbrev pub continued : List Effect → List Effect → List Effect × Session D S → Turn D S
  continued before rest (effects, w) = continues false (before ++ effects ++ rest) w

  abbrev pub left : List Effect → List Effect × Session D S → Turn D S
  left before (effects, w) = leaves false (before ++ effects) w

  -- What follows `routeBatch`, and the release at the end.
  abbrev pub after_commit : Result RouteBatchResult × Session D S → Turn D S
  after_commit (ok _, w) = continued [] [] (release_quietly true w)
  after_commit (throw e, w) =
      if is_lease_loss e
      then continues false [] w
      else continued (on_error e ∷ []) (poll_sleep worker) (release_quietly true w)
  after_commit (stuck, w) = never

  -- What follows `routeOneBatch`.
  abbrev pub after_routing : Session D S → Routed → Turn D S
  after_routing w (routed b) =
      after_commit (
        ClientQueue.route_batch worker.stream worker.name worker.worker_id b.cursor_to b.decisions
          w)
  after_routing w dropped = left [] (release_quietly true w)
  after_routing w pending = never
  after_routing w (aborted e) = left (mark_aborted e ∷ []) (release_quietly true w)

  module _ (halted_after_claim : Bool) (halted : ℕ → Bool) where
    -- What follows the read.
    abbrev pub after_read : Result (List (RecordedEvent D)) × Session D S → Turn D S
    after_read (throw e, w) =
        continued (on_error e ∷ []) (poll_sleep worker) (release_quietly true w)
    after_read (stuck, w) = never
    after_read (ok [], w) = continued [] (poll_sleep worker) (release_quietly true w)
    after_read (ok (event ∷ more), w) =
        after_routing w (route_one_batch worker.route_fn halted (event ∷ more))

    abbrev pub read_batch : ℕ → Io D S (List (RecordedEvent D))
    read_batch last_seen w =
        if worker.stream == "$all"
        then Client.read_all (suc last_seen) worker.batch_size w
        else Client.read_stream worker.stream (suc last_seen) worker.batch_size w

    abbrev pub unless_halted : Bool → ℕ → Session D S → Turn D S
    unless_halted true last_seen w = left [] (release_quietly true w)
    unless_halted false last_seen w = after_read (read_batch last_seen w)

    -- What follows `claimSubscription`; the lease was not held before it.
    abbrev pub on_outcome : ClaimOutcome → ℕ → Session D S → Turn D S
    on_outcome already_claimed last_seen w = continues false (poll_sleep worker) w
    on_outcome claimed last_seen w = unless_halted halted_after_claim last_seen w

    abbrev pub after_claim : Result ClaimResult × Session D S → Turn D S
    after_claim (ok r, w) = on_outcome r.result r.last_seen w
    after_claim (throw e, w) = leaves false (on_error e ∷ []) w
    after_claim (stuck, w) = never

    unfoldable pub routing_turn : Session D S → Turn D S
    routing_turn w = after_claim (
        ClientQueue.claim_subscription worker.stream worker.name worker.worker_id
          worker.lease_seconds worker.start_from w)

  -- The loop on fuel, from its `while` test; `stops` and `halted` are what `closing || aborted` is, by turn.
  -- `aborted` itself ends the loop, since the turn that sets it leaves.
  module _ (stops halted_after_claim : ℕ → Bool) (halted : ℕ → ℕ → Bool) where
    abbrev pub after_effects : List Effect → Turn D S → Turn D S
    after_effects before (continues holding effects w) = continues holding (before ++ effects) w
    after_effects before (leaves holding effects w) = leaves holding (before ++ effects) w
    after_effects before never = never

    abbrev pub after_turn : (Session D S → Turn D S) → Turn D S → Turn D S
    after_turn next (continues holding effects w) = after_effects effects (next w)
    after_turn next (leaves holding effects w) = leaves holding effects w
    after_turn next never = never

    unfoldable pub routing_loop : ℕ → ℕ → Session D S → Turn D S
    routing_loop zero i w = never
    routing_loop (suc fuel) i w =
        if stops i
        then leaves false [] w
        else after_turn (routing_loop fuel (suc i))
            (routing_turn (halted_after_claim i) (halted i) w)

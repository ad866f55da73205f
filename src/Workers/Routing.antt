-- ===== src/Workers/Routing.antt =====
-- `routeOneBatch` of the routing worker (workers/routing/routing-worker.ts). `halted i` is what
-- `closing || aborted` is when it is tested for the i-th time: a stop may come at any `await`.
pub mod Batch
pub mod Turn
pub mod Ascending
use instructed.Prelude.{ℕ, suc, String, Bool, true, false, Option, none, some, List, [], ◌∷◌, ◌++◌}
use instructed.Errors.{Thrown}
use instructed.Result.{Result, ok, throw, stuck}
use instructed.Types.{RecordedEvent}

-- What a routing function returns: `malformed` is a value that is no routing decision.
pub data RoutingDecision : Type 0 where
  ignore : RoutingDecision
  partition : (partition_key : String) → RoutingDecision
  malformed : RoutingDecision

abbrev pub RoutingFn : Type 0 → Type 0
RoutingFn D = RecordedEvent D → Result RoutingDecision

pub record RouteDecision : Type 0 where
  pub partition_key : String
  pub event_number : ℕ

pub record RoutedBatch : Type 0 where
  pub decisions : List RouteDecision
  pub cursor_to : ℕ

-- What `routeOneBatch` ends with: the batch routed, the batch dropped, or dropped with the worker
-- aborted on an error; or `routeFn` never settles.
pub data Routed : Type 0 where
  routed : RoutedBatch → Routed
  dropped : Routed
  pending : Routed
  aborted : Thrown → Routed

module _ {D : Type 0} (route_fn : RoutingFn D) (halted : ℕ → Bool) where
  abbrev pub finish : List RouteDecision → Option ℕ → Routed
  finish decisions none = dropped
  finish decisions (some cursor) = routed (record { decisions = decisions; cursor_to = cursor })

  -- What follows `await def.routeFn(event)`; `next` is the rest of the loop.
  abbrev pub after_route :
      (List RouteDecision → Routed)
      → List RouteDecision
      → RecordedEvent D
      → Bool
      → Result RoutingDecision
      → Routed
  after_route next decisions event stops (throw e) = aborted e
  after_route next decisions event stops stuck = pending
  after_route next decisions event true (ok d) = dropped
  after_route next decisions event false (ok ignore) = next decisions
  after_route next decisions event false (ok malformed) =
      aborted
        (Thrown.error "routing worker: routeFn must return \"ignore\" or { partitionKey: string }")
  after_route next decisions event false (ok (partition key)) =
      next (decisions ++ record { partition_key = key; event_number = event.event_number } ∷ [])

  abbrev pub unless_halted : Bool → Routed → Routed
  unless_halted true r = dropped
  unless_halted false r = r

  -- The `for` loop; `i` counts the tests made.
  unfoldable pub route_from : ℕ → List RouteDecision → Option ℕ → List (RecordedEvent D) → Routed
  route_from i decisions cursor [] = finish decisions cursor
  route_from i decisions cursor (event ∷ rest) = unless_halted (halted i) (
      after_route (λ more. route_from (suc (suc i)) more (some event.event_number) rest) decisions
        event (halted (suc i)) (route_fn event))

  unfoldable pub route_one_batch : List (RecordedEvent D) → Routed
  route_one_batch batch = route_from 0 [] none batch

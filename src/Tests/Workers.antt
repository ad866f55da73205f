-- ===== src/Tests/Workers.antt =====
-- The theorems on the workers and the facade.
use instructed.Prelude.{ℕ, ◌+◌, ◌≡◌, refl, false, inr, none, some, List, [], ◌∷◌}
use instructed.Prelude.Int.{pos}
use instructed.Errors.{Thrown}
use instructed.Result.{ok, throw, ◌>>=◌}
use instructed.Types.{RecordedEvent}
use instructed.Workers.Routing.{
  RoutingFn, RoutedBatch, routed, route_from, route_one_batch, partition,
}
use instructed.Workers.Routing.Batch.{
  decided, last_cursor, Complete, route_one_batch-Complete, route_one_batch-routed,
}
use instructed.Workers.Policies.{
  ErrorPolicyContext, default_error_policy, exponential_backoff, capped_at,
}
use instructed.Workers.Policies.Backoff.{default_error_policy-exponential}
use instructed.Workers.Handler.{Handler, run_handler_with_policy}
use instructed.Workers.Handler.Attempts.{Settles, run_handler_with_policy-Settles}
use instructed.Facade.{only_types}
use instructed.Facade.Filter.{of_types, route_one_batch-only_types}
use instructed.Bank.{BankEvent, account_opened, account_deposited_to, event_name}
use instructed.Bank.Saga.{transfer_route_fn}

abbrev recorded : ℕ → BankEvent → RecordedEvent BankEvent
recorded n e = record {
  event_id = "e";
  event_number = n;
  stream_uuid = "Account-1";
  stream_version = n;
  causation_id = none;
  correlation_id = none;
  metadata = none;
  created_at = 7;
  type = event_name e;
  payload = e;
}

abbrev batch : List (RecordedEvent BankEvent)
batch =
    recorded 4 (account_opened "Ann")
    ∷ recorded 5 (account_deposited_to (pos 3) (some "t1"))
    ∷ recorded 6 (account_deposited_to (pos 4) none)
    ∷ []

abbrev expected : RoutedBatch
expected = record {
  decisions = record { partition_key = "t1"; event_number = 5 } ∷ [];
  cursor_to = 6;
}

routes : route_one_batch transfer_route_fn (λ _. false) batch ≡ routed expected
unfolding route_one_batch route_from
routes = refl

route_one_batch-Complete_example : Complete transfer_route_fn [] none batch expected
route_one_batch-Complete_example =
    route_one_batch-Complete transfer_route_fn (λ _. false) batch routes

route_one_batch-routed_example :
    (b : RoutedBatch) × (route_one_batch transfer_route_fn
        (λ _. false)
        (recorded 5 (account_deposited_to (pos 3) (some "t1")) ∷ [])
      ≡ routed b)
route_one_batch-routed_example =
    route_one_batch-routed transfer_route_fn (recorded 5 (account_deposited_to (pos 3) (some "t1")))
      [] (inr ("t1", refl), tt)

abbrev by_stream : RoutingFn BankEvent
by_stream event = ok (partition event.stream_uuid)

abbrev opened_only : RoutedBatch
opened_only = record {
  decisions = record { partition_key = "Account-1"; event_number = 4 } ∷ [];
  cursor_to = 6;
}

filters :
    route_one_batch (only_types ("AccountOpened" ∷ []) by_stream) (λ _. false) batch
    ≡ routed opened_only
unfolding route_one_batch route_from
filters = refl

route_one_batch-only_types_example :
    (opened_only.decisions ≡ decided by_stream (of_types ("AccountOpened" ∷ []) by_stream batch))
    × (some opened_only.cursor_to ≡ last_cursor none batch)
route_one_batch-only_types_example =
    route_one_batch-only_types ("AccountOpened" ∷ []) by_stream (λ _. false) batch filters

-- A handler that fails at every attempt.
abbrev failing : Handler ℕ
failing attempt w = (throw (Thrown.error "down"), w + 1)

run_handler_with_policy-Settles_example : Settles (
    run_handler_with_policy failing
      (capped_at 3 (default_error_policy {P = Unit {0}}))
      (λ _. false)
      9
      4
      0)
run_handler_with_policy-Settles_example =
    run_handler_with_policy-Settles failing (default_error_policy {P = Unit {0}}) (λ _. false) 9 3
      (λ attempt w. tt) (λ e ctx state. tt) 0

abbrev second : ErrorPolicyContext
second = record { event_number = 9; attempt = 2 }

default_error_policy-exponential_example :
    (exponential_backoff {P = Unit {0}} (λ raw. 0) (pos 100) (pos 30000) false >>= λ policy.
    policy (Thrown.error "down") second none)
    ≡ default_error_policy (Thrown.error "down") second none
default_error_policy-exponential_example =
    default_error_policy-exponential (λ raw. 0) (Thrown.error "down") second none

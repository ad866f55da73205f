-- ===== src/Errors.antt =====
-- The SDK's error classes (sdks/typescript/src/errors/): what a `catch` clause can receive.
-- The `cause` that a wrapped error carries is not modelled; a JavaScript value that is no object is
-- `Thrown.value`, an `Error` with no SQLSTATE is `Thrown.error`, a driver error is `Thrown.pg`.
pub mod Version
pub mod MapPg
use instructed.Prelude.{ℕ, String, Bool, true, false, Option, List}
use instructed.Prelude.Int.{ℤ}

-- The fields that every `InstructedError` has.
pub record InstructedError : Type 0 where
  pub message : String
  pub code : Option String
  pub detail : Option String
  pub hint : Option String

-- The subclasses of `AppendError`, with the fields of each.
pub data AppendError : Type 0 where
  wrong_expected_version : Option ℤ → Option ℤ → AppendError
  stream_exists : Option String → AppendError
  stream_not_found : Option String → AppendError
  duplicate_event : Option String → AppendError
  reserved_stream_uuid : Option String → AppendError

pub record SubscriptionRef : Type 0 where
  pub stream_uuid : Option String
  pub subscription_name : Option String

-- The subclasses of `SubscriptionError`.
pub data SubscriptionError : Type 0 where
  subscription_not_found : SubscriptionRef → SubscriptionError
  subscription_already_claimed : SubscriptionRef → SubscriptionError
  subscription_lease_lost : SubscriptionRef → SubscriptionError

pub record WorkItemLeaseLost : Type 0 where
  pub stream_uuid : Option String
  pub subscription_name : Option String
  pub partition_key : Option String
  pub event_number : Option ℕ

-- The part of a driver error that the SDK reads.
pub record PgError : Type 0 where
  pub code : Option String
  pub message : Option String
  pub detail : Option String
  pub hint : Option String

pub data Thrown : Type 0 where
  append : InstructedError → AppendError → Thrown
  append_only_violation : InstructedError → Thrown
  invalid_parameter_value : InstructedError → Thrown
  snapshot_not_found : InstructedError → Option String → Thrown
  subscription : InstructedError → SubscriptionError → Thrown
  work_item_lease_lost : InstructedError → WorkItemLeaseLost → Thrown
  retry_budget_exhausted : ℕ → Thrown → Thrown
  consistency_timeout : ℕ → List String → Thrown
  consistency_target : String → String → List String → Thrown
  unknown_aggregate_type : String → Thrown
  pg : PgError → Thrown
  error : String → Thrown
  value : Thrown

-- `err instanceof WrongExpectedVersion` and the like.
abbrev pub is_wrong_expected_version : Thrown → Bool
is_wrong_expected_version (append _ (wrong_expected_version _ _)) = true
is_wrong_expected_version _ = false

abbrev pub is_stream_not_found : Thrown → Bool
is_stream_not_found (append _ (stream_not_found _)) = true
is_stream_not_found _ = false

abbrev pub is_snapshot_not_found : Thrown → Bool
is_snapshot_not_found (snapshot_not_found _ _) = true
is_snapshot_not_found _ = false

abbrev pub is_subscription_not_found : Thrown → Bool
is_subscription_not_found (subscription _ (subscription_not_found _)) = true
is_subscription_not_found _ = false

abbrev pub is_subscription_lease_lost : Thrown → Bool
is_subscription_lease_lost (subscription _ (subscription_lease_lost _)) = true
is_subscription_lease_lost _ = false

abbrev pub is_work_item_lease_lost : Thrown → Bool
is_work_item_lease_lost (work_item_lease_lost _ _) = true
is_work_item_lease_lost _ = false

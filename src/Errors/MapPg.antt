-- ===== src/Errors/MapPg.antt =====
-- `mapPgError` (sdks/typescript/src/errors/map-pg-error.ts): from SQLSTATE to error class.
pub mod Codes
use instructed.Prelude.{ℕ, String, ◌<>◌, ◌==◌, Option, none, some, if◌then◌else◌, get_or_else}
use instructed.Errors.{
  InstructedError, SubscriptionRef, WorkItemLeaseLost, wrong_expected_version, stream_exists,
  stream_not_found, duplicate_event, reserved_stream_uuid, subscription_not_found,
  subscription_already_claimed, subscription_lease_lost, PgError, Thrown,
}
use instructed.Errors.Version.{parse_wrong_expected_version}

pub record MapPgErrorContext : Type 0 where
  pub stream_uuid : Option String
  pub subscription_name : Option String
  pub source_uuid : Option String
  pub partition_key : Option String
  pub event_number : Option ℕ

abbrev pub no_context : MapPgErrorContext
no_context = record {
  stream_uuid = none;
  subscription_name = none;
  source_uuid = none;
  partition_key = none;
  event_number = none;
}

abbrev pub of_instructed : InstructedError → PgError
of_instructed e = record {
  code = e.code;
  message = some e.message;
  detail = e.detail;
  hint = e.hint;
}

abbrev pub plain : String → PgError
plain m = record { code = none; message = some m; detail = none; hint = none }

-- `err as PgErrorLike`, for the values that are objects. An `InstructedError` has these fields too.
-- The SDK-level errors have no code.
abbrev pub pg_error_like : Thrown → Option PgError
pg_error_like (Thrown.append e _) = some (of_instructed e)
pg_error_like (Thrown.append_only_violation e) = some (of_instructed e)
pg_error_like (Thrown.invalid_parameter_value e) = some (of_instructed e)
pg_error_like (Thrown.snapshot_not_found e _) = some (of_instructed e)
pg_error_like (Thrown.subscription e _) = some (of_instructed e)
pg_error_like (Thrown.work_item_lease_lost e _) = some (of_instructed e)
pg_error_like (Thrown.retry_budget_exhausted _ _) = some (plain "")
pg_error_like (Thrown.consistency_timeout _ _) = some (plain "")
pg_error_like (Thrown.consistency_target _ _ _) = some (plain "")
pg_error_like (Thrown.unknown_aggregate_type _) = some (plain "")
pg_error_like (Thrown.pg e) = some e
pg_error_like (Thrown.error m) = some (plain m)
pg_error_like Thrown.value = none

abbrev pub base_of : String → PgError → InstructedError
base_of code e = record {
  message = get_or_else e.message ("instructed error " <> code);
  code = some code;
  detail = e.detail;
  hint = e.hint;
}

abbrev pub subscription_ref : MapPgErrorContext → SubscriptionRef
subscription_ref ctx = record {
  stream_uuid = ctx.stream_uuid;
  subscription_name = ctx.subscription_name;
}

abbrev pub work_item : MapPgErrorContext → WorkItemLeaseLost
work_item ctx = record {
  stream_uuid = ctx.stream_uuid;
  subscription_name = ctx.subscription_name;
  partition_key = ctx.partition_key;
  event_number = ctx.event_number;
}

-- The `switch`; `err` is returned as it came where no case applies.
unfoldable pub map_code : String → PgError → MapPgErrorContext → Thrown → Thrown
map_code code e ctx err =
    let base = base_of code e in
    if code == "IS001"
    then (let (actual, expected) = parse_wrong_expected_version e.message in
        Thrown.append base (wrong_expected_version actual expected))
    else if code == "IS002"
    then Thrown.append base (stream_exists ctx.stream_uuid)
    else if code == "IS003"
    then Thrown.append base (stream_not_found ctx.stream_uuid)
    else if code == "IS004"
    then Thrown.append base (duplicate_event none)
    else if code == "IS005"
    then Thrown.append base (reserved_stream_uuid ctx.stream_uuid)
    else if code == "IS006"
    then Thrown.append_only_violation base
    else if code == "IS010"
    then Thrown.snapshot_not_found base ctx.source_uuid
    else if code == "IS020"
    then Thrown.subscription base (subscription_not_found (subscription_ref ctx))
    else if code == "IS021"
    then Thrown.subscription base (subscription_already_claimed (subscription_ref ctx))
    else if code == "IS022"
    then Thrown.subscription base (subscription_lease_lost (subscription_ref ctx))
    else if code == "IS030"
    then Thrown.work_item_lease_lost base (work_item ctx)
    else if code == "22023"
    then Thrown.invalid_parameter_value base
    else err

-- `if (!code) return err`: an empty code counts as none.
abbrev pub map_coded : Option String → PgError → MapPgErrorContext → Thrown → Thrown
map_coded none e ctx err = err
map_coded (some code) e ctx err = if code == "" then err else map_code code e ctx err

abbrev pub map_like : Option PgError → MapPgErrorContext → Thrown → Thrown
map_like none ctx err = err
map_like (some e) ctx err = map_coded e.code e ctx err

unfoldable pub map_pg_error : Thrown → MapPgErrorContext → Thrown
map_pg_error err ctx = map_like (pg_error_like err) ctx err

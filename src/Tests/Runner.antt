-- ===== src/Tests/Runner.antt =====
-- The theorems on the runner, at an account with another session at work.
use instructed.Prelude.{◌≡◌, ◌<◌, refl, arith, length, select, some, none}
use instructed.Prelude.Int.{pos}
use instructed.Types.{SnapshotInput, exact}
use instructed.Store.{rows_of, record_snapshot}
use instructed.Store.Append.{append_to_stream, new_rows}
use instructed.Aggregate.{load_aggregate}
use instructed.Aggregate.Replay.{Rely}
use instructed.Aggregate.Load.{LoadsPrefix, load_aggregate-LoadsPrefix}
use instructed.Aggregate.Quiet.{LoadsAll, load_aggregate-LoadsAll}
use instructed.Aggregate.Rely.{committed, append_to_stream-Rely, record_snapshot-Rely}
use instructed.Aggregate.Run.{RunCommandOptions, attempt_once, retry_loop, execute_command}
use instructed.Aggregate.Serial.{Outcome}
use instructed.Aggregate.Occ.{cause, execute_command-Outcome}
use instructed.Aggregate.Retry.{Settles, retry_loop-Settles, retry_loop-explicit}
use instructed.Aggregate.Applied.{AppliedTo, ReadsNull, run_command_and_apply-AppliedTo}
use instructed.Aggregate.Snapshots.{run_command_and_apply, run_command_with_snapshots}
use instructed.Aggregate.Truthful.{Returns, run_command_with_snapshots-Returns}
use instructed.Bank.{AccountState, account, account_initial}
use instructed.Tests.{
  platform, stream, session, alone, deposit, defaults, paying_in, opened-IsSound, session-Trusts,
}

abbrev explicit : RunCommandOptions
explicit = record defaults { expected_version = some (exact (pos 1)) }

few_rows : length (rows_of stream alone.store.log) < 3
unfolding rows_of new_rows select
few_rows = omega arith

execute_command-Outcome_example :
    Outcome platform account stream deposit
      (cause platform account stream defaults session)
      defaults
      (execute_command platform account stream deposit defaults 3 session)
execute_command-Outcome_example =
    execute_command-Outcome platform account stream deposit defaults 3 session refl session-Trusts

pub account-ReadsNull : ReadsNull platform account stream
account-ReadsNull state type payload = refl

run_command_with_snapshots-Returns_example :
    Returns platform account stream
      (execute_command platform account stream deposit defaults 3 session)
      (run_command_with_snapshots platform account stream deposit defaults 3 session)
run_command_with_snapshots-Returns_example =
    run_command_with_snapshots-Returns platform account stream deposit defaults 3 session
      account-ReadsNull refl session-Trusts

run_command_and_apply-AppliedTo_example :
    AppliedTo platform account stream
      (execute_command platform account stream deposit defaults 3 session)
      (run_command_and_apply platform account stream deposit defaults 3 session)
run_command_and_apply-AppliedTo_example =
    run_command_and_apply-AppliedTo platform account stream deposit defaults 3 session
      account-ReadsNull refl session-Trusts

retry_loop-Settles_example :
    Settles platform account stream deposit "c1" defaults 3 5 0 session
      (retry_loop platform account stream deposit "c1" defaults 3 5 0 session)
retry_loop-Settles_example =
    retry_loop-Settles platform account stream deposit "c1" defaults 3 5 0 session

retry_loop-explicit_example :
    retry_loop platform account stream deposit "c1" explicit 3 5 0 session
    ≡ attempt_once platform account stream deposit "c1" explicit 3 session
retry_loop-explicit_example =
    retry_loop-explicit platform account stream deposit "c1" explicit 3 (exact (pos 1)) refl 5 0
      session

load_aggregate-LoadsPrefix_example :
    LoadsPrefix account stream (load_aggregate account 3 2 stream session)
load_aggregate-LoadsPrefix_example =
    load_aggregate-LoadsPrefix account stream 3 2 session (omega arith) session-Trusts

load_aggregate-LoadsAll_example :
    LoadsAll account stream alone (load_aggregate account 3 2 stream alone)
load_aggregate-LoadsAll_example =
    load_aggregate-LoadsAll account stream alone 3 2 (omega arith) refl refl opened-IsSound few_rows

append_to_stream-Rely_example :
    Rely account stream
      (λ s. committed s (append_to_stream platform.is_uuid stream "any" none paying_in s))
append_to_stream-Rely_example =
    append_to_stream-Rely account stream platform.is_uuid stream "any" none paying_in

abbrev foreign : SnapshotInput AccountState
foreign = record {
  source_uuid = "Account-2";
  source_type = "Account";
  source_version = 8;
  payload = account_initial;
  metadata = none;
}

record_snapshot-Rely_example : Rely account stream (λ s. committed s (record_snapshot foreign s))
record_snapshot-Rely_example = record_snapshot-Rely account stream foreign refl

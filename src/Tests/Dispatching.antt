-- ===== src/Tests/Dispatching.antt =====
-- The theorem on `dispatch`, at a deposit that one projection is waited for.
use instructed.Prelude.{◌≡◌, refl, ap, none, some, [], ◌∷◌, select}
use instructed.Types.{AppendedEvent}
use instructed.Result.{ok}
use instructed.Store.{stream_version, set_version, insert_by, order_by, rows_of, find_snapshot}
use instructed.Store as Sql
use instructed.Store.Append.{
  exact_base, base_version, has_ids, ids_cast, links_cast, has_row, new_rows, repeats_id,
  check_rows, insert_rows, check_append,
}
use instructed.Store.Append as SqlAppend
use instructed.Store.Subscriptions.{
  stream_head, keyed, find_subscription, subscription_of, require_subscription,
}
use instructed.Store.Queue.{exists_item}
use instructed.Store.Queue.Calls as SqlQueue
use instructed.Session.{Session, run, run_query, interfere}
use instructed.Errors.MapPg.{map_pg_error, map_code}
use instructed.Client as Client
use instructed.Client.Queue as ClientQueue
use instructed.Aggregate.{load_pages, load_aggregate}
use instructed.Aggregate.Run.{attempt_once, retry_loop, execute_command, run_command}
use instructed.Aggregate.Snapshots.{run_command_and_apply, run_command_with_snapshots}
use instructed.Consistency.{
  ref_key, includes, add_all, misplaced, highest, put, put_all, poll, wait_from,
  wait_for_projection,
}
use instructed.Facade.Registry.{
  Registry, named, DispatchOptions, Target, by_name, target_of, dispatch,
}
use instructed.Facade.Waits.{Dispatched, dispatch-Dispatched}
use instructed.Bank.{BankEvent, AccountState, AccountCommand, account}
use instructed.Aggregate.Replay.{Trusts}
use instructed.Tests.Runner.{account-ReadsNull}
use instructed.Tests.{stream, opened-IsSound, platform, alone, deposit, opened}
use instructed.Tests.Queue.{subscribed}
use instructed.Tests.Waiting.{clock}

abbrev projecting : Session BankEvent AccountState
projecting = record alone { store = record opened { subscriptions = subscribed 2 ∷ [] } }

abbrev options : DispatchOptions
options = record {
  consistency = by_name "pm" ∷ [];
  consistency_timeout = some 50;
  retry_budget = none;
  expected_version = none;
}

abbrev registry : Registry AccountState AccountCommand BankEvent
registry = record { aggregates = ("Account", account) ∷ []; command_router = none }

abbrev deposited : AppendedEvent
deposited = record {
  event_id = "u1";
  stream_uuid = "Account-1";
  stream_version = 2;
  event_number = 2;
  created_at = 7;
}

abbrev target : Target AccountState AccountCommand BankEvent
target = record { aggregate = account; stream_uuid = "Account-1"; command = deposit }

found : target_of registry (named "Account" "1" deposit) ≡ ok target
unfolding target_of
found = refl

dispatching :
    (dispatch platform 3 9 clock options registry (named "Account" "1" deposit) projecting).0
    ≡ ok (deposited ∷ [])
unfolding dispatch target_of run_command_with_snapshots run_command_and_apply run_command
    execute_command retry_loop attempt_once load_aggregate load_pages Client.fill_ids
    Client.read_stream Client.read_snapshot Client.append_filled Client.append_to_stream run
    run_query interfere map_pg_error map_code stream_version set_version insert_by order_by rows_of
    find_snapshot Sql.read_stream Sql.read_snapshot exact_base base_version has_ids ids_cast
    links_cast has_row new_rows repeats_id check_rows insert_rows check_append
    SqlAppend.append_to_stream select wait_for_projection misplaced includes add_all highest put
    put_all poll wait_from ref_key ClientQueue.is_subscription_caught_up
    SqlQueue.is_subscription_caught_up require_subscription subscription_of stream_head
    find_subscription keyed exists_item
dispatching = refl

-- Nothing is asked of the subscription, so that what is known of the store of `alone` holds here too.
projecting-Trusts : Trusts account stream projecting
unfolding find_snapshot
projecting-Trusts = record {
  sound = record {
    valid = record {
      numbered = opened-IsSound.valid.numbered;
      total = opened-IsSound.valid.total;
      versions = opened-IsSound.valid.versions;
      counts = opened-IsSound.valid.counts;
    };
    agrees = opened-IsSound.agrees;
  };
  rely = tt;
}

dispatch-Dispatched_example :
    Dispatched platform 3 9 clock options registry
      (named "Account" "1" deposit)
      projecting
      target
      (deposited ∷ [])
      (dispatch platform 3 9 clock options registry (named "Account" "1" deposit) projecting).1
dispatch-Dispatched_example =
    dispatch-Dispatched platform 3 9 clock options registry (named "Account" "1" deposit) projecting
      target (deposited ∷ [])
      (dispatch platform 3 9 clock options registry (named "Account" "1" deposit) projecting).1
      found account-ReadsNull refl projecting-Trusts
      (ap
        (λ q. (
          q,
          (dispatch platform 3 9 clock options registry (named "Account" "1" deposit) projecting).1,
        ))
        dispatching)

-- ===== src/Tests/Pm.antt =====
-- The theorems on process managers: one event handled, persisted and loaded again, and a command that no
-- router resolves.
use instructed.Prelude.{ℕ, String, ◌≡◌, refl, true, false, some, none, [], ◌∷◌, ◌++◌, select, ap}
use instructed.Errors.MapPg.{map_code, map_pg_error}
use instructed.Types.{RecordedEvent}
use instructed.Result.{Result, ok, throw}
use instructed.Store.{
  WorkItem, find_snapshot, read_snapshot, upsert_snapshot, record_snapshot, order_by,
  stream_version, set_version, insert_by, rows_of,
}
use instructed.Store as Sql
use instructed.Store.Append as SqlAppend
use instructed.Store.Append.{
  exact_base, base_version, has_ids, ids_cast, links_cast, has_row, new_rows, repeats_id,
  check_rows, insert_rows, check_append,
}
use instructed.Store.Snapshots.{kept}
use instructed.Store.Subscriptions.{
  stream_head, keyed, find_subscription, subscription_of, require_subscription,
}
use instructed.Store.Queue.{
  same_partition, same_key, find_item, update_item, claimed_item, done_item, routed_item, item_key,
  done_before, events_of,
}
use instructed.Store.Queue.Calls as SqlQueue
use instructed.Store.Queue.Calls.{require_item}
use instructed.Session.{Session, run, run_query, interfere}
use instructed.Client as Client
use instructed.Client.Queue as ClientQueue
use instructed.Aggregate.{recorded_to_domain, load_pages, load_aggregate}
use instructed.Aggregate.Run.{attempt_once, retry_loop, execute_command}
use instructed.Aggregate.Snapshots.{run_command_and_apply, run_command_with_snapshots}
use instructed.Workers.Pm.{
  ProcessingHandlerContext, PmSubstrateDefinition, StagedWork, Staged, set, rebuild, load_state,
  handle, persist, pm_snapshot, staged_work, key,
}
use instructed.Workers.Pm.Staged.{Handled, handle-Handled, persist-load_state}
use instructed.Workers.Pm.Dispatch.{
  PmDefinition, PmWorkerOptions, DispatchedCommand, explicit, lean, no_router, resolve_dispatch,
  dispatch_one, dispatch_all, substrate_def, substrate_def-fails,
}
use instructed.Bank.{
  account_apply, open_account, BankEvent, AccountState, AccountCommand, account, account_opened,
  account_initial,
}
use instructed.Tests.{platform, deposit}
use instructed.Tests.Queue.{queue}

abbrev event : RecordedEvent BankEvent
event = record {
  event_id = "e1";
  event_number = 1;
  stream_uuid = "Account-1";
  stream_version = 1;
  causation_id = none;
  correlation_id = none;
  metadata = none;
  created_at = 7;
  type = "AccountOpened";
  payload = account_opened "Ann";
}

abbrev context : ProcessingHandlerContext
context = record { worker_id = "w"; partition_key = "a"; event_number = 1; attempt = 1 }

abbrev manager : PmSubstrateDefinition AccountState BankEvent
manager = record {
  type = "pm";
  stream_name = none;
  stream = none;
  initial_state = account_initial;
  apply = λ state e. account.apply state (recorded_to_domain e);
  handle = λ state e ctx w. (ok false, w);
  snapshot_module_version = some "2";
}

abbrev item : WorkItem
item = claimed_item "w" 17 (routed_item (item_key "$all" "pm" "a" 1))

abbrev session : Session BankEvent AccountState
session = record { store = queue 1 (item ∷ []) []; others = []; drawn = 0 }

abbrev one : ℕ → String
one n = "1"

abbrev entry : StagedWork AccountState
entry = staged_work manager one event context (account_apply account_initial event.payload) false

abbrev staged : Staged AccountState
staged = (key one "a" 1, entry) ∷ []

handling : handle manager one event context ([], session) ≡ (ok tt, (staged, session))
unfolding handle set load_state rebuild Client.read_snapshot ClientQueue.list_pm_rebuild_events
    run_query interfere map_pg_error map_code read_snapshot find_snapshot
    SqlQueue.list_pm_rebuild_events require_subscription subscription_of stream_head
    find_subscription keyed select done_before same_partition order_by events_of
handling = refl

handle-Handled_example : Handled manager one event context session staged session
handle-Handled_example = handle-Handled manager one event context [] staged session session handling

abbrev persisted : Session BankEvent AccountState
persisted = record session {
  store =
      queue 1 (done_item item ∷ [])
        (kept (pm_snapshot manager one event context entry) session.store ∷ []);
}

persisting : persist manager one event context false entry session ≡ (ok tt, persisted)
unfolding ClientQueue.complete_work_item_pm run interfere SqlQueue.complete_work_item_pm
    require_item require_subscription subscription_of stream_head find_subscription keyed find_item
    same_key same_partition update_item record_snapshot upsert_snapshot
persisting = refl

persist-load_state_example :
    load_state manager "pm-a" "a" 2 persisted
    ≡ (ok (account_apply account_initial event.payload), persisted)
persist-load_state_example =
    persist-load_state manager one event context entry session persisted "a" 2 persisting refl

-- A process manager whose `handle` returns three commands, in a worker without a router: the first one names its
-- stream, the second one needs the router.
abbrev opening : DispatchedCommand AccountState AccountCommand BankEvent
opening = explicit "Account-9" account (open_account "9" "Bob")

abbrev dispatching : PmDefinition AccountState AccountCommand BankEvent
dispatching = record {
  type = "pm";
  stream_name = none;
  stream = none;
  initial_state = account_initial;
  apply = λ state e. account.apply state (recorded_to_domain e);
  handle = λ state e ctx w. (
    ok (record {
      commands = some ((opening ∷ []) ++ lean deposit ∷ opening ∷ []);
      complete = true;
    }),
    w,
  );
  snapshot_module_version = none;
}

abbrev unrouted : PmWorkerOptions AccountState AccountCommand BankEvent
unrouted = record { router = none; aggregates = none }

loading :
    load_state
      (substrate_def platform (λ _. "DepositToAccount") 9 unrouted dispatching)
      "pm-a"
      "a"
      1
      session
    ≡ (ok account_initial, session)
unfolding substrate_def load_state rebuild Client.read_snapshot ClientQueue.list_pm_rebuild_events
    run_query interfere map_pg_error map_code read_snapshot find_snapshot
    SqlQueue.list_pm_rebuild_events require_subscription subscription_of stream_head
    find_subscription keyed select done_before same_partition order_by events_of
loading = refl

abbrev opening_run : Result (Unit {0}) × Session BankEvent AccountState
opening_run =
    dispatch_all platform (λ _. "DepositToAccount") 9 unrouted event (opening ∷ []) session

opened_first : opening_run.0 ≡ ok tt
unfolding dispatch_all dispatch_one resolve_dispatch run_command_with_snapshots
    run_command_and_apply execute_command retry_loop attempt_once load_aggregate load_pages
    Client.fill_ids Client.read_stream Client.read_snapshot Client.append_filled
    Client.append_to_stream run run_query interfere map_pg_error map_code stream_version set_version
    insert_by order_by rows_of find_snapshot Sql.read_stream read_snapshot exact_base base_version
    has_ids ids_cast links_cast has_row new_rows repeats_id check_rows insert_rows check_append
    SqlAppend.append_to_stream select
opened_first = refl

substrate_def-fails_example :
    handle
      (substrate_def platform (λ _. "DepositToAccount") 9 unrouted dispatching)
      one
      event
      context
      ([], session)
    ≡ (throw no_router, ([], opening_run.1))
unfolding dispatch_one resolve_dispatch substrate_def
substrate_def-fails_example =
    substrate_def-fails platform (λ _. "DepositToAccount") 9 unrouted event dispatching one context
      (opening ∷ []) (opening ∷ []) (lean deposit) true account_initial
      (account_apply account_initial event.payload) no_router [] session session session
      opening_run.1 opening_run.1 loading refl refl (ap (λ q. (q, opening_run.1)) opened_first) refl

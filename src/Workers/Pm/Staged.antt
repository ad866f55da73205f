-- ===== src/Workers/Pm/Staged.antt =====
-- From `handle` to `complete`, and from `complete` to the next state load, of the process-manager substrate
-- (sdks/typescript/src/workers/pm/pm-substrate.ts).
use instructed.Prelude.{
  ℕ, String, ◌≡◌, refl, sym, ap, subst, Bool, true, false, get_or_else, ◌∙◌, Option, none, some, [],
  ◌∷◌, arith, eq_iff,
}
use instructed.Result.{Result, ok, throw, stuck, resolved, ◌>>=◌}
use instructed.Types.{RecordedEvent, SnapshotInput}
use instructed.Store as Sql
use instructed.Store.{Store, WorkItem, ItemKey}
use instructed.Errors.MapPg.{MapPgErrorContext}
use instructed.Store.Snapshots.{kept, read_snapshot-record_snapshot}
use instructed.Store.Subscriptions.{require_text}
use instructed.Store.Queue.{done_item, require_texts, update_item}
use instructed.Store.Queue.Calls as SqlQueue
use instructed.Store.Queue.Calls.{require_item}
use instructed.Session.{Session, resume, interfere, settle, run, run_query}
use instructed.Client as Client
use instructed.Client.Queue as ClientQueue
use instructed.Client.Queue.{CompletePmInstanceResult}
use instructed.Aggregate.{prefix_type, versions_match, snap_module_version}
use instructed.Aggregate.Snapshots.{version_metadata}
use instructed.Workers.Pm.{
  ProcessingHandlerContext, PmSubstrateDefinition, StagedWork, Staged, get, set, delete, key,
  source_uuid_of, load_state, staged_work, after_handle, after_apply, after_load, handle,
  pm_snapshot, persist, beside, complete, forget,
}

module _ {S : Type 0} where
  get-set : (k : String) (x : StagedWork S) (staged : Staged S) → get k (set k x staged) ≡ some x
  unfolding get set
  get-set k x [] = rw ((eq_iff k k).1 refl) refl
  get-set k x ((q, y) ∷ rest) = ground (arith, eq_iff k k, eq_iff q k, get-set k x rest)

module _ {S D : Type 0} (def : PmSubstrateDefinition S D) (decimal : ℕ → String)
    (event : RecordedEvent D) (ctx : ProcessingHandlerContext) where
  abbrev item_key : String
  item_key = key decimal ctx.partition_key ctx.event_number

  -- What `complete` does from a session with the work of this item staged: an instance that is done is
  -- terminated, of one that goes on the state is kept as the snapshot of the event's number, in one call
  -- with the item's completion.
  abbrev pub Completes : S → Bool → Staged S → Session D S → Type 0
  Completes state true staged v =
      let (r, v') =
        ClientQueue.complete_pm_instance (get_or_else def.stream "$all") def.type ctx.partition_key
          (get_or_else def.stream_name (prefix_type def.type) ctx.partition_key) v in
      complete def decimal event ctx (staged, v)
      ≡ ((r >>= λ _. ok tt), (delete item_key staged, v'))
  Completes state false staged v =
      let (r, v') =
        ClientQueue.complete_work_item_pm (get_or_else def.stream "$all") def.type ctx.worker_id
          ctx.partition_key ctx.event_number
          (record {
            source_uuid = get_or_else def.stream_name (prefix_type def.type) ctx.partition_key;
            source_type = def.type;
            source_version = event.event_number;
            payload = state;
            metadata = version_metadata def.snapshot_module_version;
          })
          v in
      complete def decimal event ctx (staged, v) ≡ (r, (delete item_key staged, v'))

  -- The state loaded, what `def.handle` made of the state with the event, and what `complete` then does
  -- from any session.
  pub record Handled (w : Session D S) (staged' : Staged S) (w' : Session D S) : Type 0 where
    pub base : S
    pub state : S
    pub loaded : Session D S
    pub done : Bool
    pub loads :
        load_state def (source_uuid_of def ctx.partition_key) ctx.partition_key ctx.event_number w
        ≡ (ok base, loaded)
    pub applies : def.apply base event ≡ ok state
    pub handles : def.handle state event ctx loaded ≡ (ok done, w')
    pub completes : (v : Session D S) → Completes state done staged' v

  found_entry :
      (staged' : Staged S) (entry : StagedWork S)
      → get (key decimal ctx.partition_key ctx.event_number) staged' ≡ some entry
      → (v : Session D S)
      → complete def decimal event ctx (staged', v)
        ≡ beside def decimal event ctx
            (delete (key decimal ctx.partition_key ctx.event_number) staged')
            (persist def decimal event ctx entry.complete entry v)
  unfolding complete
  found_entry staged' entry found v = rw found refl

  forget-bind :
      (q : Result CompletePmInstanceResult × Session D S)
      → forget def decimal event ctx q ≡ ((q.0 >>= λ _. ok tt), q.1)
  forget-bind (ok _, w) = refl
  forget-bind (throw e, w) = refl
  forget-bind (stuck, w) = refl

  Completes-found :
      (state : S) (done : Bool) (staged' : Staged S)
      → get item_key staged' ≡ some (staged_work def decimal event ctx state done)
      → (v : Session D S) → Completes state done staged' v
  Completes-found state true staged' found v =
      found_entry staged' _ found v
      ∙ ap (beside def decimal event ctx (delete item_key staged')) (forget-bind _)
  Completes-found state false staged' found v = found_entry staged' _ found v

  -- When the substrate's `handle` has returned, it loaded a state and `def.handle` returned on that state with the
  -- event applied, which did not throw. From any session, `complete` for the same item then terminates the instance where
  -- `def.handle` said that it is done; where not, it completes the item with that state as the snapshot of the
  -- event's number; in both cases it passes on how that call ended, and the work is no longer staged.
  pub handle-Handled :
      (staged staged' : Staged S) (w w' : Session D S)
      → handle def decimal event ctx (staged, w) ≡ (ok tt, (staged', w'))
      → Handled w staged' w'
  unfolding handle
  handle-Handled staged staged' w w' h =
      loading
        (load_state def (source_uuid_of def ctx.partition_key) ctx.partition_key ctx.event_number w)
        refl h
    where
      handling :
          (base state : S) (loaded : Session D S)
          → load_state def
              (source_uuid_of def ctx.partition_key)
              ctx.partition_key
              ctx.event_number
              w
            ≡ (ok base, loaded)
          → def.apply base event ≡ ok state
          → (q : Result Bool × Session D S) → def.handle state event ctx loaded ≡ q
          → after_handle def decimal event ctx state staged q ≡ (ok tt, (staged', w'))
          → Handled w staged' w'
      handling base state loaded e applied (throw t, v) e1 e2 = absurd cc
      handling base state loaded e applied (stuck, v) e1 e2 = absurd cc
      handling base state loaded e applied (ok done, v) e1 e2 =
          let same : v ≡ w' = cc in
          let k = key decimal ctx.partition_key ctx.event_number in
          let entry = staged_work def decimal event ctx state done in
          let after : staged' ≡ set k entry staged = cc in
          record {
            base = base;
            state = state;
            applies = applied;
            loaded = loaded;
            done = done;
            loads = e;
            handles = subst (λ z. def.handle state event ctx loaded ≡ (ok done, z)) same e1;
            completes = λ u.
                Completes-found state done staged'
                  (subst (λ z. get k z ≡ some entry) (sym after) (get-set k entry staged)) u;
          }

      applying :
          (base : S) (loaded : Session D S)
          → load_state def
              (source_uuid_of def ctx.partition_key)
              ctx.partition_key
              ctx.event_number
              w
            ≡ (ok base, loaded)
          → (q : Result S) → def.apply base event ≡ q
          → after_apply def decimal event ctx staged q loaded ≡ (ok tt, (staged', w'))
          → Handled w staged' w'
      applying base loaded e (throw t) applied e2 = absurd cc
      applying base loaded e stuck applied e2 = absurd cc
      applying base loaded e (ok state) applied e2 =
          handling base state loaded e applied (def.handle state event ctx loaded) refl e2

      loading :
          (q : Result S × Session D S)
          → load_state def
              (source_uuid_of def ctx.partition_key)
              ctx.partition_key
              ctx.event_number
              w
            ≡ q
          → after_load def decimal event ctx staged q ≡ (ok tt, (staged', w'))
          → Handled w staged' w'
      loading (throw t, v) e1 e2 = absurd cc
      loading (stuck, v) e1 e2 = absurd cc
      loading (ok base, v) e1 e2 = applying base v e1 (def.apply base event) refl e2

version-kept :
    (version : Option String)
    → versions_match version (snap_module_version (version_metadata version)) ≡ true
version-kept none = refl
version-kept (some v) = (eq_iff v v).1 refl

module _ {S D : Type 0} where
  -- The snapshot that `complete_work_item_pm` was given is what a read of its source returns.
  read-completed :
      (worker : String) (k : ItemKey) (x : SnapshotInput S) (s : Store D S) {s' : Store D S}
      → SqlQueue.complete_work_item_pm worker k x s ≡ ok (tt, s')
      → (t : Store D S) × (Sql.read_snapshot x.source_uuid s' ≡ ok (kept x t))
  unfolding SqlQueue.complete_work_item_pm
  read-completed worker k x s {s'} h =
      let checked = resolved _ (require_texts "complete_work_item_pm" worker k) h in
      let uuid =
        resolved _
          (require_text x.source_uuid "complete_work_item_pm: p_snapshot_uuid is null/empty")
          checked.rest_ok in
      let type =
        resolved _
          (require_text x.source_type "complete_work_item_pm: p_snapshot_type is null/empty")
          uuid.rest_ok in
      let held = resolved _ (require_item "complete_work_item_pm" worker k s) type.rest_ok in
      let t : Store D S = record s { work_items = update_item k done_item s.work_items } in
      (t, read_snapshot-record_snapshot x t held.rest_ok)

  settled-ok :
      (ctx : MapPgErrorContext) (q : Result (Unit {0} × Store D S)) (w v : Session D S)
      → settle ctx q w ≡ (ok tt, v)
      → q ≡ ok (tt, v.store)
  settled-ok ctx (ok (a, s)) w v h = cc
  settled-ok ctx (throw e) w v h = absurd cc
  settled-ok ctx stuck w v h = absurd cc

  module _ (def : PmSubstrateDefinition S D) (decimal : ℕ → String) (event : RecordedEvent D)
      (ctx : ProcessingHandlerContext) where
    -- When `complete` has persisted a staged state of an instance that goes on, with no
    -- other session at work after it, the next load of that instance's state returns the
    -- state staged, at any event, without a rebuild and with the session as it was.
    pub persist-load_state :
        (entry : StagedWork S) (v v' : Session D S) (partition : String) (n : ℕ)
        → persist def decimal event ctx false entry v ≡ (ok tt, v')
        → v'.others ≡ []
        → load_state def entry.source_uuid partition n v' ≡ (ok entry.staged_state, v')
    unfolding load_state ClientQueue.complete_work_item_pm Client.read_snapshot run run_query
        interfere
    persist-load_state entry v v' partition n h alone =
        let x = pm_snapshot def decimal event ctx entry in
        let done = settled-ok _ _ _ v' h in
        let read = read-completed _ _ x _ done in
        let still : interfere v' ≡ v' = ap (λ fs. resume fs v') alone in
        rw (still, read.1, version-kept def.snapshot_module_version) refl

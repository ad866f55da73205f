-- ===== src/Facade/Waits.antt =====
-- `dispatch` of the facade (sdks/typescript/src/facade/instructed.ts): what a dispatch that returned has done.
use instructed.Prelude.{
  ℕ, ◌+◌, length, ◌≤◌, String, ◌≡◌, refl, sym, subst, ◌∙◌, ◌⊎◌, inl, inr, none, List, [], ◌∷◌,
}
use mathlib.Core.List.{Memᴰ}
use mathlib.Core.List.Memᴰ
use instructed.Result.{Result, ok, throw, stuck, ◌>>=◌}
use instructed.Types.{AppendedEvent}
use instructed.Store.{rows_of}
use instructed.Session.{Session, Platform}
use instructed.Aggregate.{AggregateDefinition}
use instructed.Aggregate.Replay.{Trusts, replay}
use instructed.Aggregate.Run.{RunCommandOptions, ExecutedCommand, execute_command}
use instructed.Aggregate.Serial.{Outcome}
use instructed.Aggregate.Occ.{cause, execute_command-Outcome}
use instructed.Aggregate.Applied.{ReadsNull}
use instructed.Aggregate.Truthful.{Returns, asks, run_command_with_snapshots-Returns}
use instructed.Aggregate.Snapshots.{run_command_with_snapshots}
use instructed.Consistency.{SubscriptionRef, WaitForProjectionOptions, ref_key, wait_for_projection}
use instructed.Consistency.Polls.{SeenCaughtUp, wait_for_projection-caught_up}
use instructed.Facade.Registry.{
  DispatchOptions, Registry, Call, Target, normalise_consistency, target_of, run_options, returning,
  after_run, run_target, dispatch,
}

bound_last : {B E : Type 0} {x y : E} (q : Result B) → (q >>= λ _. ok x) ≡ ok y → x ≡ y
bound_last (ok b) h = cc
bound_last (throw e) h = absurd cc
bound_last stuck h = absurd cc

module _ {A B E : Type 0} {x y : E} where
  -- What is returned at the end of two steps that did not throw.
  twice_bound :
      (q : Result A) (rest : A → Result B) → (q >>= λ a. rest a >>= λ _. ok x) ≡ ok y → x ≡ y
  twice_bound (ok a) rest h = bound_last (rest a) h
  twice_bound (throw e) rest h = absurd cc
  twice_bound stuck rest h = absurd cc

module _ {S C D : Type 0} (p : Platform) (def : AggregateDefinition S C D) (u : String)
    (command : C) (opts : RunCommandOptions) (fuel : ℕ) (w : Session D S) where
  -- The command was executed, with these events.
  pub record Executed (appended : List AppendedEvent) : Type 0 where
    pub executed : ExecutedCommand S D
    pub committed : Session D S
    pub runs : execute_command p def u command opts fuel w ≡ (ok executed, committed)
    pub outcome : Outcome p def u command (cause p def u opts w) opts (ok executed, committed)
    pub same : executed.appended ≡ appended

  was_run :
      (q : Result (ExecutedCommand S D) × Session D S)
      → execute_command p def u command opts fuel w ≡ q
      → Outcome p def u command (cause p def u opts w) opts q
      → (appended : List AppendedEvent) (ran : Session D S) → Returns p def u q (ok appended, ran)
      → Executed appended
  was_run (ok r, v) runs h appended ran (t, inl (none_run, nothing)) = record {
    executed = r;
    committed = v;
    runs = runs;
    outcome = h;
    same = cc;
  }
  was_run (ok r, v) runs h appended ran (t, inr result) = record {
    executed = r;
    committed = v;
    runs = runs;
    outcome = h;
    same =
        twice_bound (replay def (rows_of u v.store.log))
          (λ state.
            asks p def u def.snapshot_policy state (length (rows_of u v.store.log))
              (r.loaded_events_since_snapshot + length r.appended))
          (sym result);
  }
  was_run (throw e, v) runs h appended ran (failed, t) = absurd cc
  was_run (stuck, v) runs h appended ran (failed, t) = absurd cc

  -- A command that `runCommandWithSnapshots` returns from was executed.
  run_command_with_snapshots-Executed :
      (appended : List AppendedEvent) (ran : Session D S)
      → ReadsNull p def u
      → opts.expected_version ≡ none
      → Trusts def u w
      → run_command_with_snapshots p def u command opts fuel w ≡ (ok appended, ran)
      → Executed appended
  run_command_with_snapshots-Executed appended ran reads default t h =
      was_run (execute_command p def u command opts fuel w) refl
        (execute_command-Outcome p def u command opts fuel w default t) appended ran
        (subst (Returns p def u (execute_command p def u command opts fuel w)) h
          (run_command_with_snapshots-Returns p def u command opts fuel w reads default t))

module _ {S C D : Type 0} (p : Platform) (fuel wait_fuel : ℕ) (clock : ℕ → ℕ)
    (opts : DispatchOptions) (r : Registry S C D) (call : Call C) (w : Session D S) where
  abbrev waiting : WaitForProjectionOptions
  waiting = record { poll_interval = none; timeout = opts.consistency_timeout }

  -- What a dispatch that returned has done: the command took effect at one point of the stream's history or had
  -- nothing to do; then each subscription was seen caught up with each event, and without events or subscriptions
  -- nothing was waited for.
  pub record Dispatched (t : Target S C D) (appended : List AppendedEvent) (w' : Session D S)
      : Type 0 where
    pub ran : Session D S
    pub runs :
        run_command_with_snapshots p t.aggregate t.stream_uuid t.command (run_options opts) fuel w
        ≡ (ok appended, ran)
    pub took_effect :
        Executed p t.aggregate t.stream_uuid t.command (run_options opts) fuel w appended
    pub waited :
        (e : AppendedEvent) (s : SubscriptionRef)
        → Memᴰ e appended
        → Memᴰ s (normalise_consistency opts.consistency)
        → (target : ℕ) × (e.event_number ≤ target)
          × ((s' : SubscriptionRef) × (ref_key s' ≡ ref_key s) × SeenCaughtUp target ran s')
    pub without_events : appended ≡ [] → w' ≡ ran
    pub without_subscriptions : normalise_consistency opts.consistency ≡ [] → w' ≡ ran

  returned :
      (events appended : List AppendedEvent) (w' : Session D S)
      (q : Result (Unit {0}) × Session D S)
      → returning wait_fuel clock opts events q ≡ (ok appended, w')
      → (events ≡ appended) × (q ≡ (ok tt, w'))
  returned events appended w' (ok x, u) q = (cc, cc)
  returned events appended w' (throw t, u) q = absurd cc
  returned events appended w' (stuck, u) q = absurd cc

  caught_up :
      (events : List AppendedEvent) (v w' : Session D S)
      → wait_for_projection clock wait_fuel waiting events
          (normalise_consistency opts.consistency)
          v
        ≡ (ok tt, w')
      → (e : AppendedEvent) (s : SubscriptionRef) → Memᴰ e events
      → Memᴰ s (normalise_consistency opts.consistency)
      → (target : ℕ) × (e.event_number ≤ target)
        × ((s' : SubscriptionRef) × (ref_key s' ≡ ref_key s) × SeenCaughtUp target v s')
  caught_up [] v w' q e s m j = absurd (Memᴰ.not-nil m)
  caught_up (a ∷ as') v w' q e s m j =
      wait_for_projection-caught_up clock wait_fuel waiting a as'
        (normalise_consistency opts.consistency) v e s q m j

  not_waited :
      (events : List AppendedEvent) (subs : List SubscriptionRef) (v w' : Session D S)
      → (events ≡ []) ⊎ (subs ≡ [])
      → wait_for_projection clock wait_fuel waiting events subs v ≡ (ok tt, w')
      → w' ≡ v
  unfolding wait_for_projection
  not_waited [] subs v w' h q = cc
  not_waited (a ∷ as') [] v w' h q = cc
  not_waited (a ∷ as') (s ∷ ss) v w' (inl h) q = absurd cc
  not_waited (a ∷ as') (s ∷ ss) v w' (inr h) q = absurd cc

  after_run-Dispatched :
      (t : Target S C D) (appended : List AppendedEvent) (w' : Session D S)
      → ReadsNull p t.aggregate t.stream_uuid
      → opts.expected_version ≡ none
      → Trusts t.aggregate t.stream_uuid w
      → (q : Result (List AppendedEvent) × Session D S)
      → run_command_with_snapshots p t.aggregate t.stream_uuid t.command (run_options opts) fuel w
        ≡ q
      → after_run wait_fuel clock opts q ≡ (ok appended, w')
      → Dispatched t appended w'
  after_run-Dispatched t appended w' reads default trusts (throw x, v) ran h = absurd cc
  after_run-Dispatched t appended w' reads default trusts (stuck, v) ran h = absurd cc
  after_run-Dispatched t appended w' reads default trusts (ok events, v) ran h =
      let told = returned events appended w' _ h in
      let subs = normalise_consistency opts.consistency in
      record {
        ran = v;
        runs =
            subst
              (λ l.
                run_command_with_snapshots p t.aggregate t.stream_uuid t.command (run_options opts)
                  fuel w
                ≡ (ok l, v))
              told.0 ran;
        took_effect =
            subst (Executed p t.aggregate t.stream_uuid t.command (run_options opts) fuel w) told.0
              (run_command_with_snapshots-Executed p t.aggregate t.stream_uuid t.command
                (run_options opts) fuel w events v reads default trusts ran);
        waited = λ e s m j. caught_up events v w' told.1 e s (subst (Memᴰ e) (sym told.0) m) j;
        without_events = λ empty. not_waited events subs v w' (inl (told.0 ∙ empty)) told.1;
        without_subscriptions = λ empty. not_waited events subs v w' (inr empty) told.1;
      }

  -- A dispatch to an aggregate that the registry has, at the default expectation, from a sound store that other
  -- sessions keep sound while they only extend the stream, for an `apply` that takes missing metadata as null: when
  -- it has returned, its command took effect as a whole at one point of the stream's history, with the events
  -- returned, or had nothing to do and no events are returned. After that, every subscription of `consistency`
  -- (or one with the same key) was seen caught up to a position at or after each event returned; where there are
  -- no events or no subscriptions, nothing was asked.
  pub dispatch-Dispatched :
      (t : Target S C D) (appended : List AppendedEvent) (w' : Session D S)
      → target_of r call ≡ ok t
      → ReadsNull p t.aggregate t.stream_uuid
      → opts.expected_version ≡ none
      → Trusts t.aggregate t.stream_uuid w
      → dispatch p fuel wait_fuel clock opts r call w ≡ (ok appended, w')
      → Dispatched t appended w'
  unfolding dispatch
  dispatch-Dispatched t appended w' found reads default trusts h =
      after_run-Dispatched t appended w' reads default trusts _ refl
        (subst (λ q. run_target p fuel wait_fuel clock opts q w ≡ (ok appended, w')) found h)

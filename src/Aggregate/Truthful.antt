-- ===== src/Aggregate/Truthful.antt =====
-- `runCommandWithSnapshots` (aggregate/snapshots.ts): its result, and the snapshots that it writes.
use instructed.Prelude.{
  ℕ, ◌+◌, ◌≤◌, ◌<◌, arith, ◌⊎◌, inl, inr, length, take, take-all, Option, String, Bool, true, false,
  ◌==◌, ◌≡◌, refl, sym, ap, subst, ◌∙◌, none, some, List, [], ◌∷◌, eq_iff,
}
use instructed.Result.{Result, ok, throw, stuck, ◌>>=◌}
use instructed.Types.{Snapshot, AppendedEvent}
use instructed.Store as Sql
use instructed.Store.{Store, find_snapshot, rows_of}
use instructed.Store.Snapshots.{
  kept, with_kept, find_snapshot-upsert_snapshot, record_snapshot-eq-ok,
}
use instructed.Session.{Session, Platform, interfere, run, settle}
use instructed.Client
use instructed.Client.{on_source}
use instructed.Aggregate.{AggregateDefinition, SnapshotPolicy}
use instructed.Aggregate.Replay.{Trusts, Sees, IsSound, replay, interfere-Trusts, Sees-Extends}
use instructed.Aggregate.Run.{RunCommandOptions, ExecutedCommand, execute_command}
use instructed.Aggregate.Applied.{
  AppliedTo, ReadsNull, ran_in, ran_loaded, run_command_and_apply-AppliedTo,
}
use instructed.Aggregate.Snapshots.{
  RanCommand, snapshot_input, wants_snapshot, snapshot_if, consider_snapshot, after_run,
  run_command_and_apply, run_command_with_snapshots,
}

module _ {S C D : Type 0} (p : Platform) (def : AggregateDefinition S C D) (u : String) where
  module _ (r : RanCommand S) (s : Store D S) (sound : IsSound def u s)
      (h : Sees def u (ran_loaded p def u r) s) where
    is_kept :
        (snap : Snapshot S)
        → find_snapshot u (with_kept (snapshot_input p def u r) s).snapshots ≡ some snap
        → kept (snapshot_input p def u r) s ≡ snap
    is_kept snap found =
        let own : (u == u) ≡ true = (eq_iff u u).1 refl in
        let e : find_snapshot u (with_kept (snapshot_input p def u r) s).snapshots
            ≡ some (kept (snapshot_input p def u r) s) =
          rw (find_snapshot-upsert_snapshot, own) refl in
        cc

    -- A snapshot of a state that the stream has had is truthful.
    with_kept-IsSound : IsSound def u (with_kept (snapshot_input p def u r) s)
    with_kept-IsSound = record {
      valid = record {
        numbered = sound.valid.numbered;
        total = sound.valid.total;
        versions = sound.valid.versions;
        counts = sound.valid.counts;
      };
      agrees = λ snap found matches.
          subst
            (λ (x : Snapshot S).
              (x.source_version ≤ length (rows_of u s.log))
              × (ok x.payload ≡ replay def (take x.source_version (rows_of u s.log))))
            (is_kept snap found) (h.bounded, h.state);
    }

  module _ (r : RanCommand S) where
    settled :
        (w : Session D S)
        → Trusts def u w
        → Sees def u (ran_loaded p def u r) w.store
        → (x : Result (Unit {0} × Store D S))
        → Sql.record_snapshot (snapshot_input p def u r) w.store ≡ x
        → Trusts def u (settle (on_source u) x w).1
    settled w t h (throw e) c = t
    settled w t h stuck c = t
    settled w t h (ok done) c =
        subst (λ (d : Unit {0} × Store D S). Trusts def u (record w { store = d.1 }))
          (sym (record_snapshot-eq-ok (snapshot_input p def u r) w.store c))
          (record { sound = with_kept-IsSound r w.store t.sound h; rely = t.rely })

    record_snapshot-Trusts :
        (w : Session D S)
        → Trusts def u w
        → Sees def u (ran_loaded p def u r) w.store
        → Trusts def u (Client.record_snapshot (snapshot_input p def u r) w).1
    unfolding Client.record_snapshot run
    record_snapshot-Trusts w t h =
        let (t', x) = interfere-Trusts def u w t in
        settled (interfere w) t' (Sees-Extends def u h x) _ refl

    snapshot_if-Trusts :
        (wanted : Result Bool) (w : Session D S)
        → Trusts def u w
        → Sees def u (ran_loaded p def u r) w.store
        → Trusts def u (snapshot_if p def u wanted r w).1
    snapshot_if-Trusts (ok true) w t h = record_snapshot-Trusts w t h
    snapshot_if-Trusts (ok false) w t h = t
    snapshot_if-Trusts (throw e) w t h = t
    snapshot_if-Trusts stuck w t h = t

    snapshot_if-result :
        (wanted : Result Bool) (w : Session D S)
        → (snapshot_if p def u wanted r w).0 ≡ (wanted >>= λ _. ok r.appended)
    snapshot_if-result (ok true) w = refl
    snapshot_if-result (ok false) w = refl
    snapshot_if-result (throw e) w = refl
    snapshot_if-result stuck w = refl

    consider_some :
        (appended : List AppendedEvent) (w : Session D S)
        → 0 < length appended
        → consider_snapshot p def u r appended w
          ≡ snapshot_if p def u (wants_snapshot p def u def.snapshot_policy r) r w
    consider_some [] w h = absurd (omega (arith, h))
    consider_some (a ∷ rest) w h = refl

  -- What the policy says, where there is one.
  abbrev pub asks : Option (SnapshotPolicy S) → S → ℕ → ℕ → Result Bool
  asks none state version since = ok false
  asks (some policy) state version since = policy.should_snapshot state version since

  -- What comes of a command that appended events: `apply` on the whole stream and the policy may throw after
  -- the append, and nothing else changes the result.
  abbrev pub unless_user_code_throws : ExecutedCommand S D → Store D S → Result (List AppendedEvent)
  unless_user_code_throws r s = replay def (rows_of u s.log) >>= λ state.
      asks def.snapshot_policy state (length (rows_of u s.log))
        (r.loaded_events_since_snapshot + length r.appended)
      >>= λ _. ok r.appended

  -- The result beside that of `executeCommand`, and that the next command can rely on the same.
  abbrev pub Returns :
      Result (ExecutedCommand S D) × Session D S
      → Result (List AppendedEvent) × Session D S
      → Type 0
  Returns (ok r, w) (x, w') =
      Trusts def u w'
      × (((r.appended ≡ []) × (x ≡ ok [])) ⊎ (x ≡ unless_user_code_throws r w.store))
  Returns (throw e, w) x = (x ≡ (throw e, w)) × Trusts def u w
  Returns (stuck, w) x = (x ≡ (stuck, w)) × Trusts def u w

  asks-wants :
      (policy : Option (SnapshotPolicy S)) (r : RanCommand S)
      → wants_snapshot p def u policy r ≡ asks policy r.state r.version r.events_since_snapshot
  asks-wants none r = refl
  asks-wants (some policy) r = refl

  module _ (r : ExecutedCommand S D) (w : Session D S) (t : Trusts def u w) where
    moved :
        (x : Result S)
        → 0 < length r.appended
        → replay def (rows_of u w.store.log) ≡ x
        → let n = length (rows_of u w.store.log) in
          Returns (ok r, w) (after_run p def u (x >>= λ state. ok (ran_in p def u r n state)) w)
    moved (throw e) some_event h = (t, inr (rw h refl))
    moved stuck some_event h = (t, inr (rw h refl))
    moved (ok state) some_event h =
        let n = length (rows_of u w.store.log) in
        let ran : RanCommand S = ran_in p def u r n state in
        let sees : Sees def u (ran_loaded p def u ran) w.store = record {
          bounded = omega arith;
          state = sym h ∙ ap (replay def) (sym (take-all n (rows_of u w.store.log) (omega arith)));
        } in
        let wanted = wants_snapshot p def u def.snapshot_policy ran in
        let e : Returns (ok r, w) (snapshot_if p def u wanted ran w) = (
          snapshot_if-Trusts ran wanted w t sees,
          inr (snapshot_if-result ran wanted w ∙ rw (h, asks-wants def.snapshot_policy ran) refl),
        ) in
        subst (Returns (ok r, w)) (sym (consider_some ran r.appended w some_event)) e

    unmoved :
        (ran : RanCommand S)
        → r.appended ≡ []
        → ran.appended ≡ []
        → Returns (ok r, w) (after_run p def u (ok ran) w)
    unmoved ran none_run nothing =
        subst (λ l. Returns (ok r, w) (consider_snapshot p def u ran l w)) (sym nothing)
          (t, inl (none_run, ap ok nothing))

  after_run-Returns :
      (r : Result (ExecutedCommand S D)) (w : Session D S) (x : Result (RanCommand S))
      → AppliedTo p def u (r, w) (x, w)
      → Returns (r, w) (after_run p def u x w)
  after_run-Returns (ok r) w x (t, inl z) =
      subst (λ y. Returns (ok r, w) (after_run p def u y w)) (sym z.resolved)
        (unmoved r w t z.ran z.nothing.0 z.nothing.1)
  after_run-Returns (ok r) w x (t, inr z) =
      subst (λ y. Returns (ok r, w) (after_run p def u y w)) (sym z.result)
        (moved r w t (replay def (rows_of u w.store.log)) z.some_event refl)
  after_run-Returns (throw e) w x (failed, t) =
      subst
        (λ (y : Result (RanCommand S) × Session D S).
          Returns (throw e, w) (after_run p def u y.0 y.1))
        (sym failed) (refl, t)
  after_run-Returns stuck w x (failed, t) =
      subst
        (λ (y : Result (RanCommand S) × Session D S).
          Returns (stuck, w) (after_run p def u y.0 y.1))
        (sym failed) (refl, t)

  -- At the default expectation, from a sound store that the other sessions keep sound while they only extend the
  -- stream, for an `apply` that takes missing metadata as null: where `executeCommand` fails,
  -- `runCommandWithSnapshots` fails with its error; where it appended nothing, the result is no events; where it
  -- appended events, the result is those events, unless `apply` throws in the fold of the whole stream, or
  -- `shouldSnapshot` on its state, version and count, when it is that error. Whether a snapshot is written, and
  -- whether that fails, makes no difference to it. In every case a snapshot of the aggregate's module version
  -- still holds the state of a prefix of the stream, at the version that it says.
  pub run_command_with_snapshots-Returns :
      (command : C) (opts : RunCommandOptions) (fuel : ℕ) (w : Session D S)
      → ReadsNull p def u
      → opts.expected_version ≡ none
      → Trusts def u w
      → Returns
          (execute_command p def u command opts fuel w)
          (run_command_with_snapshots p def u command opts fuel w)
  unfolding run_command_with_snapshots run_command_and_apply
  run_command_with_snapshots-Returns command opts fuel w reads default t =
      let (r, w') = execute_command p def u command opts fuel w in
      after_run-Returns r w' (run_command_and_apply p def u command opts fuel w).0
        (run_command_and_apply-AppliedTo p def u command opts fuel w reads default t)

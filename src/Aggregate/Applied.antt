-- ===== src/Aggregate/Applied.antt =====
-- `runCommandAndApply` (aggregate/run-command.ts): the state and the version that it returns.
use instructed.Prelude.{
  ℕ, suc, ◌+◌, ◌<◌, String, Bool, true, ◌==◌, ◌≡◌, refl, sym, ap, ◌∙◌, ◌⊎◌, inl, inr, none, some,
  List, [], ◌∷◌, ◌++◌, map, arith, eq_iff, if◌then◌else◌, length, length-append, length-map, Option,
}
use instructed.Json.{Json}
use instructed.Result.{Result, ok, throw, stuck, ◌>>=◌}
use instructed.Types.{NewEvent}
use instructed.Store.{RawEventRow, Store, rows_of}
use instructed.Store.Append.{PackedEvent, new_rows}
use instructed.Store.Valid.{
  version_of, appended_rows, after_append, rows_of-after_append, length-new_rows,
}
use instructed.Session.{Session, Platform}
use instructed.Client.{fill_ids, appended_event}
use instructed.Aggregate.{AggregateDefinition, LoadedAggregate}
use instructed.Aggregate.Replay.{Trusts, Sees, IsSound, replay, replay_from, replay_from-append}
use instructed.Aggregate.Run.{RunCommandOptions, ExecutedCommand, to_domain, given, execute_command}
use instructed.Aggregate.Serial.{Outcome, Serialised, Idle}
use instructed.Aggregate.Occ.{cause, execute_command-Outcome}
use instructed.Aggregate.Snapshots.{
  RanCommand, last_version, fold_filled, apply_appended, run_command_and_apply, ran_unless, ran_at,
}

nothing_less : 0 < 0 → ⊥
nothing_less h = omega arith

module _ {D : Type 0} where
  last_version-new_rows :
      (u : String) (now sv en : ℕ) (e : PackedEvent D) (es : List (PackedEvent D))
      → last_version (map (appended_event u) (new_rows u now sv en (e ∷ es)))
        ≡ some (sv + length (e ∷ es))
  unfolding new_rows
  last_version-new_rows u now sv en e [] = ap some (omega arith)
  last_version-new_rows u now sv en e (e' ∷ es) =
      last_version-new_rows u now (suc sv) (suc en) e' es ∙ ap some (omega arith)

  length-fill_ids :
      (f : ℕ → String) (i : ℕ) (es : List (NewEvent D)) → length (fill_ids f i es) ≡ length es
  unfolding fill_ids
  length-fill_ids f i [] = refl
  length-fill_ids f i (e ∷ es) = ap suc (length-fill_ids f (suc i) es)

module _ {S C D : Type 0} (p : Platform) (def : AggregateDefinition S C D) (u : String) where
  -- `apply` takes metadata that is missing as it takes null: an event appended without it is read back with null.
  abbrev pub ReadsNull : Type 0
  ReadsNull =
      (state : S) (type : String) (payload : D)
      → def.apply state (record { type = type; payload = payload; metadata = none })
        ≡ def.apply state (record { type = type; payload = payload; metadata = some none })

  given-read :
      ReadsNull
      → (metadata : Option Json) (state : S) (type : String) (payload : D)
      → def.apply state (record { type = type; payload = payload; metadata = given metadata })
        ≡ def.apply state (record { type = type; payload = payload; metadata = some metadata })
  given-read reads none state type payload = reads state type payload
  given-read reads (some m) state type payload = refl

  applied-read :
      ReadsNull
      → (r : Result S) (e : NewEvent D)
      → (r >>= λ state. def.apply state (to_domain e)) ≡ (
          r >>= λ state.
          def.apply state
            (record { type = e.type; payload = e.payload; metadata = some e.metadata }))
  applied-read reads (throw x) e = refl
  applied-read reads stuck e = refl
  applied-read reads (ok state) e = given-read reads e.metadata state e.type e.payload

  -- Folding the events in is what a replay of their rows will do.
  fold_filled-replay :
      ReadsNull
      → (r : Result S) (now sv en i : ℕ) (es : List (NewEvent D))
      → fold_filled def r es
        ≡ replay_from def r (new_rows u now sv en (fill_ids p.random_uuid i es))
  unfolding new_rows fill_ids
  fold_filled-replay reads r now sv en i [] = refl
  fold_filled-replay reads r now sv en i (e ∷ es) =
      fold_filled-replay reads (r >>= λ state. def.apply state (to_domain e)) now (suc sv) (suc en)
        (suc i) es
      ∙ ap
          (λ q.
            replay_from def q
              (new_rows u now (suc sv) (suc en) (fill_ids p.random_uuid (suc i) es)))
          (applied-read reads r e)

  rows_of-own :
      (events : List (PackedEvent D)) (s : Store D S)
      → rows_of u (after_append u events s).log ≡ rows_of u s.log ++ appended_rows u events s
  rows_of-own events s =
      let own : (u == u) ≡ true = (eq_iff u u).1 refl in
      rows_of-after_append u u events s
      ∙ ap (λ (b : Bool). rows_of u s.log ++ (if b then appended_rows u events s else [])) own

  -- What a command that has run is seen with: its state and version.
  abbrev pub ran_loaded : RanCommand S → LoadedAggregate S
  ran_loaded r = record {
    state = r.state;
    version = r.version;
    events_since_snapshot = r.events_since_snapshot;
  }

  -- A command without events: the state returned is one that the stream has had.
  pub record Unmoved (r : ExecutedCommand S D) (x : Result (RanCommand S)) (w : Session D S)
      : Type 0 where
    pub ran : RanCommand S
    pub resolved : x ≡ ok ran
    pub nothing : (r.appended ≡ []) × (ran.appended ≡ [])
    pub sees : Sees def u (ran_loaded ran) w.store

  -- What a command that appended events resolves to, in the state of the whole stream.
  abbrev pub ran_in : ExecutedCommand S D → ℕ → S → RanCommand S
  ran_in r version state = record {
    appended = r.appended;
    state = state;
    version = version;
    events_since_snapshot = r.loaded_events_since_snapshot + length r.appended;
  }

  -- A command with events, which are on the stream: it resolves in the state of the whole stream, or `apply`
  -- throws in the fold of the stream and its error is the result.
  pub record Moved (r : ExecutedCommand S D) (x : Result (RanCommand S)) (w : Session D S)
      : Type 0 where
    pub some_event : 0 < length r.appended
    pub earlier : List (RawEventRow D)
    pub added : List (RawEventRow D)
    pub on_stream : rows_of u w.store.log ≡ earlier ++ added
    pub events : r.appended ≡ map (appended_event u) added
    pub result : x ≡ (
        replay def (rows_of u w.store.log) >>= λ state.
        ok (ran_in r (length (rows_of u w.store.log)) state))

  abbrev pub Applied : ExecutedCommand S D → Result (RanCommand S) × Session D S → Type 0
  Applied r (x, w) = Trusts def u w × (Unmoved r x w ⊎ Moved r x w)

  module _ (before : Store D S) (drawn : ℕ) where
    abbrev packed : List (NewEvent D) → List (PackedEvent D)
    packed = fill_ids p.random_uuid drawn

    abbrev after : List (NewEvent D) → Store D S
    after filled = after_append u (packed filled) before

    length-after :
        (filled : List (NewEvent D))
        → IsSound def u before
        → length (rows_of u (after filled).log) ≡ version_of u before + length (packed filled)
    length-after filled sound =
        rw (rows_of-own (packed filled) before, length-append {0})
          (omega (
            arith,
            sound.valid.counts u,
            length-new_rows u before.now (version_of u before) before.all_version (packed filled),
          ))

    version-after :
        (filled : List (NewEvent D))
        → IsSound def u before
        → 0 < length filled
        → last_version (map (appended_event u) (appended_rows u (packed filled) before))
          ≡ some (length (rows_of u (after filled).log))
    unfolding fill_ids
    version-after [] sound some_event = elim (nothing_less some_event) [ ]
    version-after (e ∷ es) sound some_event =
        last_version-new_rows u before.now (version_of u before) before.all_version _ _
        ∙ ap some (sym (length-after (e ∷ es) sound))

    some-after :
        (filled : List (NewEvent D))
        → 0 < length filled
        → 0 < length (map (appended_event u) (appended_rows u (packed filled) before))
    some-after filled some_event = rw (length-map {0, 0}) (
        omega (
          arith,
          some_event,
          length-new_rows u before.now (version_of u before) before.all_version (packed filled),
          length-fill_ids p.random_uuid drawn filled,
        ))

    state-after :
        ReadsNull
        → (filled : List (NewEvent D)) {state : S} → ok state ≡ replay def (rows_of u before.log)
        → fold_filled def (ok state) filled ≡ replay def (rows_of u (after filled).log)
    state-after reads filled {state} h =
        fold_filled-replay reads (ok state) before.now (version_of u before) before.all_version
          drawn filled
        ∙ rw (h, rows_of-own (packed filled) before)
            (sym (replay_from-append def (ok def.initial_state) (rows_of u before.log) _))

  module _ (command : C) (causation : String) (opts : RunCommandOptions) (r : ExecutedCommand S D)
      (w : Session D S) (t : Trusts def u w) where
    Serialised-Applied :
        ReadsNull
        → Serialised p def u command causation opts r w.store
        → Applied r (apply_appended def (ok r), w)
    Serialised-Applied reads z =
        let rows : Store D S → List (RawEventRow D) = λ s. rows_of u s.log in
        let at_version : last_version r.appended ≡ some (length (rows w.store)) =
          rw (z.appended, z.store) (version-after z.before z.drawn r.filled z.sound z.some_event) in
        let at_state : fold_filled def (ok r.loaded_state) r.filled ≡ replay def (rows w.store) =
          rw z.store (state-after z.before z.drawn reads r.filled z.state) in
        (
          t,
          inr (record {
            earlier = rows z.before;
            added = appended_rows u (fill_ids p.random_uuid z.drawn r.filled) z.before;
            on_stream = rw z.store (rows_of-own (fill_ids p.random_uuid z.drawn r.filled) z.before);
            events = z.appended;
            some_event = rw z.appended (some-after z.before z.drawn r.filled z.some_event);
            result =
                ap (λ n. ran_unless def n r) z.no_op
                ∙ ap (λ q. q >>= ran_at def r (last_version r.appended)) at_state
                ∙ ap (λ v. replay def (rows w.store) >>= ran_at def r v) at_version;
          }),
        )

    Idle-Applied :
        Idle p def u command causation opts r w.store → Applied r (apply_appended def (ok r), w)
    Idle-Applied z = (
      t,
      inl (record {
        ran = _;
        resolved = ap (λ n. ran_unless def n r) z.no_op;
        nothing = (z.nothing, z.nothing);
        sees = record { bounded = z.bounded; state = z.state };
      }),
    )

  -- The command's own outcome, and then the state: of a command that fails, the error is passed on.
  abbrev pub AppliedTo :
      Result (ExecutedCommand S D) × Session D S → Result (RanCommand S) × Session D S → Type 0
  AppliedTo (ok r, w) x = Applied r x
  AppliedTo (throw e, w) x = (x ≡ (throw e, w)) × Trusts def u w
  AppliedTo (stuck, w) x = (x ≡ (stuck, w)) × Trusts def u w

  apply_appended-AppliedTo :
      ReadsNull
      → (command : C) (causation : String) (opts : RunCommandOptions)
        (r : Result (ExecutedCommand S D)) (w : Session D S)
      → Outcome p def u command causation opts (r, w)
      → AppliedTo (r, w) (apply_appended def r, w)
  apply_appended-AppliedTo reads command causation opts (ok r) w (t, inl z) =
      Idle-Applied command causation opts r w t z
  apply_appended-AppliedTo reads command causation opts (ok r) w (t, inr z) =
      Serialised-Applied command causation opts r w t reads z
  apply_appended-AppliedTo reads command causation opts (throw e) w t = (refl, t)
  apply_appended-AppliedTo reads command causation opts stuck w t = (refl, t)

  -- At the default expectation, from a sound store that the other sessions keep sound while they only extend the
  -- stream, for an `apply` that takes missing metadata as null: where `executeCommand` fails, `runCommandAndApply`
  -- fails with its error. Where it appended nothing, the result has no events and the state of a prefix of the
  -- stream as it is then. Where it appended events, they stand on the stream; the result is those events with
  -- the state and version of the whole stream, or, where `apply` throws in the fold of the whole stream, its
  -- error.
  pub run_command_and_apply-AppliedTo :
      (command : C) (opts : RunCommandOptions) (fuel : ℕ) (w : Session D S)
      → ReadsNull
      → opts.expected_version ≡ none
      → Trusts def u w
      → AppliedTo
          (execute_command p def u command opts fuel w)
          (run_command_and_apply p def u command opts fuel w)
  unfolding run_command_and_apply
  run_command_and_apply-AppliedTo command opts fuel w reads default t =
      let (r, w') = execute_command p def u command opts fuel w in
      apply_appended-AppliedTo reads command (cause p def u opts w) opts r w'
        (execute_command-Outcome p def u command opts fuel w default t)

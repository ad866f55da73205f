-- ===== src/Aggregate/Serial.antt =====
-- What it means that a command took effect at one point of the stream's history, and the append of
-- `executeCommand` (aggregate/run-command.ts) at the version loaded.
use instructed.Prelude.{
  ℕ, ◌+◌, ◌≤◌, ◌<◌, String, true, false, ◌≡◌, refl, sym, ap, subst, ◌∙◌, ◌⊎◌, inr, Option, none,
  some, List, [], ◌∷◌, map, arith, length, take, take-all,
}
use instructed.Prelude.Int.{pos}
use instructed.Result.{Result, ok, throw, stuck}
use instructed.Types.{NewEvent, ExpectedVersion, exact}
use instructed.Store.{RawEventRow, Store, rows_of, stream_version}
use instructed.Store.Append as SqlAppend
use instructed.Store.Append.{PackedEvent, base_version, exact_base}
use instructed.Store.Valid.{appended_rows, after_append, append_to_stream-eq-ok}
use instructed.Session.{Session, Platform, interfere, run, settle}
use instructed.Client
use instructed.Client.{fill_ids, appended_event, map_result, on_stream}
use instructed.Aggregate.{AggregateDefinition, LoadedAggregate, Produced, normalise_events}
use instructed.Aggregate.Replay.{Trusts, Sees, IsSound, interfere-Trusts, Sees-Extends, replay}
use instructed.Aggregate.Rely.{after_append-IsSound}
use instructed.Aggregate.Run.{RunCommandOptions, ExecutedCommand, fill_links, appended_to}

-- An append at an exact version goes through at that version alone.
exact-version :
    (expected : ℕ) (current : Option ℕ) (base : ℕ)
    → base_version "exact" (some (pos expected)) current ≡ ok base
    → base ≡ expected
unfolding base_version exact_base
exact-version expected none base h = ground arith
exact-version expected (some v) base h = ground arith

module _ {S C D : Type 0} (p : Platform) (def : AggregateDefinition S C D) (u : String) where
  module _ (command : C) (causation : String) (opts : RunCommandOptions) where
    -- The events that the command leads to in a state.
    abbrev pub Decides : S → List (NewEvent D) → Type 0
    Decides state events =
        (produced : Produced D) × (def.execute state command ≡ ok produced)
        × (normalise_events produced ≡ events)

    -- The command took effect at one point of the stream's history: its events are those decided in the
    -- state of the whole stream, and they follow directly.
    pub record Serialised (r : ExecutedCommand S D) (after : Store D S) : Type 0 where
      pub before : Store D S
      pub no_op : r.no_op ≡ false
      pub some_event : 0 < length r.filled
      pub sound : IsSound def u before
      pub state : ok r.loaded_state ≡ replay def (rows_of u before.log)
      pub version : r.loaded_version ≡ length (rows_of u before.log)
      pub events : List (NewEvent D)
      pub decided : Decides r.loaded_state events
      pub filled : r.filled ≡ map (fill_links causation opts.correlation_id) events
      pub drawn : ℕ
      pub store : after ≡ after_append u (fill_ids p.random_uuid drawn r.filled) before
      pub appended :
          r.appended
          ≡ map (appended_event u) (appended_rows u (fill_ids p.random_uuid drawn r.filled) before)

    -- The command had nothing to do in a state that the stream has had, and appended nothing.
    pub record Idle (r : ExecutedCommand S D) (after : Store D S) : Type 0 where
      pub no_op : r.no_op ≡ true
      pub nothing : r.appended ≡ []
      pub decided : Decides r.loaded_state []
      pub bounded : r.loaded_version ≤ length (rows_of u after.log)
      pub state : ok r.loaded_state ≡ replay def (take r.loaded_version (rows_of u after.log))

    abbrev pub Outcome : Result (ExecutedCommand S D) × Session D S → Type 0
    Outcome (ok r, w) = Trusts def u w × (Idle r w.store ⊎ Serialised r w.store)
    Outcome (throw e, w) = Trusts def u w
    Outcome (stuck, w) = Trusts def u w

    pub Outcome-Trusts :
        (r : Result (ExecutedCommand S D)) (w : Session D S) → Outcome (r, w) → Trusts def u w
    Outcome-Trusts (ok r) w h = h.0
    Outcome-Trusts (throw e) w h = h
    Outcome-Trusts stuck w h = h

    module _ (l : LoadedAggregate S) (e : NewEvent D) (es : List (NewEvent D))
        (d : Decides l.state (e ∷ es)) where
      abbrev links : List (NewEvent D)
      links = map (fill_links causation opts.correlation_id) (e ∷ es)

      abbrev packed : ℕ → List (PackedEvent D)
      packed drawn = fill_ids p.random_uuid drawn links

      -- The result that an append of `rows` gives.
      abbrev ThenDone : Session D S → List (RawEventRow D) × Store D S → Type 0
      ThenDone w (rows, s) =
          let (x, w') =
            map_result (map (appended_event u)) (settle (on_stream u) (ok (rows, s)) w) in
          Outcome (appended_to p def u command causation opts l links x, w')

      committed_at :
          (w : Session D S) (drawn : ℕ)
          → Trusts def u w
          → Sees def u l w.store
          → l.version ≡ length (rows_of u w.store.log)
          → ThenDone w
              (appended_rows u (packed drawn) w.store, after_append u (packed drawn) w.store)
      committed_at w drawn t h whole = (
        record {
          sound = after_append-IsSound def u u (packed drawn) w.store t.sound;
          rely = t.rely;
        },
        inr (record {
          before = w.store;
          no_op = refl;
          some_event = omega arith;
          sound = t.sound;
          state =
              h.state
              ∙ ap (replay def) (take-all l.version (rows_of u w.store.log) (omega (arith, whole)));
          version = whole;
          events = e ∷ es;
          decided = d;
          filled = refl;
          drawn = drawn;
          store = refl;
          appended = refl;
        }),
      )

      settled :
          (w : Session D S) (drawn : ℕ)
          → Trusts def u w
          → Sees def u l w.store
          → (r : Result (List (RawEventRow D) × Store D S))
          → SqlAppend.append_to_stream p.is_uuid u "exact"
              (some (pos l.version))
              (fill_ids p.random_uuid drawn links)
              w.store
            ≡ r
          → let (x, w') = map_result (map (appended_event u)) (settle (on_stream u) r w) in
            Outcome (appended_to p def u command causation opts l links x, w')
      settled w drawn t h (throw e) c = t
      settled w drawn t h stuck c = t
      settled w drawn t h (ok done) c =
          let (at_version, e) =
            append_to_stream-eq-ok p.is_uuid u "exact" (some (pos l.version)) (packed drawn) w.store
              c in
          let same = exact-version l.version (stream_version u w.store.streams) _ at_version in
          subst (ThenDone w) (sym e)
            (committed_at w drawn t h (omega (arith, same, t.sound.valid.counts u)))

      -- The outcome of an append at an expectation.
      abbrev pub Appending : Session D S → ExpectedVersion → Type 0
      Appending w expected =
          let (x, w') = Client.append_to_stream p u expected links w in
          Outcome (appended_to p def u command causation opts l links x, w')

      pub Appending-exact :
          (w : Session D S)
          → Trusts def u w
          → Sees def u l w.store
          → Appending w (exact (pos l.version))
      unfolding Client.append_to_stream Client.append_filled run
      Appending-exact w t h =
          let w' : Session D S = record w { drawn = w.drawn + length links } in
          let (t', x) = interfere-Trusts def u w' (record { sound = t.sound; rely = t.rely }) in
          settled (interfere w') w.drawn t' (Sees-Extends def u h x) _ refl

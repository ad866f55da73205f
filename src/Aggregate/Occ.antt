-- ===== src/Aggregate/Occ.antt =====
-- Optimistic concurrency: what a command that succeeds has done, whatever the other sessions do.
use instructed.Prelude.{
  ℕ, zero, suc, String, Bool, true, false, ◌≡◌, refl, sym, subst, inl, inr, Option, none, some,
  List, [], ◌∷◌, arith, Bool-cases, get_or_else,
}
use instructed.Prelude.Int.{ℤ, pos, negsuc}
use instructed.Result.{Result, ok, throw, stuck}
use instructed.Types.{NewEvent, exact}
use instructed.Session.{Session, Platform}
use instructed.Aggregate.{
  AggregateDefinition, LoadedAggregate, Produced, normalise_events, load_aggregate, load_page_size,
}
use instructed.Aggregate.Replay.{Trusts, Sees}
use instructed.Aggregate.Load.{LoadsPrefix, load_aggregate-LoadsPrefix}
use instructed.Aggregate.Run.{
  RunCommandOptions, ExecutedCommand, commit_events, commit_produced, events_of, execute_loaded,
  attempt_once, retries, give_up, retry_loop, with_command_id, with_budget, execute_command,
  default_retry_budget,
}
use instructed.Aggregate.Serial.{Outcome, Decides, Outcome-Trusts, Appending, Appending-exact}

module _ {S C D : Type 0} (p : Platform) (def : AggregateDefinition S C D) (u : String) where
  module _ (command : C) (causation : String) (opts : RunCommandOptions) where
    module _ (default : opts.expected_version ≡ none) where
      commit_events-Outcome :
          (l : LoadedAggregate S) (es : List (NewEvent D)) (w : Session D S)
          → Decides p def u command causation opts l.state es
          → Trusts def u w
          → Sees def u l w.store
          → Outcome p def u command causation opts
              (commit_events p def u command causation opts l es w)
      commit_events-Outcome l [] w d t h = (
        t,
        inl (record {
          no_op = refl;
          nothing = refl;
          decided = d;
          bounded = h.bounded;
          state = h.state;
        }),
      )
      commit_events-Outcome l (e ∷ es) w d t h =
          subst
            (λ x.
              Appending p def u command causation opts l e es d w
                (get_or_else x (exact (pos l.version))))
            (sym default) (Appending-exact p def u command causation opts l e es d w t h)

      events_of-Outcome :
          (l : LoadedAggregate S) (r : Result (Produced D)) (w : Session D S)
          → def.execute l.state command ≡ r
          → Trusts def u w
          → Sees def u l w.store
          → Outcome p def u command causation opts
              (commit_produced p def u command causation opts l (events_of r) w)
      events_of-Outcome l (ok produced) w d t h =
          commit_events-Outcome l (normalise_events produced) w (produced, d, refl) t h
      events_of-Outcome l (throw e) w d t h = t
      events_of-Outcome l stuck w d t h = t

      commit_produced-Outcome :
          (l : LoadedAggregate S) (r : Result (Produced D)) (w : Session D S)
          → def.execute l.state command ≡ r
          → Trusts def u w
          → Sees def u l w.store
          → Outcome p def u command causation opts
              (execute_loaded p def u command causation opts (ok l) w)
      commit_produced-Outcome l r w d t h =
          subst
            (λ x.
              Outcome p def u command causation opts
                (commit_produced p def u command causation opts l (events_of x) w))
            (sym d) (events_of-Outcome l r w d t h)

      execute_loaded-Outcome :
          (r : Result (LoadedAggregate S)) (w : Session D S)
          → LoadsPrefix def u (r, w)
          → Outcome p def u command causation opts
              (execute_loaded p def u command causation opts r w)
      execute_loaded-Outcome (ok l) w h =
          commit_produced-Outcome l (def.execute l.state command) w refl h.0 h.1
      execute_loaded-Outcome (throw e) w h = h
      execute_loaded-Outcome stuck w h = h

      attempt_once-Outcome :
          (fuel : ℕ) (w : Session D S)
          → Trusts def u w
          → Outcome p def u command causation opts
              (attempt_once p def u command causation opts fuel w)
      unfolding attempt_once
      attempt_once-Outcome fuel w t =
          let (r, w') = load_aggregate def fuel load_page_size u w in
          execute_loaded-Outcome r w'
            (load_aggregate-LoadsPrefix def u fuel load_page_size w (omega arith) t)

      give_up-Outcome :
          (attempts : ℕ) (r : Result (ExecutedCommand S D)) (w : Session D S)
          → Outcome p def u command causation opts (r, w)
          → Outcome p def u command causation opts
              (give_up p def u command causation opts attempts r, w)
      give_up-Outcome attempts (ok r) w h = h
      give_up-Outcome attempts stuck w h = h
      give_up-Outcome attempts (throw e) w h = ground (arith, h)

      pub retry_loop-Outcome :
          (fuel left attempt : ℕ) (w : Session D S)
          → Trusts def u w
          → Outcome p def u command causation opts
              (retry_loop p def u command causation opts fuel left attempt w)
      unfolding retry_loop
      retry_loop-Outcome fuel zero attempt w t =
          let (r, w') = attempt_once p def u command causation opts fuel w in
          give_up-Outcome (suc attempt) r w' (attempt_once-Outcome fuel w t)
      retry_loop-Outcome fuel (suc left) attempt w t =
          let (r, w') = attempt_once p def u command causation opts fuel w in
          let h : Outcome p def u command causation opts (r, w') = attempt_once-Outcome fuel w t in
          let next = λ (again : Bool). Outcome p def u command causation opts (elim again [
            | true ↦ retry_loop p def u command causation opts fuel left (suc attempt) w'
            | false ↦ (r, w')
          ]) in
          elim (Bool-cases (retries p def u command causation opts r)) [
            | inl again ↦ subst next (sym again) (
                retry_loop-Outcome fuel left (suc attempt) w'
                  (Outcome-Trusts p def u command causation opts r w' h))
            | inr done ↦ subst next (sym done) h
          ]

  -- The cause that the events get: the one given, else the command's id, given or drawn.
  abbrev pub cause : RunCommandOptions → Session D S → String
  cause opts w = get_or_else opts.causation_id (get_or_else opts.command_id (p.random_uuid w.drawn))

  module _ (command : C) (opts : RunCommandOptions) (default : opts.expected_version ≡ none) where
    with_command_id-Outcome :
        (id : Option String) (fuel budget : ℕ) (w : Session D S)
        → Trusts def u w
        → Outcome p def u command
            (get_or_else opts.causation_id (get_or_else id (p.random_uuid w.drawn)))
            opts
            (with_command_id p def u command opts id fuel budget w)
    with_command_id-Outcome (some id) fuel budget w t =
        retry_loop-Outcome command _ opts default fuel budget 0 w t
    with_command_id-Outcome none fuel budget w t =
        retry_loop-Outcome command _ opts default fuel budget 0 (record w { drawn = suc w.drawn })
          (record { sound = t.sound; rely = t.rely })

    with_budget-Outcome :
        (budget : ℤ) (fuel : ℕ) (w : Session D S)
        → Trusts def u w
        → Outcome p def u command
            (cause opts w)
            opts
            (with_budget p def u command opts budget fuel w)
    with_budget-Outcome (pos budget) fuel w t =
        with_command_id-Outcome opts.command_id fuel budget w t
    with_budget-Outcome (negsuc _) fuel w t = t

  -- Whatever the other sessions commit between its calls, as long as they keep a sound store sound and
  -- only extend the stream, a command run at the default expectation that succeeds took effect as a
  -- whole at one point of the stream's history: some store before it is sound, the events are those
  -- that `execute` decides in the fold of the whole stream there, with their links filled in, and the
  -- store after it is that store with exactly these events appended. Or the command decided on no
  -- event in a state that the stream has had, and appended nothing. In every outcome, errors
  -- included, the store stays sound.
  pub execute_command-Outcome :
      (command : C) (opts : RunCommandOptions) (fuel : ℕ) (w : Session D S)
      → opts.expected_version ≡ none
      → Trusts def u w
      → Outcome p def u command (cause opts w) opts (execute_command p def u command opts fuel w)
  unfolding execute_command
  execute_command-Outcome command opts fuel w default t =
      with_budget-Outcome command opts default (get_or_else opts.retry_budget default_retry_budget)
        fuel w t

-- ===== src/Workers/Handler/Attempts.antt =====
-- The attempts of `runHandlerWithPolicy` under `retryUpTo` (workers/processing).
use instructed.Prelude.{
  ℕ, zero, suc, ◌+◌, ◌≤◌, ◌<◌, inl, inr, Bool, true, false, Option, none, List, [], ◌∷◌, arith,
  Bool-cases, ltb,
}
use instructed.Errors.{Thrown}
use instructed.Result.{Result, ok, throw, stuck}
use instructed.Workers.Policies.{
  ErrorPolicy, ErrorPolicyContext, ErrorPolicyResult, ErrorPolicyDecision, retry_in, stop,
  capped_at,
}
use instructed.Workers.Handler.{
  Handler, Ran, returned, pending, Effect, on_error, sleep, at_attempt, after_effects, obey,
  after_policy, after_handler, unless_halted, attempts_from, run_handler_with_policy,
}

abbrev pub Settles : {W : Type 0} → Ran W → Type 0
Settles (returned _ _ _) = Unit
Settles (pending _) = ⊥

abbrev pub Answers : {A : Type 0} → Result A → Type 0
Answers stuck = ⊥
Answers _ = Unit

none_left : {m a : ℕ} → suc m < 0 + a → a ≤ suc m → ⊥
none_left enough first = omega arith

module _ {W P : Type 0} (handle : Handler W) (inner : ErrorPolicy P) (halted : ℕ → Bool)
    (event_number max_attempts : ℕ)
    (handler_answers : (attempt : ℕ) (w : W) → Answers (handle attempt w).0)
    (policy_answers : (e : Thrown) (ctx : ErrorPolicyContext) (state : Option P)
      → Answers (inner e ctx state)) where
  abbrev policy : ErrorPolicy P
  policy = capped_at max_attempts inner

  effects-Settles :
      (before : List Effect) (r : Ran W)
      → Settles r
      → Settles (after_effects handle policy halted event_number before r)
  effects-Settles before (returned b more w) h = tt
  effects-Settles before (pending more) h = h

  obey-Settles :
      (next : Option P → Ran W) (e : Thrown) (w : W) (state : Option P) (d : ErrorPolicyDecision)
      → ((state' : Option P) → Settles (next state'))
      → Settles (obey handle policy halted event_number next e w state d)
  obey-Settles next e w state stop h = tt
  obey-Settles next e w state (retry_in delay) h =
      effects-Settles (on_error e ∷ sleep delay ∷ []) (next state) (h state)

  policy-Settles :
      (next : Option P → Ran W) (e : Thrown) (w : W) (r : Result (ErrorPolicyResult P))
      → Answers r
      → ((state : Option P) → Settles (next state))
      → Settles (after_policy handle policy halted event_number next e w r)
  policy-Settles next e w (throw e') a h = tt
  policy-Settles next e w stuck a h = a
  policy-Settles next e w (ok r) a h = obey-Settles next e w r.state r.decision h

  capped-Answers :
      (e : Thrown) (ctx : ErrorPolicyContext) (state : Option P) → Answers (policy e ctx state)
  capped-Answers e ctx state = elim (Bool-cases (ltb max_attempts ctx.attempt)) [
    | inl over ↦ rw over tt
    | inr within ↦ rw within (policy_answers e ctx state)
  ]

  handler-Settles :
      (next : W → Option P → Ran W) (attempt : ℕ) (state : Option P) (r : Result (Unit {0}) × W)
      → Answers r.0
      → (attempt ≤ max_attempts → (w : W) (state' : Option P) → Settles (next w state'))
      → Settles (after_handler handle policy halted event_number next attempt state r)
  handler-Settles next attempt state (ok _, w) a h = tt
  handler-Settles next attempt state (stuck, w) a h = a
  handler-Settles next attempt state (throw e, w) a h =
      elim (Bool-cases (ltb max_attempts attempt)) [
        | inl over ↦ rw over tt
        | inr within ↦
            policy-Settles (next w) e w _
              (capped-Answers e (at_attempt handle policy halted event_number attempt) state)
              (λ state'. h (ground arith) w state')
      ]

  halted-Settles :
      (stops : Bool) (w : W) (r : Ran W)
      → Settles r
      → Settles (unless_halted handle policy halted event_number stops w r)
  halted-Settles true w r h = tt
  halted-Settles false w r h = h

  attempts_from-Settles :
      (fuel attempt : ℕ) (state : Option P) (w : W)
      → suc max_attempts < fuel + attempt
      → attempt ≤ suc max_attempts
      → Settles (attempts_from handle policy halted event_number fuel attempt state w)
  unfolding attempts_from
  attempts_from-Settles zero attempt state w enough first = elim (none_left enough first) [ ]
  attempts_from-Settles (suc fuel) attempt state w enough first =
      halted-Settles (halted attempt) w _ (
        handler-Settles _ attempt state (handle attempt w) (handler_answers attempt w)
          (λ within w' state'.
            attempts_from-Settles fuel (suc attempt) state' w' (omega arith) (omega arith)))

  -- Under `retryUpTo(n, inner)` the loop ends: with a handler and an inner policy that settle, whatever
  -- they return, fuel for `n + 1` attempts is enough, so no more than that are made.
  pub run_handler_with_policy-Settles :
      (w : W)
      → Settles (run_handler_with_policy handle policy halted event_number (suc max_attempts) w)
  unfolding run_handler_with_policy
  run_handler_with_policy-Settles w =
      attempts_from-Settles (suc max_attempts) 1 none w (omega arith) (omega arith)

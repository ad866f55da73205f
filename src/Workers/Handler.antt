-- ===== src/Workers/Handler.antt =====
-- `runHandlerWithPolicy` of the processing worker (workers/processing/processing-worker.ts). `halted i`
-- is what `closing || aborted` is when the loop tests it before its i-th attempt: `close` and the
-- heartbeat may set it during any `await`. The handler is user code over a world of its own, given the
-- event of the one item; what the context holds beside the attempt is the same at every attempt.
pub mod Attempts
use instructed.Prelude.{ℕ, zero, suc, Bool, true, false, Option, none, some, List, [], ◌∷◌, ◌++◌}
use instructed.Errors.{Thrown}
use instructed.Result.{Result, ok, throw, stuck}
use instructed.Workers.Policies.{
  ErrorPolicy, ErrorPolicyContext, ErrorPolicyResult, ErrorPolicyDecision, retry_in, stop,
}

-- What the loop reports and does on the way, newest last: errors surfaced by `onError`, the sleep
-- before a retry, and `markAborted`, which aborts the worker and surfaces its error too.
pub data Effect : Type 0 where
  on_error : Thrown → Effect
  sleep : (delay_ms : ℕ) → Effect
  mark_aborted : Thrown → Effect

-- How it ends: the Boolean returned, and the effects. `pending` is a promise that never settles, or the
-- fuel running out.
pub data Ran (W : Type 0) : Type 0 where
  returned : Bool → List Effect → W → Ran W
  pending : List Effect → Ran W

abbrev pub Handler : Type 0 → Type 0
Handler W = (attempt : ℕ) → W → Result (Unit {0}) × W

module _ {W P : Type 0} (handle : Handler W) (policy : ErrorPolicy P) (halted : ℕ → Bool)
    (event_number : ℕ) where
  abbrev pub at_attempt : ℕ → ErrorPolicyContext
  at_attempt attempt = record { event_number = event_number; attempt = attempt }

  -- Effects before a run.
  abbrev pub after_effects : List Effect → Ran W → Ran W
  after_effects before (returned b more w) = returned b (before ++ more) w
  after_effects before (pending more) = pending (before ++ more)

  -- What the decision on the error `e` does; `next` is the rest of the loop, with the policy's state.
  abbrev pub obey : (Option P → Ran W) → Thrown → W → Option P → ErrorPolicyDecision → Ran W
  obey next e w state stop = returned false (on_error e ∷ mark_aborted e ∷ []) w
  obey next e w state (retry_in delay) = after_effects (on_error e ∷ sleep delay ∷ []) (next state)

  -- The policy's answer to the error; a policy that throws stops the worker too.
  abbrev pub after_policy : (Option P → Ran W) → Thrown → W → Result (ErrorPolicyResult P) → Ran W
  after_policy next e w (throw policy_error) =
      returned false (on_error e ∷ on_error policy_error ∷ mark_aborted policy_error ∷ []) w
  after_policy next e w stuck = pending (on_error e ∷ [])
  after_policy next e w (ok result) = obey next e w result.state result.decision

  abbrev pub after_handler : (W → Option P → Ran W) → ℕ → Option P → Result (Unit {0}) × W → Ran W
  after_handler next attempt state (ok _, w) = returned true [] w
  after_handler next attempt state (throw e, w) =
      after_policy (next w) e w (policy e (at_attempt attempt) state)
  after_handler next attempt state (stuck, w) = pending []

  abbrev pub unless_halted : Bool → W → Ran W → Ran W
  unless_halted true w r = returned false [] w
  unless_halted false w r = r

  -- The `while` loop, on fuel.
  unfoldable pub attempts_from : ℕ → ℕ → Option P → W → Ran W
  attempts_from zero attempt state w = pending []
  attempts_from (suc fuel) attempt state w = unless_halted (halted attempt) w (
      after_handler (λ w' state'. attempts_from fuel (suc attempt) state' w') attempt state
        (handle attempt w))

  unfoldable pub run_handler_with_policy : ℕ → W → Ran W
  run_handler_with_policy fuel w = attempts_from fuel 1 none w

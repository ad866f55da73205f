-- ===== src/Workers/Policies.antt =====
-- The error policies (workers/processing/error-policies.ts, `DEFAULT_ERROR_POLICY`). Delays are
-- integers; a policy is given the attempt that failed, from 1. `sample` is
-- `Math.random() * raw` of the full-jitter mode. The worker id, the partition key and the logger of the
-- context are left out: no shipped policy reads them.
pub mod Backoff
use instructed.Prelude.{ℕ, suc, ◌-◌, Bool, true, false, Option, none, some, if◌then◌else◌, ltb}
use Prim.Native.Nat.{◌*◌, ◌^◌, min}
use instructed.Prelude.Int.{ℤ, pos, negsuc}
use instructed.Errors.{Thrown}
use instructed.Result.{Result, ok, throw}

pub data ErrorPolicyDecision : Type 0 where
  retry_in : (delay_ms : ℕ) → ErrorPolicyDecision
  stop : ErrorPolicyDecision

pub record ErrorPolicyContext : Type 0 where
  pub event_number : ℕ
  pub attempt : ℕ

pub record ErrorPolicyResult (P : Type 0) : Type 0 where
  pub decision : ErrorPolicyDecision
  pub state : Option P

-- `none` is `undefined`. A policy may throw.
abbrev pub ErrorPolicy : Type 0 → Type 0
ErrorPolicy P = Thrown → ErrorPolicyContext → Option P → Result (ErrorPolicyResult P)

abbrev pub capped_power : ℕ → ℕ → ℕ → ℕ → ℕ
capped_power clamp base cap attempt = min cap (base * 2 ^ min (attempt - 1) clamp)

module _ {P : Type 0} where
  abbrev pub default_error_policy : ErrorPolicy P
  default_error_policy e ctx state =
      ok (record { decision = retry_in (capped_power 20 100 30000 ctx.attempt); state = none })

  abbrev pub exponential_backoff : (ℕ → ℕ) → ℤ → ℤ → Bool → Result (ErrorPolicy P)
  exponential_backoff sample (negsuc _) cap jitter =
      throw (Thrown.error "exponentialBackoff: baseMs must be a non-negative number")
  exponential_backoff sample (pos base) (negsuc _) jitter =
      throw (Thrown.error "exponentialBackoff: capMs must be a non-negative number")
  exponential_backoff sample (pos base) (pos cap) jitter = ok (λ e ctx state.
      let raw = capped_power 30 base cap ctx.attempt in
      ok (record { decision = retry_in (if jitter then sample raw else raw); state = none }))

  abbrev pub linear_backoff : ℤ → ℤ → Result (ErrorPolicy P)
  linear_backoff (negsuc _) cap =
      throw (Thrown.error "linearBackoff: stepMs must be a non-negative number")
  linear_backoff (pos step) (negsuc _) =
      throw (Thrown.error "linearBackoff: capMs must be a non-negative number")
  linear_backoff (pos step) (pos cap) = ok (λ e ctx state.
      ok (record { decision = retry_in (min cap (step * ctx.attempt)); state = none }))

  abbrev pub capped_at : ℕ → ErrorPolicy P → ErrorPolicy P
  capped_at max_attempts inner e ctx state =
      if ltb max_attempts ctx.attempt
      then ok (record { decision = stop; state = state })
      else inner e ctx state

  abbrev pub retry_up_to : ℤ → ErrorPolicy P → Result (ErrorPolicy P)
  retry_up_to (pos (suc n)) inner = ok (capped_at (suc n) inner)
  retry_up_to _ inner = throw (Thrown.error "retryUpTo: maxAttempts must be a positive integer")

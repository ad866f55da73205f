-- ===== src/Workers/Policies/Backoff.antt =====
-- The delays of the shipped policies (workers/processing/error-policies.ts).
use instructed.Prelude.{
  ℕ, ◌-◌, ◌≤◌, ◌≡◌, ap, sym, inl, inr, false, Option, arith, none, Bool-cases, leb,
}
use Prim.Native.Nat.{◌*◌, ◌^◌, min}
use native.Mathlib.Nat.{pow-le-pow_right}
use instructed.Prelude.Int.{pos}
use instructed.Errors.{Thrown}
use instructed.Result.{ok, ◌>>=◌}
use instructed.Workers.Policies.{
  ErrorPolicyContext, default_error_policy, exponential_backoff, retry_in,
}

power_grows : (i j : ℕ) → i ≤ j → 2 ^ i ≤ 2 ^ j
power_grows i j h = pow-le-pow_right (omega arith) h

same_delay : (a : ℕ) → min 30000 (100 * 2 ^ min a 20) ≡ min 30000 (100 * 2 ^ min a 30)
same_delay a = elim (Bool-cases (leb a 20)) [
  | inl small ↦ ap (λ n. min 30000 (100 * 2 ^ n)) (ground arith)
  | inr large ↦
      let n : min a 20 ≡ 20 = ground arith in
      let m : 20 ≤ min a 30 = ground arith in rw n (omega (arith, power_grows 20 (min a 30) m))
]

-- The default policy is `exponentialBackoff({ baseMs: 100, capMs: 30_000 })`, as its comment says, at every
-- attempt: that it clamps the exponent at 20 and the other at 30 makes no difference.
pub default_error_policy-exponential :
    {P : Type 0} (sample : ℕ → ℕ) (e : Thrown) (ctx : ErrorPolicyContext) (state : Option P)
    → (exponential_backoff sample (pos 100) (pos 30000) false >>= λ policy. policy e ctx state)
      ≡ default_error_policy e ctx state
default_error_policy-exponential sample e ctx state =
    ap (λ delay. ok (record { decision = retry_in delay; state = none }))
      (sym (same_delay (ctx.attempt - 1)))

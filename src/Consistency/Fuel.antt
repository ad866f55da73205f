-- ===== src/Consistency/Fuel.antt =====
-- How long `waitForProjection` (sdks/typescript/src/consistency/consistency.ts) goes on.
use instructed.Prelude.{
  ℕ, zero, suc, ◌+◌, ◌-◌, ◌≤◌, ◌<◌, String, ◌≡◌, ◌≢◌, refl, Bool, true, false, Option, none, some,
  List, [], ◌∷◌, inl, inr, leb, arith, Bool-cases, get_or_else,
}
use instructed.Result.{Result, ok, throw, stuck}
use instructed.Types.{AppendedEvent}
use instructed.Store.{Store}
use instructed.Store.Queue.Calls as SqlQueue
use instructed.Store.Subscriptions.{require_subscription}
use instructed.Errors.MapPg.{MapPgErrorContext}
use instructed.Session.{Session, translate, run_query, interfere}
use instructed.Client.Queue.{is_subscription_caught_up}
use instructed.Consistency.{
  SubscriptionRef, WaitForProjectionOptions, Remaining, put_all, is_code, instructed_code, keep,
  after_query, poll, after_round, wait_from, wait_for_projection, misplaced, add_all, highest,
  guarded, waiting, sleep_ms, default_wait_timeout_ms, default_wait_poll_interval_ms,
}

query-settles :
    {D S : Type 0} (u name : String) (target : ℕ) (s : Store D S)
    → SqlQueue.is_subscription_caught_up u name target s ≢ stuck
unfolding SqlQueue.is_subscription_caught_up require_subscription
query-settles u name target s h = ground (arith, h)

translate-settles :
    (ctx : MapPgErrorContext) (q : Result Bool) → q ≢ stuck → translate ctx q ≢ stuck
translate-settles ctx (ok b) h e = absurd cc
translate-settles ctx (throw t) h e = absurd cc
translate-settles ctx stuck h e = h refl

module _ {D S : Type 0} (target : ℕ) where
  asked-settles :
      (s : SubscriptionRef) (w : Session D S)
      → (is_subscription_caught_up s.stream s.name target w).0 ≢ stuck
  unfolding is_subscription_caught_up run_query
  asked-settles s w =
      translate-settles _ _ (query-settles s.stream s.name target (interfere w).store)

  keep-settles :
      (x : String × SubscriptionRef) (q : Result Remaining × Session D S)
      → q.0 ≢ stuck
      → (keep x q).0 ≢ stuck
  keep-settles x (ok more, v) h e = absurd cc
  keep-settles x (throw t, v) h e = absurd cc
  keep-settles x (stuck, v) h e = h refl

  after_query-settles :
      (x : String × SubscriptionRef) (next : Session D S → Result Remaining × Session D S)
      (q : Result Bool × Session D S)
      → ((v : Session D S) → (next v).0 ≢ stuck)
      → q.0 ≢ stuck
      → (after_query x next q).0 ≢ stuck
  after_query-settles x next (ok true, v) rest h e = rest v e
  after_query-settles x next (ok false, v) rest h e = keep-settles x (next v) (rest v) e
  after_query-settles x next (throw t, v) rest h e =
      elim (Bool-cases (is_code "IS020" (instructed_code t))) [
        | inl missing ↦ keep-settles x (next v) (rest v) (ground (arith, missing, e))
        | inr other ↦ absurd (ground (arith, other, e))
      ]
  after_query-settles x next (stuck, v) rest h e = h refl

  poll-settles : (entries : Remaining) (w : Session D S) → (poll target entries w).0 ≢ stuck
  unfolding poll
  poll-settles [] w h = absurd cc
  poll-settles ((k, s) ∷ rest) w h =
      after_query-settles (k, s) (poll target rest)
        (is_subscription_caught_up s.stream s.name target w) (poll-settles rest) (asked-settles s w)
        h

module _ {D S : Type 0} (target poll_interval timeout deadline : ℕ) (clock : ℕ → ℕ) where
  wait_from-settles :
      (fuel i : ℕ) (entries : Remaining) (w : Session D S)
      → 0 < poll_interval
      → ((j : ℕ)
          → clock (suc j) + sleep_ms poll_interval deadline (clock (suc j)) ≤ clock (suc (suc j)))
      → deadline - clock (suc i) < fuel
      → (wait_from target poll_interval timeout deadline clock fuel (suc i) entries w).0 ≢ stuck
  unfolding wait_from
  wait_from-settles zero i entries w often sleeps enough h = absurd (omega arith)
  wait_from-settles (suc fuel) i [] w often sleeps enough h = absurd cc
  wait_from-settles (suc fuel) i (x ∷ xs) w often sleeps enough h =
      round (poll target (x ∷ xs) w) (poll-settles target (x ∷ xs) w) h
        (λ more v left. wait_from-settles fuel (suc i) more v often sleeps left)
    where
      round :
          (q : Result Remaining × Session D S)
          → q.0 ≢ stuck
          → (after_round target poll_interval timeout deadline clock
              (wait_from target poll_interval timeout deadline clock fuel (suc (suc i)))
              (clock (suc i))
              q).0
            ≡ stuck
          → ((more : Remaining) (v : Session D S)
              → deadline - clock (suc (suc i)) < fuel
              → (wait_from target poll_interval timeout deadline clock fuel (suc (suc i)) more v).0
                ≢ stuck)
          → ⊥
      round (throw t, v) settles e ih = absurd cc
      round (stuck, v) settles e ih = settles refl
      round (ok [], v) settles e ih = absurd cc
      round (ok (y ∷ ys), v) settles e ih = elim (Bool-cases (leb deadline (clock (suc i)))) [
        | inl late ↦ absurd (ground (arith, late, e))
        | inr early ↦
            let slept = sleeps i in
            let before : clock (suc i) < deadline = ground (arith, early) in
            let left : deadline - clock (suc (suc i)) < fuel =
              omega (arith, slept, before, often, enough) in
            ih (y ∷ ys) v left (ground (arith, early, e))
      ]

-- Where the poll interval is above 0, the clock does not go back between its first two readings
-- and each sleep lasts as long as it is asked for, `waitForProjection` settles, with fuel above
-- the timeout in milliseconds: it returns or throws.
pub wait_for_projection-settles :
    {D S : Type 0} (clock : ℕ → ℕ) (fuel : ℕ) (opts : WaitForProjectionOptions)
    (rows : List AppendedEvent) (ss : List SubscriptionRef) (w : Session D S)
    → 0 < get_or_else opts.poll_interval default_wait_poll_interval_ms
    → clock 0 ≤ clock 1
    → ((j : ℕ)
        → clock (suc j)
            + sleep_ms
                (get_or_else opts.poll_interval default_wait_poll_interval_ms)
                (clock 0 + get_or_else opts.timeout default_wait_timeout_ms)
                (clock (suc j))
          ≤ clock (suc (suc j)))
    → get_or_else opts.timeout default_wait_timeout_ms < fuel
    → (wait_for_projection clock fuel opts rows ss w).0 ≢ stuck
unfolding wait_for_projection
wait_for_projection-settles clock fuel opts [] ss w often forward sleeps enough h = absurd cc
wait_for_projection-settles clock fuel opts (r ∷ rs) [] w often forward sleeps enough h = absurd cc
wait_for_projection-settles {D} {S} clock fuel opts (r ∷ rs) (s ∷ ss) w often forward sleeps enough
      h =
    of (misplaced (add_all [] (r ∷ rs)) (s ∷ ss)) h
  where
    of :
        (o : Option SubscriptionRef)
        → (guarded {D = D} {S = S} clock fuel opts
            (add_all [] (r ∷ rs))
            o
            (waiting clock fuel opts (highest r.event_number (r ∷ rs)) (s ∷ ss))
            w).0
          ≡ stuck
        → ⊥
    of (some t) e = absurd cc
    of none e =
        wait_from-settles (highest r.event_number (r ∷ rs)) _
          (get_or_else opts.timeout default_wait_timeout_ms)
          (clock 0 + get_or_else opts.timeout default_wait_timeout_ms) clock fuel 0
          (put_all [] (s ∷ ss)) w often sleeps (omega (arith, forward, enough)) e

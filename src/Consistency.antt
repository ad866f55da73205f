-- ===== src/Consistency.antt =====
-- `waitForProjection` (sdks/typescript/src/consistency/consistency.ts). `clock i` is what `Date.now()` gives
-- when it is read for the i-th time; the texts of the errors are not modelled.
pub mod Keys
pub mod Polls
pub mod Fuel
use instructed.Prelude.{
  ℕ, zero, suc, ◌+◌, ◌-◌, min, String, ◌==◌, ◌<>◌, Bool, true, false, not, ◌&&◌, ◌||◌, Option, none,
  some, List, [], ◌∷◌, ◌++◌, map, foldl, ltb, leb, if◌then◌else◌, select, get_or_else,
}
use instructed.Errors.{Thrown, InstructedError}
use instructed.Result.{Result, ok, throw, stuck}
use instructed.Types.{AppendedEvent}
use instructed.Session.{Session, Io}
use instructed.Client.Queue.{is_subscription_caught_up}

pub record SubscriptionRef : Type 0 where
  pub stream : String
  pub name : String

pub record WaitForProjectionOptions : Type 0 where
  pub poll_interval : Option ℕ
  pub timeout : Option ℕ

abbrev pub default_wait_poll_interval_ms : ℕ
default_wait_poll_interval_ms = 25

abbrev pub default_wait_timeout_ms : ℕ
default_wait_timeout_ms = 5000

unfoldable pub ref_key : SubscriptionRef → String
ref_key s = s.stream <> "::" <> s.name

-- The `code` of an `InstructedError`.
abbrev pub instructed_code : Thrown → Option String
instructed_code (Thrown.append e _) = e.code
instructed_code (Thrown.append_only_violation e) = e.code
instructed_code (Thrown.invalid_parameter_value e) = e.code
instructed_code (Thrown.snapshot_not_found e _) = e.code
instructed_code (Thrown.subscription e _) = e.code
instructed_code (Thrown.work_item_lease_lost e _) = e.code
instructed_code _ = none

abbrev pub is_code : String → Option String → Bool
is_code code none = false
is_code code (some c) = c == code

-- A `Set` of strings: its elements in the order they first came.
unfoldable pub includes : String → List String → Bool
includes x [] = false
includes x (y ∷ ys) = (y == x) || includes x ys

unfoldable pub add_all : List String → List AppendedEvent → List String
add_all seen [] = seen
add_all seen (r ∷ rs) =
    add_all (if includes r.stream_uuid seen then seen else seen ++ r.stream_uuid ∷ []) rs

-- The first subscription on a stream of its own that is not among `streams`.
unfoldable pub misplaced : List String → List SubscriptionRef → Option SubscriptionRef
misplaced streams [] = none
misplaced streams (s ∷ ss) =
    let rest = misplaced streams ss in
    if s.stream == "$all" then rest else if includes s.stream streams then rest else some s

-- `rows.reduce(…)`
unfoldable pub highest : ℕ → List AppendedEvent → ℕ
highest m [] = m
highest m (r ∷ rs) = highest (if ltb m r.event_number then r.event_number else m) rs

-- A `Map` from a key to its subscription: `set` leaves a key that is there in its place.
abbrev pub Remaining : Type 0
Remaining = List (String × SubscriptionRef)

unfoldable pub put : SubscriptionRef → Remaining → Remaining
put s [] = (ref_key s, s) ∷ []
put s ((k, t) ∷ rest) = if k == ref_key s then (k, s) ∷ rest else (k, t) ∷ put s rest

unfoldable pub put_all : Remaining → List SubscriptionRef → Remaining
put_all remaining [] = remaining
put_all remaining (s ∷ ss) = put_all (put s remaining) ss

module _ {D S : Type 0} where
  -- The subscription `(k, s)` stays in `remaining`, before what the rest of the round leaves there.
  abbrev pub keep :
      String × SubscriptionRef → Result Remaining × Session D S → Result Remaining × Session D S
  keep entry (ok rest, w) = (ok (entry ∷ rest), w)
  keep entry (throw e, w) = (throw e, w)
  keep entry (stuck, w) = (stuck, w)

  -- What follows one query; `next` is the rest of the round.
  abbrev pub after_query :
      String × SubscriptionRef
      → (Session D S → Result Remaining × Session D S)
      → Result Bool × Session D S
      → Result Remaining × Session D S
  after_query entry next (ok true, w) = next w
  after_query entry next (ok false, w) = keep entry (next w)
  after_query entry next (throw e, w) =
      if is_code "IS020" (instructed_code e) then keep entry (next w) else (throw e, w)
  after_query entry next (stuck, w) = (stuck, w)

module _ {D S : Type 0} (target : ℕ) where
  -- One round over the subscriptions left, and those that are left after it.
  unfoldable pub poll : Remaining → Io D S Remaining
  poll [] w = (ok [], w)
  poll ((k, s) ∷ rest) w =
      after_query (k, s) (poll rest) (is_subscription_caught_up s.stream s.name target w)

module _ {D S : Type 0} (target poll_interval timeout deadline : ℕ) (clock : ℕ → ℕ) where
  -- What follows a round; `next` is the rest of the loop, after the sleep.
  abbrev pub after_round :
      (Remaining → Session D S → Result (Unit {0}) × Session D S)
      → ℕ
      → Result Remaining × Session D S
      → Result (Unit {0}) × Session D S
  after_round next now (throw e, w) = (throw e, w)
  after_round next now (stuck, w) = (stuck, w)
  after_round next now (ok [], w) = (ok tt, w)
  after_round next now (ok (entry ∷ more), w) =
      if leb deadline now
      then (
        throw (
            Thrown.consistency_timeout timeout
              (map (λ (e : String × SubscriptionRef). ref_key e.1) (entry ∷ more))),
        w,
      )
      else next (entry ∷ more) w

  -- The `while` loop, on fuel; `i` counts the readings of the clock.
  unfoldable pub wait_from : ℕ → ℕ → Remaining → Io D S (Unit {0})
  wait_from zero i remaining w = (stuck, w)
  wait_from (suc fuel) i [] w = (ok tt, w)
  wait_from (suc fuel) i (entry ∷ more) w =
      after_round (wait_from fuel (suc i)) (clock i) (poll target (entry ∷ more) w)

-- The time that `sleep` is asked for after the i-th reading.
abbrev pub sleep_ms : (poll_interval deadline now : ℕ) → ℕ
sleep_ms poll_interval deadline now = min poll_interval (deadline - now)

module _ {D S : Type 0} (clock : ℕ → ℕ) (fuel : ℕ) (opts : WaitForProjectionOptions) where
  abbrev pub waiting : ℕ → List SubscriptionRef → Io D S (Unit {0})
  waiting target subscriptions =
      let timeout = get_or_else opts.timeout default_wait_timeout_ms in
      wait_from target (get_or_else opts.poll_interval default_wait_poll_interval_ms) timeout
        (clock 0 + timeout) clock fuel 1 (put_all [] subscriptions)

  -- The guard against subscriptions on other streams, and the wait.
  abbrev pub guarded : List String → Option SubscriptionRef → Io D S (Unit {0}) → Io D S (Unit {0})
  guarded streams none wait w = wait w
  guarded streams (some s) wait w = (throw (Thrown.consistency_target s.stream s.name streams), w)

  unfoldable pub wait_for_projection : List AppendedEvent → List SubscriptionRef → Io D S (Unit {0})
  wait_for_projection [] subscriptions w = (ok tt, w)
  wait_for_projection (r ∷ rs) [] w = (ok tt, w)
  wait_for_projection (r ∷ rs) (s ∷ ss) w =
      let streams = add_all [] (r ∷ rs) in
      guarded streams (misplaced streams (s ∷ ss))
        (waiting (highest r.event_number (r ∷ rs)) (s ∷ ss)) w

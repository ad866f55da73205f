-- ===== src/Aggregate/Retry.antt =====
-- The retry loop of `executeCommand`: how often it tries, and what it returns in the end.
use instructed.Prelude.{
  ℕ, zero, suc, ◌+◌, ◌≤◌, String, Bool, true, false, ◌&&◌, ◌≡◌, refl, sym, ap, subst, ◌⊎◌, inl, inr,
  some, arith, Bool-cases,
}
use instructed.Errors.{Thrown, is_wrong_expected_version}
use instructed.Result.{Result, ok, throw, stuck}
use instructed.Types.{ExpectedVersion}
use instructed.Session.{Session, Platform}
use instructed.Aggregate.{AggregateDefinition}
use instructed.Aggregate.Run.{
  RunCommandOptions, ExecutedCommand, is_none, attempt_once, retries, give_up, retry_loop,
}

and-left : (a b : Bool) → (a && b) ≡ true → a ≡ true
and-left true b h = refl
and-left false b h = h

add_zero : (n : ℕ) → n + 0 ≡ n
add_zero n = omega arith

module _ {S C D : Type 0} (p : Platform) (def : AggregateDefinition S C D) (u : String)
    (command : C) (causation : String) (opts : RunCommandOptions) (fuel : ℕ) where
  abbrev tried : Session D S → Result (ExecutedCommand S D) × Session D S
  tried = attempt_once p def u command causation opts fuel

  -- Attempts in a row that each met a conflict, from one session to another.
  abbrev pub Conflicts : ℕ → Session D S → Session D S → Type 0
  Conflicts zero w w' = w ≡ w'
  Conflicts (suc n) w w' =
      (retries p def u command causation opts (tried w).0 ≡ true) × Conflicts n (tried w).1 w'

  -- The last attempt's outcome is the loop's.
  abbrev Accepted : Session D S → Result (ExecutedCommand S D) × Session D S → Type 0
  Accepted last r =
      (retries p def u command causation opts (tried last).0 ≡ false) × (r ≡ tried last)

  -- The last attempt met a conflict too, and is wrapped with the number of attempts.
  abbrev Exhausted : ℕ → Session D S → Result (ExecutedCommand S D) × Session D S → Type 0
  Exhausted attempts last r =
      (e : Thrown) × ((tried last).0 ≡ throw e)
      × (is_wrong_expected_version e ≡ true)
      × (r ≡ (throw (Thrown.retry_budget_exhausted attempts e), (tried last).1))

  pub record Settles (left attempt : ℕ) (w : Session D S)
      (r : Result (ExecutedCommand S D) × Session D S) : Type 0 where
    pub tries : ℕ
    pub last : Session D S
    pub bounded : tries ≤ left
    pub conflicts : Conflicts tries w last
    pub ends : Accepted last r ⊎ ((tries ≡ left) × Exhausted (suc (attempt + left)) last r)

  spent :
      (attempt : ℕ) (e : Thrown) (w w' : Session D S)
      → tried w ≡ (throw e, w')
      → (is_wrong_expected_version e && is_none opts.expected_version) ≡ true
      → Exhausted (suc (attempt + 0)) w (throw (Thrown.retry_budget_exhausted (suc attempt) e), w')
  spent attempt e w w' h conflict = (
    e,
    ap (λ (r : Result (ExecutedCommand S D) × Session D S). r.0) h,
    and-left _ _ conflict,
    rw (h, add_zero attempt) refl,
  )

  gives_up :
      (attempt : ℕ) (r : Result (ExecutedCommand S D)) (w w' : Session D S)
      → tried w ≡ (r, w')
      → Settles 0 attempt w (give_up p def u command causation opts (suc attempt) r, w')
  gives_up attempt (ok r) w w' h = record {
    tries = 0;
    last = w;
    bounded = omega arith;
    conflicts = refl;
    ends = inl (rw h refl, sym h);
  }
  gives_up attempt stuck w w' h = record {
    tries = 0;
    last = w;
    bounded = omega arith;
    conflicts = refl;
    ends = inl (rw h refl, sym h);
  }
  gives_up attempt (throw e) w w' h =
      elim (Bool-cases (is_wrong_expected_version e && is_none opts.expected_version)) [
        | inl conflict ↦ rw conflict (record {
          tries = 0;
          last = w;
          bounded = omega arith;
          conflicts = refl;
          ends = inr (refl, spent attempt e w w' h conflict);
        })
        | inr other ↦ rw other (record {
          tries = 0;
          last = w;
          bounded = omega arith;
          conflicts = refl;
          ends = inl (rw h other, sym h);
        })
      ]

  -- One conflict more before.
  once_more :
      (left attempt : ℕ) (w : Session D S) {r : Result (ExecutedCommand S D) × Session D S}
      → retries p def u command causation opts (tried w).0 ≡ true
      → Settles left (suc attempt) (tried w).1 r
      → Settles (suc left) attempt w r
  once_more left attempt w {r} conflict s = record {
    tries = suc s.tries;
    last = s.last;
    bounded = omega (arith, s.bounded);
    conflicts = (conflict, s.conflicts);
    ends = elim s.ends [
      | inl accepted ↦ inl accepted
      | inr (at_end, exhausted) ↦
          inr (omega (arith, at_end), subst (λ n. Exhausted n s.last r) (omega arith) exhausted)
    ];
  }

  at_once :
      (left attempt : ℕ) (w : Session D S)
      → retries p def u command causation opts (tried w).0 ≡ false
      → Settles (suc left) attempt w (tried w)
  at_once left attempt w accepted = record {
    tries = 0;
    last = w;
    bounded = omega arith;
    conflicts = refl;
    ends = inl (accepted, refl);
  }

  -- The loop makes at most `left + 1` attempts, each after the first because the one before met a
  -- conflict on the default expectation. It returns what the last attempt returned, or, when that one too met
  -- a conflict and the budget is spent, `RetryBudgetExhausted` around its error, with the number of
  -- all attempts made.
  pub retry_loop-Settles :
      (left attempt : ℕ) (w : Session D S)
      → Settles left attempt w (retry_loop p def u command causation opts fuel left attempt w)
  unfolding retry_loop
  retry_loop-Settles zero attempt w = gives_up attempt (tried w).0 w (tried w).1 refl
  retry_loop-Settles (suc left) attempt w =
      let (r, w') = tried w in
      let next = λ (again : Bool). Settles (suc left) attempt w (elim again [
        | true ↦ retry_loop p def u command causation opts fuel left (suc attempt) w'
        | false ↦ (r, w')
      ]) in
      elim (Bool-cases (retries p def u command causation opts r)) [
        | inl again ↦
            subst next (sym again)
              (once_more left attempt w again (retry_loop-Settles left (suc attempt) w'))
        | inr done ↦ subst next (sym done) (at_once left attempt w done)
      ]

  module _ (expected : ExpectedVersion) (given : opts.expected_version ≡ some expected) where
    never_retries :
        (r : Result (ExecutedCommand S D)) → retries p def u command causation opts r ≡ false
    never_retries (ok r) = refl
    never_retries stuck = refl
    never_retries (throw e) = rw given (ground arith)

    never_gives_up :
        (attempts : ℕ) (r : Result (ExecutedCommand S D))
        → give_up p def u command causation opts attempts r ≡ r
    never_gives_up attempts (ok r) = refl
    never_gives_up attempts stuck = refl
    never_gives_up attempts (throw e) = rw given (ground arith)

    -- With an explicit expected version there is one attempt, whatever the budget: its outcome is
    -- returned as it is, a conflict included.
    pub retry_loop-explicit :
        (left attempt : ℕ) (w : Session D S)
        → retry_loop p def u command causation opts fuel left attempt w ≡ tried w
    unfolding retry_loop
    retry_loop-explicit zero attempt w =
        ap (λ r. (r, (tried w).1)) (never_gives_up (suc attempt) (tried w).0)
    retry_loop-explicit (suc left) attempt w =
        subst
          (λ (again : Bool).
            (elim again [
              | true ↦ retry_loop p def u command causation opts fuel left (suc attempt) (tried w).1
              | false ↦ tried w
            ])
            ≡ tried w)
          (sym (never_retries (tried w).0)) refl

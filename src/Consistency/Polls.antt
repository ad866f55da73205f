-- ===== src/Consistency/Polls.antt =====
-- What `waitForProjection` (sdks/typescript/src/consistency/consistency.ts) has seen when it returns.
use instructed.Prelude.{
  ℕ, zero, suc, ◌≤◌, String, ◌==◌, ◌≡◌, refl, sym, subst, Bool, true, false, Option, none, some,
  List, [], ◌∷◌, ◌⊎◌, inl, inr, leb, arith, Bool-cases,
}
use mathlib.Core.List.{Memᴰ}
use mathlib.Core.List.Memᴰ
use instructed.Errors.{Thrown}
use instructed.Result.{Result, ok, throw, stuck}
use instructed.Types.{AppendedEvent}
use instructed.Session.{Session}
use instructed.Client.Queue.{is_subscription_caught_up}
use instructed.Consistency.{
  SubscriptionRef, WaitForProjectionOptions, ref_key, Remaining, put_all, is_code, instructed_code,
  keep, after_query, poll, after_round, wait_from, wait_for_projection, misplaced, add_all, highest,
  guarded, waiting, includes,
}
use instructed.Consistency.Keys.{put_all-new, highest-bounds, misplaced-some}

module _ {D S : Type 0} (target : ℕ) where
  -- The sessions that queries on the way lead to.
  pub data Polled (w : Session D S) : Session D S → Type 0 where
    here : Polled w w
    asked :
        (v v' : Session D S) (s : SubscriptionRef) (answer : Result Bool)
        → Polled w v
        → is_subscription_caught_up s.stream s.name target v ≡ (answer, v')
        → Polled w v'

  -- A query on the way said that `s` has caught up.
  abbrev pub SeenCaughtUp : Session D S → SubscriptionRef → Type 0
  SeenCaughtUp w s =
      (v : Session D S) × (v' : Session D S) × Polled w v
      × (is_subscription_caught_up s.stream s.name target v ≡ (ok true, v'))

  -- What a round that went through tells, from where it began: how far it got, and of each
  -- subscription that it is left or was seen to have caught up.
  abbrev RoundTells : Session D S → Remaining → Remaining → Session D S → Type 0
  RoundTells w entries left w' =
      Polled w w'
      × ((e : String × SubscriptionRef) → Memᴰ e entries → SeenCaughtUp w e.1 ⊎ Memᴰ e left)

  one_more :
      {w : Session D S} {x e : String × SubscriptionRef} {rest more : Remaining}
      → (e ≡ x) ⊎ Memᴰ e rest
      → (Memᴰ e rest → SeenCaughtUp w e.1 ⊎ Memᴰ e more)
      → SeenCaughtUp w e.1 ⊎ Memᴰ e (x ∷ more)
  one_more (inl same) others = inr (Memᴰ.head same)
  one_more (inr i) others = elim (others i) [
    | inl seen ↦ inl seen
    | inr left ↦ inr (Memᴰ.tail left)
  ]

  first_seen :
      {w : Session D S} {x e : String × SubscriptionRef} {rest left : Remaining}
      → SeenCaughtUp w x.1
      → (e ≡ x) ⊎ Memᴰ e rest
      → (Memᴰ e rest → SeenCaughtUp w e.1 ⊎ Memᴰ e left)
      → SeenCaughtUp w e.1 ⊎ Memᴰ e left
  first_seen {w} seen (inl same) others =
      inl (subst (λ (z : String × SubscriptionRef). SeenCaughtUp w z.1) (sym same) seen)
  first_seen seen (inr i) others = others i

  module _ (w : Session D S) (k : String) (s : SubscriptionRef) (rest left : Remaining)
      (w' : Session D S)
      (tells : (v : Session D S) (more : Remaining)
        → Polled w v
        → poll target rest v ≡ (ok more, w')
        → RoundTells w rest more w') where
    kept :
        (v : Session D S) (q : Result Remaining × Session D S)
        → Polled w v
        → poll target rest v ≡ q
        → keep (k, s) q ≡ (ok left, w')
        → RoundTells w ((k, s) ∷ rest) left w'
    kept v (throw e, x) pv e1 e2 = absurd cc
    kept v (stuck, x) pv e1 e2 = absurd cc
    kept v (ok more, x) pv e1 e2 =
        let same : left ≡ (k, s) ∷ more = cc in
        let ended : x ≡ w' = cc in
        let all = tells v more pv (subst (λ z. poll target rest v ≡ (ok more, z)) ended e1) in
        subst (λ l. RoundTells w ((k, s) ∷ rest) l w') (sym same)
          (all.0, λ e i. one_more (Memᴰ.cases_cons i) (all.1 e))

    answered :
        (u : Session D S) (q : Result Bool × Session D S)
        → Polled w u
        → is_subscription_caught_up s.stream s.name target u ≡ q
        → after_query (k, s) (poll target rest) q ≡ (ok left, w')
        → RoundTells w ((k, s) ∷ rest) left w'
    answered u (ok true, v) p e1 e2 =
        let more = tells v left (asked u v s (ok true) p e1) e2 in
        (more.0, λ e i. first_seen (u, v, p, e1) (Memᴰ.cases_cons i) (more.1 e))
    answered u (ok false, v) p e1 e2 =
        kept v (poll target rest v) (asked u v s (ok false) p e1) refl e2
    answered u (throw e, v) p e1 e2 = elim (Bool-cases (is_code "IS020" (instructed_code e))) [
      | inl missing ↦
          kept v (poll target rest v) (asked u v s (throw e) p e1) refl
            (ground (arith, missing, e2))
      | inr other ↦ absurd (ground (arith, other, e2))
    ]
    answered u (stuck, v) p e1 e2 = absurd cc

  poll-tells :
      (w u : Session D S) (entries left : Remaining) {w' : Session D S}
      → Polled w u
      → poll target entries u ≡ (ok left, w')
      → RoundTells w entries left w'
  unfolding poll
  poll-tells w u [] left {w'} p h =
      let same : u ≡ w' = cc in (subst (Polled w) same p, λ e i. absurd (Memᴰ.not-nil i))
  poll-tells w u ((k, s) ∷ rest) left {w'} p h =
      answered w k s rest left w' (λ v more pv e. poll-tells w v rest more pv e) u
        (is_subscription_caught_up s.stream s.name target u) p refl h

module _ {D S : Type 0} (target poll_interval timeout deadline : ℕ) (clock : ℕ → ℕ) where
  -- The loop returns only when every entry was seen to have caught up.
  wait_from-seen :
      (w : Session D S) (fuel i : ℕ) (u : Session D S) (entries : Remaining) {w' : Session D S}
      → Polled target w u
      → wait_from target poll_interval timeout deadline clock fuel i entries u ≡ (ok tt, w')
      → (e : String × SubscriptionRef) → Memᴰ e entries
      → SeenCaughtUp target w e.1
  unfolding wait_from
  wait_from-seen w zero i u entries p h e m = absurd cc
  wait_from-seen w (suc fuel) i u [] p h e m = absurd (Memᴰ.not-nil m)
  wait_from-seen w (suc fuel) i u (x ∷ xs) {w'} p h e m =
      round (poll target (x ∷ xs) u) refl h
        (λ v more pv q. wait_from-seen w fuel (suc i) v more pv q e)
    where
      by_round :
          (left : Remaining)
          → SeenCaughtUp target w e.1 ⊎ Memᴰ e left
          → (Memᴰ e left → SeenCaughtUp target w e.1)
          → SeenCaughtUp target w e.1
      by_round left (inl seen) later = seen
      by_round left (inr still) later = later still

      round :
          (q : Result Remaining × Session D S)
          → poll target (x ∷ xs) u ≡ q
          → after_round target poll_interval timeout deadline clock
              (wait_from target poll_interval timeout deadline clock fuel (suc i))
              (clock i)
              q
            ≡ (ok tt, w')
          → ((v : Session D S) (more : Remaining)
              → Polled target w v
              → wait_from target poll_interval timeout deadline clock fuel (suc i) more v
                ≡ (ok tt, w')
              → Memᴰ e more
              → SeenCaughtUp target w e.1)
          → SeenCaughtUp target w e.1
      round (throw t, v) e1 e2 ih = absurd cc
      round (stuck, v) e1 e2 ih = absurd cc
      round (ok [], v) e1 e2 ih =
          by_round [] ((poll-tells target w u (x ∷ xs) [] p e1).1 e m)
            (λ n. absurd (Memᴰ.not-nil n))
      round (ok (y ∷ ys), v) e1 e2 ih =
          let told = poll-tells target w u (x ∷ xs) (y ∷ ys) p e1 in
          elim (Bool-cases (leb deadline (clock i))) [
            | inl late ↦ absurd (ground (arith, late, e2))
            | inr early ↦
                by_round (y ∷ ys) (told.1 e m) (ih v (y ∷ ys) told.0 (ground (arith, early, e2)))
          ]

module _ {D S : Type 0} (clock : ℕ → ℕ) (fuel : ℕ) (opts : WaitForProjectionOptions)
    (r : AppendedEvent) (rs : List AppendedEvent) (ss : List SubscriptionRef)
    (w : Session D S) where
  -- When `waitForProjection` on one or more appended events returns, then for each
  -- subscription that it was given a query on the way, at a target at or above each event's
  -- number, said that a subscription with the same `refKey` has caught up.
  pub wait_for_projection-caught_up :
      {w' : Session D S} (e : AppendedEvent) (s : SubscriptionRef)
      → wait_for_projection clock fuel opts (r ∷ rs) ss w ≡ (ok tt, w')
      → Memᴰ e (r ∷ rs)
      → Memᴰ s ss
      → (target : ℕ) × (e.event_number ≤ target)
        × ((t : SubscriptionRef) × (ref_key t ≡ ref_key s) × SeenCaughtUp target w t)
  unfolding wait_for_projection
  wait_for_projection-caught_up {w'} e s h i j =
      (highest r.event_number (r ∷ rs), highest-bounds (r ∷ rs) r.event_number e i, of ss h j)
    where
      guarded-waits :
          (streams : List String) (o : Option SubscriptionRef) (entries : List SubscriptionRef)
          → guarded clock fuel opts streams o
              (waiting clock fuel opts (highest r.event_number (r ∷ rs)) entries)
              w
            ≡ (ok tt, w')
          → Memᴰ s entries
          → (t : SubscriptionRef) × (ref_key t ≡ ref_key s)
            × SeenCaughtUp (highest r.event_number (r ∷ rs)) w t
      guarded-waits streams (some t) entries h j = absurd cc
      guarded-waits streams none entries h j =
          let kept = put_all-new s [] entries j in
          (
            kept.0,
            kept.1,
            wait_from-seen _ _ _ _ clock w fuel 1 w (put_all [] entries) here h (ref_key s, kept.0)
                kept.2,
          )

      of :
          (entries : List SubscriptionRef)
          → wait_for_projection clock fuel opts (r ∷ rs) entries w ≡ (ok tt, w')
          → Memᴰ s entries
          → (t : SubscriptionRef) × (ref_key t ≡ ref_key s)
            × SeenCaughtUp (highest r.event_number (r ∷ rs)) w t
      of [] h j = absurd (Memᴰ.not-nil j)
      of (x ∷ xs) h j =
          guarded-waits (add_all [] (r ∷ rs)) (misplaced (add_all [] (r ∷ rs)) (x ∷ xs)) (x ∷ xs) h
            j

  -- A subscription to a stream of its own on which nothing was appended is refused before any
  -- query.
  pub wait_for_projection-guards :
      (s : SubscriptionRef)
      → Memᴰ s ss
      → (s.stream == "$all") ≡ false
      → includes s.stream (add_all [] (r ∷ rs)) ≡ false
      → (t : SubscriptionRef) × (wait_for_projection clock fuel opts (r ∷ rs) ss w
          ≡ (throw (Thrown.consistency_target t.stream t.name (add_all [] (r ∷ rs))), w))
  unfolding wait_for_projection
  wait_for_projection-guards s i own other =
      of ss (misplaced-some (add_all [] (r ∷ rs)) ss s i own other) i
    where
      of :
          (entries : List SubscriptionRef)
          → ((t : SubscriptionRef) × (misplaced (add_all [] (r ∷ rs)) entries ≡ some t))
          → Memᴰ s entries
          → (t : SubscriptionRef) × (wait_for_projection clock fuel opts (r ∷ rs) entries w
              ≡ (throw (Thrown.consistency_target t.stream t.name (add_all [] (r ∷ rs))), w))
      of [] found j = absurd (Memᴰ.not-nil j)
      of (x ∷ xs) found j = (found.0, rw found.1 refl)

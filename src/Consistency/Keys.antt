-- ===== src/Consistency/Keys.antt =====
-- The map of subscriptions, the target and the guard of `waitForProjection`
-- (sdks/typescript/src/consistency/consistency.ts).
use instructed.Prelude.{
  ℕ, ◌≤◌, ltb, String, ◌==◌, ◌≡◌, refl, sym, ap, subst, false, some, List, [], ◌∷◌, inl, inr, arith,
  eq_iff, if◌then◌else◌, Bool-cases,
}
use mathlib.Core.List.{Memᴰ}
use mathlib.Core.List.Memᴰ
use instructed.Types.{AppendedEvent}
use instructed.Consistency.{
  SubscriptionRef, ref_key, Remaining, put, put_all, misplaced, highest, includes,
}

-- Each subscription given has an entry under its key.
abbrev pub Kept : SubscriptionRef → Remaining → Type 0
Kept s remaining = (t : SubscriptionRef) × (ref_key t ≡ ref_key s) × Memᴰ (ref_key s, t) remaining

put-new : (s : SubscriptionRef) (remaining : Remaining) → Kept s (put s remaining)
unfolding put
put-new s [] = (s, refl, Memᴰ.head refl)
put-new s ((k, t) ∷ rest) =
    let below = put-new s rest in
    elim (Bool-cases (k == ref_key s)) [
      | inl same ↦
          let e : k ≡ ref_key s = (eq_iff k (ref_key s)).0 same in (s, refl, rw same (Memᴰ.head cc))
      | inr differs ↦ (below.0, below.1, rw differs (Memᴰ.tail below.2))
    ]

put-old :
    (s t : SubscriptionRef) (remaining : Remaining) → Kept s remaining → Kept s (put t remaining)
unfolding put
put-old s t [] (u, e, i) = absurd (Memᴰ.not-nil i)
put-old s t ((k, v) ∷ rest) (u, e, i) = elim (Memᴰ.cases_cons i) [
  | inl found ↦ elim (Bool-cases (k == ref_key t)) [
    | inl same ↦
        let own : k ≡ ref_key t = (eq_iff k (ref_key t)).0 same in
        let key : ref_key s ≡ k = ap (λ (z : String × SubscriptionRef). z.0) found in
        (t, cc, rw same (Memᴰ.head cc))
    | inr differs ↦ (u, e, rw differs (Memᴰ.head found))
  ]
  | inr there ↦
      let below = put-old s t rest (u, e, there) in
      elim (Bool-cases (k == ref_key t)) [
        | inl same ↦ (u, e, rw same (Memᴰ.tail there))
        | inr differs ↦ (below.0, below.1, rw differs (Memᴰ.tail below.2))
      ]
]

put_all-old :
    (s : SubscriptionRef) (remaining : Remaining) (ss : List SubscriptionRef)
    → Kept s remaining
    → Kept s (put_all remaining ss)
unfolding put_all
put_all-old s remaining [] h = h
put_all-old s remaining (t ∷ ts) h = put_all-old s (put t remaining) ts (put-old s t remaining h)

pub put_all-new :
    (s : SubscriptionRef) (remaining : Remaining) (ss : List SubscriptionRef)
    → Memᴰ s ss
    → Kept s (put_all remaining ss)
unfolding put_all
put_all-new s remaining [] i = absurd (Memᴰ.not-nil i)
put_all-new s remaining (t ∷ ts) i = elim (Memᴰ.cases_cons i) [
  | inl found ↦
      subst (λ z. Kept z (put_all (put t remaining) ts)) (sym found)
        (put_all-old t (put t remaining) ts (put-new t remaining))
  | inr there ↦ put_all-new s (put t remaining) ts there
]

highest-grows : (m : ℕ) (rs : List AppendedEvent) → m ≤ highest m rs
unfolding highest
highest-grows m [] = omega arith
highest-grows m (r ∷ rs) = elim (Bool-cases (ltb m r.event_number)) [
  | inl more ↦ rw more (
      let below = highest-grows r.event_number rs in
      let step : m ≤ r.event_number = ground (arith, more) in omega (arith, below, step))
  | inr less ↦ rw less (highest-grows m rs)
]

pub highest-bounds :
    (rs : List AppendedEvent) (m : ℕ) (e : AppendedEvent)
    → Memᴰ e rs
    → e.event_number ≤ highest m rs
unfolding highest
highest-bounds [] m e i = absurd (Memᴰ.not-nil i)
highest-bounds (r ∷ rs) m e i = elim (Memᴰ.cases_cons i) [
  | inl found ↦
      let n : e.event_number ≡ r.event_number = ap (λ (z : AppendedEvent). z.event_number) found in
      elim (Bool-cases (ltb m r.event_number)) [
        | inl more ↦
            rw more (let below = highest-grows r.event_number rs in omega (arith, below, n))
        | inr less ↦ rw less (
            let below = highest-grows m rs in
            let bound : r.event_number ≤ m = ground (arith, less) in omega (arith, below, bound, n))
      ]
  | inr there ↦ highest-bounds rs (if ltb m r.event_number then r.event_number else m) e there
]

pub misplaced-some :
    (streams : List String) (ss : List SubscriptionRef) (s : SubscriptionRef)
    → Memᴰ s ss
    → (s.stream == "$all") ≡ false
    → includes s.stream streams ≡ false
    → (t : SubscriptionRef) × (misplaced streams ss ≡ some t)
unfolding misplaced
misplaced-some streams [] s i own other = absurd (Memᴰ.not-nil i)
misplaced-some streams (x ∷ xs) s i own other = elim (Memᴰ.cases_cons i) [
  | inl found ↦
      let own' : (x.stream == "$all") ≡ false =
        subst (λ (z : SubscriptionRef). (z.stream == "$all") ≡ false) found own in
      let other' : includes x.stream streams ≡ false =
        subst (λ (z : SubscriptionRef). includes z.stream streams ≡ false) found other in
      (x, rw (own', other') refl)
  | inr there ↦
      let below = misplaced-some streams xs s there own other in
      elim (Bool-cases (x.stream == "$all")) [
        | inl everything ↦ (below.0, rw everything below.1)
        | inr single ↦ elim (Bool-cases (includes x.stream streams)) [
          | inl appended ↦ (below.0, rw (single, appended) below.1)
          | inr foreign ↦ (x, rw (single, foreign) refl)
        ]
      ]
]

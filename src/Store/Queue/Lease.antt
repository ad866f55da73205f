-- ===== src/Store/Queue/Lease.antt =====
-- `claim_subscription` (sql/instructed.sql) under the invariant of the queue.
use instructed.Prelude.{
  ℕ, ◌+◌, String, ◌≡◌, refl, sym, subst, false, Option, none, some, ◌∷◌, inl, inr, arith, eq_iff,
  Bool-cases,
}
use instructed.Prelude.Int.{pos, negsuc}
use instructed.Result.{ok}
use instructed.Store.{SubscriptionRow, Store}
use instructed.Store.Subscriptions.{
  StartFrom, origin, current, number, ClaimRow, subscription_of, keyed, find_subscription,
  update_subscription, claim_subscription, leased, claim_row, claim_on, take_lease, stream_head,
  create_subscription, held_by_other,
}
use instructed.Store.Subscriptions.Leases.{claim_subscription-eq-ok}
use instructed.Store.Queue.Settled.{IsSettled}
use instructed.Store.Queue.Cursor.{Advanced, updated-Advanced, advance-IsSettled}

module _ {D S : Type 0} where
  -- The first row of a subscription, before the others.
  created-IsSettled :
      (u name worker : String) (expires cursor : ℕ) (s : Store D S) {x : ClaimRow} {s' : Store D S}
      → subscription_of u name s ≡ none
      → create_subscription u name worker expires s cursor ≡ ok (x, s')
      → IsSettled s
      → IsSettled s'
  unfolding subscription_of find_subscription keyed
  created-IsSettled u name worker expires cursor s {x} {s'} absent h st =
      let items : s'.work_items ≡ s.work_items = cc in
      let row : SubscriptionRow = record {
        stream_uuid = u;
        subscription_name = name;
        last_seen = cursor;
        claimed_by = some worker;
        claim_expires_at = some expires;
        created_at = s.now;
      } in
      let rows : s'.subscriptions ≡ row ∷ s.subscriptions = cc in
      advance-IsSettled s s' items
        (λ v n r e.
          let differs : keyed v n row ≡ false =
            ground (arith, eq_iff u v, eq_iff name n, absent, e) in
          let found : find_subscription v n (row ∷ s.subscriptions) ≡ some r = rw (differs) e in
          (r, subst (λ l. find_subscription v n l ≡ some r) (sym rows) found, omega arith))
        st

  first_claim-IsSettled :
      (u name worker : String) (expires head : ℕ) (from : StartFrom) (s : Store D S) {x : ClaimRow}
      {s' : Store D S}
      → subscription_of u name s ≡ none
      → claim_row u name worker expires from head s none ≡ ok (x, s')
      → IsSettled s
      → IsSettled s'
  first_claim-IsSettled u name worker expires head origin s absent h =
      created-IsSettled u name worker expires 0 s absent h
  first_claim-IsSettled u name worker expires head current s absent h =
      created-IsSettled u name worker expires head s absent h
  first_claim-IsSettled u name worker expires head (number (pos n)) s absent h =
      created-IsSettled u name worker expires n s absent h
  first_claim-IsSettled u name worker expires head (number (negsuc n)) s absent h = absurd cc

  reclaimed-IsSettled :
      (u name worker : String) (expires head : ℕ) (from : StartFrom) (s : Store D S)
      (r : SubscriptionRow) {x : ClaimRow} {s' : Store D S}
      → claim_row u name worker expires from head s (some r) ≡ ok (x, s')
      → IsSettled s
      → IsSettled s'
  unfolding keyed
  reclaimed-IsSettled u name worker expires head from s r {x} {s'} h st =
      elim (Bool-cases (held_by_other worker s.now r)) [
        | inl held ↦ let same : s' ≡ s = ground (arith, held, h) in subst IsSettled (sym same) st
        | inr free ↦ elim (Bool-cases (s.subscription_locked r)) [
          | inl locked ↦
              let same : s' ≡ s = ground (arith, free, locked, h) in subst IsSettled (sym same) st
          | inr unlocked ↦
              let taken : take_lease u name worker expires s r ≡ ok (x, s') =
                ground (arith, free, unlocked, h) in
              let rows : s'.subscriptions
                  ≡ update_subscription u name (leased worker expires) s.subscriptions =
                cc in
              let items : s'.work_items ≡ s.work_items = cc in
              advance-IsSettled s s' items
                (λ v n q e.
                  subst (λ l. Advanced v n q l) (sym rows)
                    (updated-Advanced u name v n (leased worker expires) s.subscriptions
                      (λ _ _ _. refl) (λ z. omega arith) e))
                st
        ]
      ]

  pub claim_subscription-IsSettled :
      (u name worker : String) (seconds : ℕ) (from : StartFrom) (s : Store D S) {x : ClaimRow}
      {s' : Store D S}
      → claim_subscription u name worker seconds from s ≡ ok (x, s')
      → IsSettled s
      → IsSettled s'
  claim_subscription-IsSettled u name worker seconds from s {x} {s'} h st =
      on_head (stream_head u s) (claim_subscription-eq-ok u name worker seconds from s h)
    where
      on_row :
          (head : ℕ) (o : Option SubscriptionRow)
          → subscription_of u name s ≡ o
          → claim_row u name worker (s.now + seconds) from head s o ≡ ok (x, s')
          → IsSettled s'
      on_row head none e q = first_claim-IsSettled u name worker _ head from s e q st
      on_row head (some r) e q = reclaimed-IsSettled u name worker _ head from s r q st

      on_head :
          (o : Option ℕ)
          → claim_on u name worker (s.now + seconds) from s o ≡ ok (x, s')
          → IsSettled s'
      on_head none q = absurd cc
      on_head (some head) q = on_row head (subscription_of u name s) refl q

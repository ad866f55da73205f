-- ===== src/Store/Subscriptions/Leases.antt =====
-- The lease that `claim_subscription` of sql/instructed.sql gives.
use instructed.Prelude.{
  ℕ, ◌+◌, ◌<◌, String, ◌==◌, ◌≡◌, ◌≢◌, refl, sym, subst, ◌∙◌, true, false, Option, none, some, List,
  [], ◌∷◌, inl, inr, arith, eq_iff, beq, lt→ltb, Bool-cases,
}
use instructed.Prelude.Int.{pos, negsuc}
use instructed.Result.{ok}
use instructed.Store.{SubscriptionRow, Store}
use instructed.Store.Subscriptions.{
  StartFrom, origin, current, number, claimed, already_claimed, ClaimRow, stream_head, keyed,
  find_subscription, update_subscription, held_by_other, reported, leased, subscription_of,
  create_subscription, claim_row, claim_on, take_lease, claim_subscription,
}

keyed_self : (r : SubscriptionRow) → keyed r.stream_uuid r.subscription_name r ≡ true
unfolding keyed
keyed_self r =
    ground
      (arith, eq_iff r.stream_uuid r.stream_uuid, eq_iff r.subscription_name r.subscription_name)

pub find_subscription-update :
    (u name : String) (f : SubscriptionRow → SubscriptionRow) (rows : List SubscriptionRow)
    {r : SubscriptionRow}
    → ((q : SubscriptionRow) → keyed u name (f q) ≡ keyed u name q)
    → find_subscription u name rows ≡ some r
    → find_subscription u name (update_subscription u name f rows) ≡ some (f r)
unfolding find_subscription update_subscription
find_subscription-update u name f [] keeps h = absurd cc
find_subscription-update u name f (q ∷ qs) {r} keeps h =
    ground (arith, h, keeps q, find_subscription-update u name f qs {r = r} keeps)

keyed-leased :
    (u name worker : String) (expires : ℕ) (q : SubscriptionRow)
    → keyed u name (leased worker expires q) ≡ keyed u name q
unfolding keyed
keyed-leased u name worker expires q = refl

module _ {D S : Type 0} (u name worker : String) (lease_seconds : ℕ) (from : StartFrom)
    (s : Store D S) where
  pub claim_subscription-eq-ok :
      {x : ClaimRow × Store D S}
      → claim_subscription u name worker lease_seconds from s ≡ ok x
      → claim_on u name worker (s.now + lease_seconds) from s (stream_head u s) ≡ ok x
  unfolding claim_subscription
  claim_subscription-eq-ok h = ground (arith, h)

  -- The row that a claim leaves where it got the lease.
  abbrev pub LeasedIn : Store D S → Type 0
  LeasedIn s' =
      (r : SubscriptionRow) × (subscription_of u name s'
        ≡ some (leased worker (s.now + lease_seconds) r))

  created :
      {x : ClaimRow} {s' : Store D S} (cursor : ℕ)
      → create_subscription u name worker (s.now + lease_seconds) s cursor ≡ ok (x, s')
      → LeasedIn s'
  unfolding subscription_of find_subscription
  created {x} {s'} cursor h =
      let row : SubscriptionRow = record {
        stream_uuid = u;
        subscription_name = name;
        last_seen = cursor;
        claimed_by = some worker;
        claim_expires_at = some (s.now + lease_seconds);
        created_at = s.now;
      } in
      let after : s' ≡ record s { subscriptions = row ∷ s.subscriptions } = cc in
      let found : find_subscription u name (row ∷ s.subscriptions) ≡ some row =
        rw (keyed_self row) refl in
      (
        row,
        subst (λ (t : Store D S). find_subscription u name t.subscriptions ≡ some row) (sym after)
            found,
      )

  first_claim :
      {x : ClaimRow} {s' : Store D S} (start : StartFrom) (head : ℕ)
      → claim_row u name worker (s.now + lease_seconds) start head s none ≡ ok (x, s')
      → LeasedIn s'
  first_claim origin head h = created 0 h
  first_claim current head h = created head h
  first_claim (number (pos n)) head h = created n h
  first_claim (number (negsuc n)) head h = absurd cc

  reclaimed :
      {x : ClaimRow} {s' : Store D S} (r : SubscriptionRow)
      → subscription_of u name s ≡ some r
      → claim_row u name worker (s.now + lease_seconds) from 0 s (some r) ≡ ok (x, s')
      → x.result ≡ claimed
      → LeasedIn s'
  unfolding subscription_of
  reclaimed {x} {s'} r e h won = elim (Bool-cases (held_by_other worker s.now r)) [
    | inl held ↦ absurd (ground (arith, held, h, won))
    | inr free ↦ elim (Bool-cases (s.subscription_locked r)) [
      | inl locked ↦ absurd (ground (arith, free, locked, h, won))
      | inr unlocked ↦
          let taken : take_lease u name worker (s.now + lease_seconds) s r ≡ ok (x, s') =
            ground (arith, free, unlocked, h) in
          let f = leased worker (s.now + lease_seconds) in
          let after : s'
              ≡ record s { subscriptions = update_subscription u name f s.subscriptions } =
            cc in
          let found : find_subscription u name (update_subscription u name f s.subscriptions)
              ≡ some (f r) =
            find_subscription-update u name f s.subscriptions
              (keyed-leased u name worker (s.now + lease_seconds)) e in
          (
            r,
            subst (λ (t : Store D S). find_subscription u name t.subscriptions ≡ some (f r))
                (sym after) found,
          )
    ]
  ]

  claim_subscription-leases :
      {x : ClaimRow} {s' : Store D S}
      → claim_subscription u name worker lease_seconds from s ≡ ok (x, s')
      → x.result ≡ claimed
      → LeasedIn s'
  claim_subscription-leases {x} {s'} h won = on_head (stream_head u s) (claim_subscription-eq-ok h)
    where
      on_row :
          (head : ℕ) (o : Option SubscriptionRow)
          → subscription_of u name s ≡ o
          → claim_row u name worker (s.now + lease_seconds) from head s o ≡ ok (x, s')
          → LeasedIn s'
      on_row head none e q = first_claim from head q
      on_row head (some r) e q = reclaimed r e q won

      on_head :
          (o : Option ℕ)
          → claim_on u name worker (s.now + lease_seconds) from s o ≡ ok (x, s')
          → LeasedIn s'
      on_head none q = absurd cc
      on_head (some head) q = on_row head (subscription_of u name s) refl q

-- After a worker has got the lease on a subscription, and as long as it runs and the
-- subscription's row and its stream are there unchanged, a claim by any other worker with a
-- name, for a lease above 0, returns `already_claimed` with that worker as the holder, and
-- changes nothing.
pub claim_subscription-excludes :
    {D S : Type 0} (u name worker other : String) (lease_seconds other_lease head : ℕ)
    (from other_from : StartFrom) (s later : Store D S) {x : ClaimRow} {s' : Store D S}
    → claim_subscription u name worker lease_seconds from s ≡ ok (x, s')
    → x.result ≡ claimed
    → other ≢ worker
    → (other == "") ≡ false
    → 0 < other_lease
    → subscription_of u name later ≡ subscription_of u name s'
    → stream_head u later ≡ some head
    → later.now < s.now + lease_seconds
    → (r : SubscriptionRow) × (r.claimed_by ≡ some worker)
      × (claim_subscription u name other other_lease other_from later
          ≡ ok (reported already_claimed r, later))
unfolding claim_subscription held_by_other
claim_subscription-excludes {D} {S} u name worker other lease_seconds other_lease head from
      other_from s later {x} {s'} h won differs given positive same there live =
    let left = claim_subscription-leases u name worker lease_seconds from s h won in
    let r : SubscriptionRow = leased worker (s.now + lease_seconds) left.0 in
    let now : subscription_of u name later ≡ some r = same ∙ left.1 in
    let named : (name == "") ≡ false = ground (arith, h) in
    let lasts : beq other_lease 0 ≡ false = ground arith in
    let holds : (worker == other) ≡ false = ground (arith, differs, eq_iff worker other) in
    (r, refl, rw (named, given, lasts, there, now, holds, lt→ltb _ _ live) refl)

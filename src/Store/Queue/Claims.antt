-- ===== src/Store/Queue/Claims.antt =====
-- What `claim_work_item` of sql/instructed.sql picks, and whom the calls on a claimed item serve.
use instructed.Prelude.{
  ℕ, ◌+◌, ◌≤◌, ◌<◌, String, ◌==◌, ◌≡◌, ◌≢◌, refl, sym, ap, subst, ◌∙◌, true, false, Option, none,
  some, List, arith, eq_iff, beq,
}
use instructed.Types.{SnapshotInput}
use instructed.Result.{Result, ok, throw, stuck}
use instructed.Store.{SubscriptionRow, claimed, done, ItemKey, WorkItem, Store}
use instructed.Store.Subscriptions.{
  require_subscription, require_subscription-any, stream_head, subscription_of,
}
use instructed.Store.Queue.{
  ClaimedRow, same_partition, same_key, on_subscription, find_item, exists_item, update_item,
  item_key, is_claimable, blocks, least, claimed_item, claimed_row, item_lost,
}
use instructed.Store.Queue.Calls.{
  candidates, claim_candidate, claim_work_item, require_item, complete_work_item_projection,
  complete_work_item_pm, fail_work_item, extend_work_item_claim,
}
use instructed.Store.Queue.Rows.{
  key-eq, same_key_iff, find_item-update_item, Unique, least-select, unblocked-done,
}

-- The item that a claimed row names.
abbrev pub named : String → String → ClaimedRow → ItemKey
named u name c = item_key u name c.partition_key c.event_number

module _ {D S : Type 0} (u name worker : String) (lease_seconds : ℕ) (s : Store D S) where
  -- What a claim that returned did: the subscription was there, and the least candidate was taken.
  pub claim_work_item-eq-ok :
      {r : Option ClaimedRow × Store D S}
      → claim_work_item u name worker lease_seconds s ≡ ok r
      → r ≡ claim_candidate worker (s.now + lease_seconds) s (least (candidates u name s))
  unfolding claim_work_item
  claim_work_item-eq-ok h = ground (arith, h)

  pub claim_work_item-required :
      {r : Option ClaimedRow × Store D S}
      → claim_work_item u name worker lease_seconds s ≡ ok r
      → (x : SubscriptionRow) × (require_subscription "claim_work_item" u name s ≡ ok x)
  unfolding claim_work_item
  claim_work_item-required {r} h = found (require_subscription "claim_work_item" u name s) refl
    where
      found :
          (q : Result SubscriptionRow)
          → require_subscription "claim_work_item" u name s ≡ q
          → (x : SubscriptionRow) × (require_subscription "claim_work_item" u name s ≡ ok x)
      found (ok x) e = (x, e)
      found (throw t) e = absurd (ground (arith, h, e))
      found stuck e = absurd (ground (arith, h, e))

  pub record Picked (c : ClaimedRow) (s' : Store D S) : Type 0 where
    pub item : WorkItem
    pub key_eq : item.key ≡ named u name c
    pub found : find_item item.key s.work_items ≡ some item
    pub claimable : is_claimable s.now item ≡ true
    pub unblocked : exists_item (blocks item.key) s.work_items ≡ false
    pub row : c ≡ claimed_row worker (s.now + lease_seconds) item
    pub after : s' ≡ record s {
      work_items = update_item item.key (claimed_item worker (s.now + lease_seconds)) s.work_items;
    }

  pub claim_work_item-Picked :
      {c : ClaimedRow} {s' : Store D S}
      → Unique s.work_items
      → claim_work_item u name worker lease_seconds s ≡ ok (some c, s')
      → Picked c s'
  unfolding candidates on_subscription
  claim_work_item-Picked {c} {s'} unique h =
      picked (least (candidates u name s)) refl (claim_work_item-eq-ok h)
    where
      picked :
          (o : Option WorkItem)
          → least (candidates u name s) ≡ o
          → (some c, s') ≡ claim_candidate worker (s.now + lease_seconds) s o
          → Picked c s'
      picked none e r = absurd cc
      picked (some i) e r =
          let own = least-select _ s.work_items unique e in
          let row : c ≡ claimed_row worker (s.now + lease_seconds) i = cc in
          record {
            item = i;
            key_eq =
                key-eq i.key (named u name c)
                  ((eq_iff i.key.stream_uuid u).0 (ground (arith, own.0)))
                  ((eq_iff i.key.subscription_name name).0 (ground (arith, own.0)))
                  (sym (ap (λ (q : ClaimedRow). q.partition_key) row))
                  (sym (ap (λ (q : ClaimedRow). q.event_number) row));
            found = own.1;
            claimable = ground (arith, own.0);
            unblocked = ground (arith, own.0);
            row = row;
            after = cc;
          }

-- A subscription is found whatever the work items are.
unmoved :
    {D S : Type 0} (procedure u name : String) (s : Store D S) (items : List WorkItem)
    {r : SubscriptionRow}
    → require_subscription procedure u name s ≡ ok r
    → require_subscription procedure u name (record s { work_items = items }) ≡ ok r
unfolding require_subscription stream_head subscription_of
unmoved procedure u name s items h = h

module _ {D S : Type 0} (u name worker : String) (lease_seconds : ℕ) (s : Store D S) where
  -- In a table with one row for each key, the rows before a claimed one in its partition are
  -- done.
  pub claim_work_item-in_order :
      {c : ClaimedRow} {s' : Store D S} (k : ItemKey) (j : WorkItem)
      → Unique s.work_items
      → claim_work_item u name worker lease_seconds s ≡ ok (some c, s')
      → find_item k s.work_items ≡ some j
      → same_partition k (named u name c) ≡ true
      → k.event_number < c.event_number
      → j.state ≡ done
  claim_work_item-in_order {c} k j unique h found same before =
      let p = claim_work_item-Picked u name worker lease_seconds s unique h in
      let unblocked : exists_item (blocks (named u name c)) s.work_items ≡ false =
        subst (λ (q : ItemKey). exists_item (blocks q) s.work_items ≡ false) p.key_eq p.unblocked in
      unblocked-done (named u name c) k s.work_items unblocked found same before

  -- In a table with one row for each key, a claim never takes an item that is claimed under a
  -- lease that has not run out.
  pub claim_work_item-respects_leases :
      {c : ClaimedRow} {s' : Store D S} (k : ItemKey) (j : WorkItem) (expires : ℕ)
      → Unique s.work_items
      → claim_work_item u name worker lease_seconds s ≡ ok (some c, s')
      → find_item k s.work_items ≡ some j
      → j.state ≡ claimed
      → j.lease_expires_at ≡ some expires
      → s.now ≤ expires
      → k ≢ named u name c
  unfolding is_claimable
  claim_work_item-respects_leases {c} k j expires unique h found state lease live e =
      let p = claim_work_item-Picked u name worker lease_seconds s unique h in
      let at_k : find_item k s.work_items ≡ some p.item =
        subst (λ (q : ItemKey). find_item q s.work_items ≡ some p.item) (p.key_eq ∙ sym e)
          p.found in
      let same : p.item ≡ j = cc in
      let claimable : is_claimable s.now j ≡ true =
        subst (λ i. is_claimable s.now i ≡ true) same p.claimable in
      ground (arith, claimable, state, lease, live)

  module _ {c : ClaimedRow} {s' : Store D S} (unique : Unique s.work_items)
      (h : claim_work_item u name worker lease_seconds s ≡ ok (some c, s')) where
    -- The item named, as it was, and as it is.
    picked : Picked u name worker lease_seconds s c s'
    picked = claim_work_item-Picked u name worker lease_seconds s unique h

    claimed_after :
        find_item (named u name c) s'.work_items
        ≡ some (claimed_item worker (s.now + lease_seconds) picked.item)
    claimed_after =
        let f = claimed_item worker (s.now + lease_seconds) in
        let found : find_item (named u name c) s.work_items ≡ some picked.item =
          subst (λ (q : ItemKey). find_item q s.work_items ≡ some picked.item) picked.key_eq
            picked.found in
        let same : same_key picked.item.key (named u name c) ≡ true =
          (same_key_iff _ _).1 picked.key_eq in
        let updated : find_item (named u name c) (update_item picked.item.key f s.work_items)
            ≡ some (f picked.item) =
          rw
            (
              find_item-update_item picked.item.key (named u name c) f s.work_items (λ i. refl),
              found,
              same,
            )
            refl in
        subst (λ (t : Store D S). find_item (named u name c) t.work_items ≡ some (f picked.item))
          (sym picked.after) updated

    -- The subscription is still there.
    required_after :
        (procedure : String)
        → (r : SubscriptionRow) × (require_subscription procedure u name s' ≡ ok r)
    required_after procedure =
        let found = claim_work_item-required u name worker lease_seconds s h in
        let asked : require_subscription procedure u name s ≡ ok found.0 =
          require_subscription-any "claim_work_item" procedure u name s found.1 in
        (
          found.0,
          subst (λ (t : Store D S). require_subscription procedure u name t ≡ ok found.0)
              (sym picked.after) (unmoved procedure u name s _ asked),
        )

    -- What every call on the item meets that another worker makes.
    pub require_item-other :
        (procedure other : String)
        → other ≢ worker
        → require_item procedure other (named u name c) s'
          ≡ throw (item_lost procedure "lease lost")
    unfolding require_item
    require_item-other procedure other differs =
        let r = required_after procedure in
        let holds : (worker == other) ≡ false = ground (arith, differs, eq_iff worker other) in
        rw (r.1, claimed_after, holds) refl

    name_given : (name == "") ≡ false
    unfolding claim_work_item
    name_given = ground (arith, h)

    -- After a worker has claimed an item, in a table with one row for each key, every call
    -- on that item by another worker with a name, to extend it with a lease above 0, to
    -- complete it either way (with a snapshot whose source and type are named) or to fail
    -- it, raises IS030.
    pub claim_work_item-fences :
        (other : String) (seconds : ℕ) (error_text : Option String) (x : SnapshotInput S)
        → other ≢ worker
        → (other == "") ≡ false
        → 0 < seconds
        → (x.source_uuid == "") ≡ false
        → (x.source_type == "") ≡ false
        → (extend_work_item_claim other (named u name c) seconds s'
            ≡ throw (item_lost "extend_work_item_claim" "lease lost"))
          × (complete_work_item_projection other (named u name c) s'
              ≡ throw (item_lost "complete_work_item_projection" "lease lost"))
          × (complete_work_item_pm other (named u name c) x s'
              ≡ throw (item_lost "complete_work_item_pm" "lease lost"))
          × (fail_work_item other (named u name c) error_text s'
              ≡ throw (item_lost "fail_work_item" "lease lost"))
    unfolding extend_work_item_claim complete_work_item_projection complete_work_item_pm
        fail_work_item
    claim_work_item-fences other seconds error_text x differs given positive uuid type =
        let lasts : beq seconds 0 ≡ false = ground arith in
        (
          rw (name_given, given, lasts, require_item-other "extend_work_item_claim" other differs)
              refl,
          rw (name_given, given, require_item-other "complete_work_item_projection" other differs)
              refl,
          rw
              (
                name_given,
                given,
                uuid,
                type,
                require_item-other "complete_work_item_pm" other differs,
              )
              refl,
          rw (name_given, given, require_item-other "fail_work_item" other differs) refl,
        )

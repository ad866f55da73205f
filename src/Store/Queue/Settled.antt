-- ===== src/Store/Queue/Settled.antt =====
-- The calls on work items (sql/instructed.sql) under the invariant of the queue: its order, and each item at
-- or before the cursor of its subscription.
use instructed.Prelude.{
  ℕ, ◌+◌, ◌≤◌, String, ◌≡◌, refl, sym, ap, subst, Bool, true, false, not, Option, none, some, ◌⊎◌,
  inl, inr, arith, beq, select,
}
use instructed.Types.{SnapshotInput}
use instructed.Result.{ok, throw_if, resolved}
use instructed.Store.{SubscriptionRow, claimed, done, ItemKey, WorkItem, Store, raise}
use instructed.Store.Snapshots.{with_kept, record_snapshot-eq-ok}
use instructed.Store.Subscriptions.{
  subscription_of, find_subscription, require_subscription, names, require_text,
}
use instructed.Store.Queue.{
  ClaimedRow, same_key, find_item, exists_item, update_item, blocks, claimed_item, done_item,
  failed_item, held_item, require_texts, require_claimed, is_claimable,
}
use instructed.Store.Queue.Calls.{
  require_item, complete_work_item_projection, complete_work_item_pm, fail_work_item,
  extend_work_item_claim, claim_candidate, claim_work_item,
}
use instructed.Store.Queue.Rows.{find_item-select}
use instructed.Store.Queue.Claims.{claim_work_item-eq-ok, claim_work_item-Picked}
use instructed.Store.Queue.Order.{
  is_filled, IsQueue, updated-cases, update_item-IsQueue, select-IsQueue,
}

-- A row held by a worker is claimed.
held-claimed :
    (worker : String) (i : WorkItem)
    → is_filled i ≡ true
    → names worker i.claimed_by ≡ true
    → i.state ≡ claimed
unfolding is_filled
held-claimed worker i filled held = ground (arith, filled, held)

done_item-filled :
    (i : WorkItem) → is_filled i ≡ true → i.state ≡ claimed → is_filled (done_item i) ≡ true
unfolding is_filled
done_item-filled i filled is = ground (arith, filled, is)

module _ {D S : Type 0} where
  -- The subscription of an item, with its cursor at the item or past it.
  abbrev pub BehindCursor : ItemKey → Store D S → Type 0
  BehindCursor k s =
      (r : SubscriptionRow) × (subscription_of k.stream_uuid k.subscription_name s ≡ some r)
      × (k.event_number ≤ r.last_seen)

  pub record IsSettled (s : Store D S) : Type 0 where
    pub queue : IsQueue s.work_items
    pub behind : (k : ItemKey) (i : WorkItem) → find_item k s.work_items ≡ some i → BehindCursor k s

  -- What `require_item` finds.
  required :
      (procedure worker : String) (k : ItemKey) (s : Store D S) {i : WorkItem}
      → require_item procedure worker k s ≡ ok i
      → (find_item k s.work_items ≡ some i) × (names worker i.claimed_by ≡ true)
  unfolding require_item
  required procedure worker k s {i} h =
      let found =
        resolved _ (require_subscription procedure k.stream_uuid k.subscription_name s) h in
      of_row (find_item k s.work_items) refl found.rest_ok
    where
      of_row :
          (o : Option WorkItem)
          → find_item k s.work_items ≡ o
          → held_item procedure worker o ≡ ok i
          → (find_item k s.work_items ≡ some i) × (names worker i.claimed_by ≡ true)
      of_row none e q = absurd cc
      of_row (some x) e q = ground (arith, e, q)

  -- Nothing of this looks beyond the two tables.
  pub elsewhere-IsSettled :
      (s t : Store D S)
      → t.subscriptions ≡ s.subscriptions
      → t.work_items ≡ s.work_items
      → IsSettled s
      → IsSettled t
  unfolding subscription_of
  elsewhere-IsSettled s t same_subscriptions same_items st = record {
    queue = subst IsQueue (sym same_items) st.queue;
    behind = λ k i h.
        let old = st.behind k i (subst (λ l. find_item k l ≡ some i) same_items h) in
        subst
          (λ l.
            (r : SubscriptionRow) × (find_subscription k.stream_uuid k.subscription_name l ≡ some r)
            × (k.event_number ≤ r.last_seen))
          (sym same_subscriptions) old;
  }

  -- An update of the row `x` at `k`, in the store.
  update-IsSettled :
      (k : ItemKey) (f : WorkItem → WorkItem) (x : WorkItem) (s : Store D S)
      → ((y : WorkItem) → (f y).key ≡ y.key)
      → find_item k s.work_items ≡ some x
      → is_filled (f x) ≡ true
      → (x.state ≡ done → (f x).state ≡ done)
      → ((f x).state ≡ claimed
          → (x.state ≡ claimed) ⊎ (exists_item (blocks k) s.work_items ≡ false))
      → IsSettled s
      → IsSettled (record s { work_items = update_item k f s.work_items })
  unfolding subscription_of
  update-IsSettled k f x s keeps found fills stays takes st = record {
    queue = update_item-IsQueue k f s.work_items x found st.queue keeps fills stays takes;
    behind = λ k' i h. elim (updated-cases k k' f s.work_items keeps h) [
      | inl (e, (y, at, is)) ↦ subst (λ (z : ItemKey). BehindCursor z s) e (st.behind k y at)
      | inr (differs, old) ↦ st.behind k' i old
    ];
  }

  -- An update of a row that its worker holds.
  held-IsSettled :
      (procedure worker : String) (k : ItemKey) (f : WorkItem → WorkItem) (s : Store D S)
      {i : WorkItem}
      → require_item procedure worker k s ≡ ok i
      → ((y : WorkItem) → (f y).key ≡ y.key)
      → (is_filled i ≡ true → i.state ≡ claimed → is_filled (f i) ≡ true)
      → IsSettled s
      → IsSettled (record s { work_items = update_item k f s.work_items })
  held-IsSettled procedure worker k f s {i} h keeps fills st =
      let own = required procedure worker k s h in
      let filled = st.queue.filled k i own.0 in
      let held : i.state ≡ claimed = held-claimed worker i filled own.1 in
      update-IsSettled k f i s keeps own.0 (fills filled held) (λ e. absurd cc) (λ e. inl held) st

  pub select-IsSettled :
      (p : WorkItem → Bool) (s : Store D S)
      → IsSettled s
      → IsSettled (record s { work_items = select p s.work_items })
  unfolding subscription_of
  select-IsSettled p s st = record {
    queue = select-IsQueue p s.work_items st.queue;
    behind = λ k i h. st.behind k i (find_item-select p k s.work_items st.queue.unique h);
  }

  pub fail_work_item-IsSettled :
      (worker : String) (k : ItemKey) (text : Option String) (s : Store D S) {s' : Store D S}
      → fail_work_item worker k text s ≡ ok (tt, s')
      → IsSettled s
      → IsSettled s'
  unfolding fail_work_item is_filled
  fail_work_item-IsSettled worker k text s {s'} h st =
      let checked = resolved _ (require_texts "fail_work_item" worker k) h in
      let held = resolved _ (require_item "fail_work_item" worker k s) checked.rest_ok in
      let after : s'
          ≡ record s { work_items = update_item k (failed_item s.now text) s.work_items } =
        cc in
      subst IsSettled (sym after) (
        held-IsSettled "fail_work_item" worker k (failed_item s.now text) s held.first_ok
          (λ y. refl) (λ _ _. refl) st)

  pub complete_work_item_projection-IsSettled :
      (worker : String) (k : ItemKey) (s : Store D S) {s' : Store D S}
      → complete_work_item_projection worker k s ≡ ok (tt, s')
      → IsSettled s
      → IsSettled s'
  unfolding complete_work_item_projection
  complete_work_item_projection-IsSettled worker k s {s'} h st =
      let checked = resolved _ (require_texts "complete_work_item_projection" worker k) h in
      let held =
        resolved _ (require_item "complete_work_item_projection" worker k s) checked.rest_ok in
      let p = λ (i : WorkItem). not (same_key i.key k) in
      let after : s' ≡ record s { work_items = select p s.work_items } = cc in
      subst IsSettled (sym after) (select-IsSettled p s st)

  pub extend_work_item_claim-IsSettled :
      (worker : String) (k : ItemKey) (seconds at : ℕ) (s : Store D S) {s' : Store D S}
      → extend_work_item_claim worker k seconds s ≡ ok (at, s')
      → IsSettled s
      → IsSettled s'
  unfolding extend_work_item_claim is_filled
  extend_work_item_claim-IsSettled worker k seconds at s {s'} h st =
      let checked = resolved _ (require_texts "extend_work_item_claim" worker k) h in
      let timed =
        resolved _
          (throw_if (beq seconds 0)
            (raise "22023" "extend_work_item_claim: p_lease_seconds must be a positive integer"))
          checked.rest_ok in
      let held = resolved _ (require_item "extend_work_item_claim" worker k s) timed.rest_ok in
      let live = resolved _ (require_claimed held.given) held.rest_ok in
      let f = λ (j : WorkItem). record j { lease_expires_at = some (s.now + seconds) } in
      let after : s' ≡ record s { work_items = update_item k f s.work_items } = cc in
      subst IsSettled (sym after) (
        held-IsSettled "extend_work_item_claim" worker k f s held.first_ok (λ y. refl)
          (λ filled is. ground (arith, filled, is)) st)

  pub complete_work_item_pm-IsSettled :
      (worker : String) (k : ItemKey) (x : SnapshotInput S) (s : Store D S) {s' : Store D S}
      → complete_work_item_pm worker k x s ≡ ok (tt, s')
      → IsSettled s
      → IsSettled s'
  unfolding complete_work_item_pm is_filled
  complete_work_item_pm-IsSettled worker k x s {s'} h st =
      let checked = resolved _ (require_texts "complete_work_item_pm" worker k) h in
      let uuid =
        resolved _
          (require_text x.source_uuid "complete_work_item_pm: p_snapshot_uuid is null/empty")
          checked.rest_ok in
      let type =
        resolved _
          (require_text x.source_type "complete_work_item_pm: p_snapshot_type is null/empty")
          uuid.rest_ok in
      let held = resolved _ (require_item "complete_work_item_pm" worker k s) type.rest_ok in
      let t : Store D S = record s { work_items = update_item k done_item s.work_items } in
      let after : s' ≡ with_kept x t =
        ap (λ (r : Unit {0} × Store D S). r.1) (record_snapshot-eq-ok x t held.rest_ok) in
      let settled =
        held-IsSettled "complete_work_item_pm" worker k done_item s held.first_ok (λ y. refl)
          (done_item-filled held.given) st in
      subst IsSettled (sym after) (elsewhere-IsSettled t (with_kept x t) refl refl settled)

  -- A claim that finds nothing leaves the store.
  unclaimed :
      (worker : String) (expires : ℕ) (s : Store D S) {s' : Store D S} (o : Option WorkItem)
      → (none, s') ≡ claim_candidate worker expires s o
      → s' ≡ s
  unclaimed worker expires s none h = cc
  unclaimed worker expires s (some i) h = absurd cc

  pub claim_work_item-IsSettled :
      (u name worker : String) (seconds : ℕ) (s : Store D S) (c : Option ClaimedRow)
      {s' : Store D S}
      → claim_work_item u name worker seconds s ≡ ok (c, s')
      → IsSettled s
      → IsSettled s'
  unfolding is_filled is_claimable
  claim_work_item-IsSettled u name worker seconds s none {s'} h st =
      subst IsSettled
        (sym (unclaimed worker _ s _ (claim_work_item-eq-ok u name worker seconds s h))) st
  claim_work_item-IsSettled u name worker seconds s (some c) {s'} h st =
      let p = claim_work_item-Picked u name worker seconds s st.queue.unique h in
      let f = claimed_item worker (s.now + seconds) in
      let filled = st.queue.filled p.item.key p.item p.found in
      let fills : is_filled (f p.item) ≡ true = ground (arith, filled, p.claimable) in
      subst IsSettled (sym p.after) (
        update-IsSettled p.item.key f p.item s (λ y. refl) p.found fills
          (λ e. absurd (ground (arith, e, p.claimable))) (λ _. inr p.unblocked) st)

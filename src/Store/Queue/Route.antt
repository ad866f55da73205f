-- ===== src/Store/Queue/Route.antt =====
-- `route_batch` (sql/instructed.sql) under the invariant of the queue.
use instructed.Prelude.{
  ℕ, ◌≤◌, ◌<◌, max, String, ◌≡◌, ◌≢◌, refl, sym, ap, subst, ◌∙◌, true, Option, none, some, List, [],
  ◌∷◌, ◌⊎◌, inl, inr, arith,
}
use instructed.Result.{ok, resolved}
use instructed.Store.{SubscriptionRow, pending, claimed, ItemKey, WorkItem, Store}
use instructed.Store.Subscriptions.{
  subscription_of, keyed, find_subscription, update_subscription, require_subscription,
  require_holder, found_on, stream_head, require_text,
}
use instructed.Store.Subscriptions.Leases.{find_subscription-update}
use instructed.Store.Queue.{
  Decision, RouteBatchRow, same_partition, find_item, insert_item, insert_items, item_key,
}
use instructed.Store.Queue.Calls.{route_batch}
use instructed.Store.Queue.Rows.{same_partition_iff}
use instructed.Store.Queue.Order.{IsQueue, inserted-cases, insert_item-IsQueue}
use instructed.Store.Queue.Settled.{BehindCursor, IsSettled}
use instructed.Store.Queue.Cursor.{updated-Advanced}

-- Decisions on events after `last_seen` and up to `cursor`.
abbrev pub Ahead : ℕ → ℕ → List Decision → Type 0
Ahead last_seen cursor [] = Unit
Ahead last_seen cursor (d ∷ ds) =
    (last_seen < d.event_number) × (d.event_number ≤ cursor) × Ahead last_seen cursor ds

-- The claimed rows of a subscription are at `last_seen` or before it.
Passed : String → String → ℕ → List WorkItem → Type 0
Passed u name last_seen items =
    (k : ItemKey) (j : WorkItem)
    → find_item k items ≡ some j
    → k.stream_uuid ≡ u
    → k.subscription_name ≡ name
    → j.state ≡ claimed
    → k.event_number ≤ last_seen

insert_item-Passed :
    (u name : String) (last_seen : ℕ) (k : ItemKey) (items : List WorkItem)
    → Passed u name last_seen items
    → Passed u name last_seen (insert_item k items)
unfolding Passed
insert_item-Passed u name last_seen k items passed k' j h on_u on_name held =
    elim (inserted-cases k k' items h) [
      | inl old ↦ passed k' j old on_u on_name held
      | inr new ↦ let now : j.state ≡ pending = ap (λ (z : WorkItem). z.state) new.1 in absurd cc
    ]

latest-row :
    (u name : String) (last_seen : ℕ) (k : ItemKey) (items : List WorkItem)
    → k.stream_uuid ≡ u
    → k.subscription_name ≡ name
    → last_seen < k.event_number
    → Passed u name last_seen items
    → (k' : ItemKey) (j : WorkItem) → find_item k' items ≡ some j
    → same_partition k k' ≡ true
    → k.event_number < k'.event_number
    → j.state ≢ claimed
unfolding Passed
latest-row u name last_seen k items on_u on_name after passed k' j found same before held =
    let parts = (same_partition_iff k k').0 same in
    let bound = passed k' j found (sym parts.0 ∙ on_u) (sym parts.1 ∙ on_name) held in
    omega (arith, bound, before, after)

insert_items-IsQueue :
    (u name : String) (last_seen cursor : ℕ) (ds : List Decision) (items : List WorkItem)
    → Ahead last_seen cursor ds
    → Passed u name last_seen items
    → IsQueue items
    → IsQueue (insert_items u name ds items)
unfolding insert_items Passed
insert_items-IsQueue u name last_seen cursor [] items ahead passed q = q
insert_items-IsQueue u name last_seen cursor (d ∷ ds) items ahead passed q =
    let k = item_key u name d.partition_key d.event_number in
    insert_items-IsQueue u name last_seen cursor ds (insert_item k items) ahead.2
      (insert_item-Passed u name last_seen k items passed)
      (insert_item-IsQueue k items (latest-row u name last_seen k items refl refl ahead.0 passed) q)

-- A row after the insertions is an old one, or one of the decisions'.
Inserted : String → String → ℕ → List WorkItem → ItemKey → WorkItem → Type 0
Inserted u name cursor items k i =
    (find_item k items ≡ some i)
    ⊎ ((k.stream_uuid ≡ u) × (k.subscription_name ≡ name) × (k.event_number ≤ cursor))

insert_items-Inserted :
    (u name : String) (last_seen cursor : ℕ) (ds : List Decision) (items : List WorkItem)
    (k : ItemKey) (i : WorkItem)
    → Ahead last_seen cursor ds
    → find_item k (insert_items u name ds items) ≡ some i
    → Inserted u name cursor items k i
unfolding insert_items Inserted
insert_items-Inserted u name last_seen cursor [] items k i ahead h = inl h
insert_items-Inserted u name last_seen cursor (d ∷ ds) items k i ahead h =
    let new = item_key u name d.partition_key d.event_number in
    elim (insert_items-Inserted u name last_seen cursor ds (insert_item new items) k i ahead.2 h) [
      | inl old ↦ elim (inserted-cases new k items old) [
        | inl older ↦ inl older
        | inr (e, is) ↦ inr (
          sym (ap (λ (z : ItemKey). z.stream_uuid) e),
          sym (ap (λ (z : ItemKey). z.subscription_name) e),
          subst (λ (z : ItemKey). z.event_number ≤ cursor) e ahead.1,
        )
      ]
      | inr found ↦ inr found
    ]

abbrev pub advanced : ℕ → SubscriptionRow → SubscriptionRow
advanced cursor q = record q { last_seen = max q.last_seen cursor }

module _ {D S : Type 0} where
  pub found-row :
      (procedure u name : String) (s : Store D S) {r : SubscriptionRow}
      → require_subscription procedure u name s ≡ ok r
      → subscription_of u name s ≡ some r
  unfolding require_subscription
  found-row procedure u name s {r} h = on_row (stream_head u s) (subscription_of u name s) h
    where
      on_row :
          (head : Option ℕ) (o : Option SubscriptionRow)
          → found_on procedure u name head o ≡ ok r
          → o ≡ some r
      on_row none o q = absurd cc
      on_row (some head) none q = absurd cc
      on_row (some head) (some x) q = cc

  -- The cursor after the batch is at each row or past it.
  routed-behind :
      (u name : String) (cursor : ℕ) (ds : List Decision) (s : Store D S) (r : SubscriptionRow)
      (k : ItemKey) (i : WorkItem)
      → subscription_of u name s ≡ some r
      → Ahead r.last_seen cursor ds
      → IsSettled s
      → find_item k (insert_items u name ds s.work_items) ≡ some i
      → BehindCursor k (record s {
        subscriptions = update_subscription u name (advanced cursor) s.subscriptions;
      })
  unfolding subscription_of Inserted keyed
  routed-behind u name cursor ds s r k i there ahead st e =
      elim (insert_items-Inserted u name r.last_seen cursor ds s.work_items k i ahead e) [
        | inl old ↦
            let b = st.behind k i old in
            let moved =
              updated-Advanced u name k.stream_uuid k.subscription_name (advanced cursor)
                s.subscriptions (λ _ _ _. refl) (λ q. omega arith) b.1 in
            (moved.0, moved.1, omega (arith, b.2, moved.2))
        | inr (on_u, on_name, bound) ↦
            let at : find_subscription u name
                  (update_subscription u name (advanced cursor) s.subscriptions)
                ≡ some (advanced cursor r) =
              find_subscription-update u name (advanced cursor) s.subscriptions (λ _. refl) there in
            (advanced cursor r, rw (on_u, on_name) at, omega (arith, bound))
      ]

  pub route_batch-IsSettled :
      (u name worker : String) (cursor : ℕ) (ds : List Decision) (s : Store D S)
      (r : SubscriptionRow) {x : RouteBatchRow} {s' : Store D S}
      → route_batch u name worker cursor ds s ≡ ok (x, s')
      → subscription_of u name s ≡ some r
      → Ahead r.last_seen cursor ds
      → IsSettled s
      → IsSettled s'
  unfolding route_batch subscription_of Passed Inserted keyed
  route_batch-IsSettled u name worker cursor ds s r {x} {s'} h there ahead st =
      let named =
        resolved _ (require_text name "route_batch: p_subscription_name is null/empty") h in
      let given =
        resolved _ (require_text worker "route_batch: p_worker_id is null/empty") named.rest_ok in
      let found = resolved _ (require_subscription "route_batch" u name s) given.rest_ok in
      let held = resolved _ (require_holder "route_batch" worker found.given) found.rest_ok in
      let items : s'.work_items ≡ insert_items u name ds s.work_items = cc in
      let rows : s'.subscriptions ≡ update_subscription u name (advanced cursor) s.subscriptions =
        cc in
      let passed =
        λ (k : ItemKey) (j : WorkItem) (at : find_item k s.work_items ≡ some j)
            (on_u : k.stream_uuid ≡ u) (on_name : k.subscription_name ≡ name)
            (held : j.state ≡ claimed).
          let b = st.behind k j at in
          let own : b.0 ≡ r = cc in
          subst (λ (z : SubscriptionRow). k.event_number ≤ z.last_seen) own b.2 in
      record {
        queue =
            subst IsQueue (sym items) (
              insert_items-IsQueue u name r.last_seen cursor ds s.work_items ahead passed st.queue);
        behind = λ k i e.
            subst
              (λ l.
                (q : SubscriptionRow) × (find_subscription k.stream_uuid k.subscription_name l
                  ≡ some q)
                × (k.event_number ≤ q.last_seen))
              (sym rows)
              (routed-behind u name cursor ds s r k i there ahead st
                (subst (λ l. find_item k l ≡ some i) items e));
      }

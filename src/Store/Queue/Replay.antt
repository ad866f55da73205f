-- ===== src/Store/Queue/Replay.antt =====
-- `route_batch` (sql/instructed.sql) run again with the same decisions, as after a crash.
use instructed.Prelude.{
  ℕ, ◌-◌, max, String, ◌==◌, ◌≡◌, refl, sym, ap, subst, ◌∙◌, false, Option, none, some, List, [],
  ◌∷◌, inl, inr, arith, length, Option-cases, Bool-cases,
}
use instructed.Result.{ok, resolved}
use instructed.Store.{SubscriptionRow, ItemKey, WorkItem, Store}
use instructed.Store.Subscriptions.{
  subscription_of, keyed, find_subscription, update_subscription, require_subscription,
  require_holder, require_text, found_on, stream_head,
}
use instructed.Store.Subscriptions.Leases.{find_subscription-update}
use instructed.Store.Queue.{
  Decision, RouteBatchRow, same_key, find_item, insert_item, insert_items, item_key, routed_item,
}
use instructed.Store.Queue.Calls.{route_batch}
use instructed.Store.Queue.Rows.{same_key_iff, find_item-insert_item}
use instructed.Store.Queue.Route.{advanced, found-row}

There : ItemKey → List WorkItem → Type 0
There k items = (i : WorkItem) × (find_item k items ≡ some i)

-- Every decision has its row.
Present : String → String → List Decision → List WorkItem → Type 0
unfolding There
Present u name [] items = Unit
Present u name (d ∷ ds) items =
    There (item_key u name d.partition_key d.event_number) items × Present u name ds items

insert_item-There :
    (k k' : ItemKey) (items : List WorkItem) → There k items → There k (insert_item k' items)
unfolding There
insert_item-There k k' items h = elim (Bool-cases (same_key k' k)) [
  | inl same ↦
      let e : k' ≡ k = (same_key_iff k' k).0 same in
      let at : find_item k' items ≡ some h.0 =
        subst (λ z. find_item z items ≡ some h.0) (sym e) h.1 in
      (h.0, rw (find_item-insert_item k' k items, same, at) refl)
  | inr differs ↦ (h.0, rw (find_item-insert_item k' k items, differs) h.1)
]

inserted-There : (k : ItemKey) (items : List WorkItem) → There k (insert_item k items)
unfolding There
inserted-There k items = elim (Option-cases (find_item k items)) [
  | inl absent ↦
      (routed_item k, rw (find_item-insert_item k k items, (same_key_iff k k).1 refl, absent) refl)
  | inr there ↦
      (there.0, rw (find_item-insert_item k k items, (same_key_iff k k).1 refl, there.1) refl)
]

insert_items-There :
    (u name : String) (ds : List Decision) (k : ItemKey) (items : List WorkItem)
    → There k items
    → There k (insert_items u name ds items)
unfolding insert_items
insert_items-There u name [] k items h = h
insert_items-There u name (d ∷ ds) k items h =
    insert_items-There u name ds k _
      (insert_item-There k (item_key u name d.partition_key d.event_number) items h)

insert_items-Present :
    (u name : String) (ds : List Decision) (items : List WorkItem)
    → Present u name ds (insert_items u name ds items)
unfolding insert_items Present
insert_items-Present u name [] items = tt
insert_items-Present u name (d ∷ ds) items =
    let k = item_key u name d.partition_key d.event_number in
    (
      insert_items-There u name ds k _ (inserted-There k items),
      insert_items-Present u name ds (insert_item k items),
    )

Present-unchanged :
    (u name : String) (ds : List Decision) (items : List WorkItem)
    → Present u name ds items
    → insert_items u name ds items ≡ items
unfolding insert_items insert_item Present There
Present-unchanged u name [] items h = refl
Present-unchanged u name (d ∷ ds) items h = rw h.0.1 (Present-unchanged u name ds items h.1)

sub_self : (n : ℕ) → n - n ≡ 0
sub_self n = omega arith

max-twice : (a b : ℕ) → max (max a b) b ≡ max a b
max-twice a b = omega arith

advanced-twice :
    (u name : String) (cursor : ℕ) (rows : List SubscriptionRow)
    → update_subscription u name
        (advanced cursor)
        (update_subscription u name (advanced cursor) rows)
      ≡ update_subscription u name (advanced cursor) rows
unfolding update_subscription keyed
advanced-twice u name cursor [] = refl
advanced-twice u name cursor (q ∷ qs) =
    let rest = advanced-twice u name cursor qs in
    elim (Bool-cases (keyed u name q)) [
      | inl hit ↦
          let same : advanced cursor (advanced cursor q) ≡ advanced cursor q =
            ap (λ n. record q { last_seen = n }) (max-twice q.last_seen cursor) in
          rw (hit, hit, same) (ap (λ l. advanced cursor q ∷ l) rest)
      | inr miss ↦ rw (miss, miss) (ap (λ l. q ∷ l) rest)
    ]

module _ {D S : Type 0} (u name worker : String) (cursor : ℕ) (ds : List Decision) where
  -- What a batch makes of the store.
  abbrev routed_store : Store D S → Store D S
  routed_store s = record s {
    subscriptions = update_subscription u name (advanced cursor) s.subscriptions;
    work_items = insert_items u name ds s.work_items;
  }

  abbrev batch_row : SubscriptionRow → Store D S → RouteBatchRow
  batch_row r s = record {
    inserted_count = length (insert_items u name ds s.work_items) - length s.work_items;
    new_last_seen = max r.last_seen cursor;
  }

  pub record Routes (s : Store D S) (x : RouteBatchRow) (s' : Store D S) : Type 0 where
    pub row : SubscriptionRow
    pub named : (name == "") ≡ false
    pub given : (worker == "") ≡ false
    pub found : require_subscription "route_batch" u name s ≡ ok row
    pub held : require_holder "route_batch" worker row ≡ ok tt
    pub counts : x ≡ batch_row row s
    pub after : s' ≡ routed_store s

  route_batch-Routes :
      (s : Store D S) {x : RouteBatchRow} {s' : Store D S}
      → route_batch u name worker cursor ds s ≡ ok (x, s')
      → Routes s x s'
  unfolding route_batch
  route_batch-Routes s {x} {s'} h =
      let named =
        resolved _ (require_text name "route_batch: p_subscription_name is null/empty") h in
      let given =
        resolved _ (require_text worker "route_batch: p_worker_id is null/empty") named.rest_ok in
      let found = resolved _ (require_subscription "route_batch" u name s) given.rest_ok in
      let held = resolved _ (require_holder "route_batch" worker found.given) found.rest_ok in
      record {
        row = found.given;
        named = ground (arith, named.first_ok);
        given = ground (arith, given.first_ok);
        found = found.first_ok;
        held = held.first_ok;
        counts = cc;
        after = cc;
      }

  route_batch-runs :
      (s : Store D S) (r : SubscriptionRow)
      → (name == "") ≡ false
      → (worker == "") ≡ false
      → require_subscription "route_batch" u name s ≡ ok r
      → require_holder "route_batch" worker r ≡ ok tt
      → route_batch u name worker cursor ds s ≡ ok (batch_row r s, routed_store s)
  unfolding route_batch
  route_batch-runs s r named given found held = rw (named, given, found, held) refl

  -- The subscription is found in what a batch makes of the store, at the new cursor.
  routed_store-found :
      (s : Store D S) (r : SubscriptionRow)
      → require_subscription "route_batch" u name s ≡ ok r
      → require_subscription "route_batch" u name (routed_store s) ≡ ok (advanced cursor r)
  unfolding require_subscription subscription_of stream_head keyed
  routed_store-found s r h = on_head (stream_head u s) h
    where
      on_head :
          (head : Option ℕ)
          → found_on "route_batch" u name head (subscription_of u name s) ≡ ok r
          → found_on "route_batch" u name head (subscription_of u name (routed_store s))
            ≡ ok (advanced cursor r)
      on_head none q = absurd cc
      on_head (some head) q =
          let there = found-row "route_batch" u name s h in
          let moved : find_subscription u name
                (update_subscription u name (advanced cursor) s.subscriptions)
              ≡ some (advanced cursor r) =
            find_subscription-update u name (advanced cursor) s.subscriptions (λ q. refl) there in
          ap (λ o. found_on "route_batch" u name (some head) o) moved

  -- A `route_batch` that returned, run again with the same arguments on the store that it
  -- left, inserts nothing, reports the same cursor, and leaves the store as it is.
  pub route_batch-replayed :
      (s : Store D S) {x : RouteBatchRow} {s' : Store D S}
      → route_batch u name worker cursor ds s ≡ ok (x, s')
      → route_batch u name worker cursor ds s'
        ≡ ok (record { inserted_count = 0; new_last_seen = x.new_last_seen }, s')
  route_batch-replayed s {x} {s'} h =
      let p = route_batch-Routes s h in
      let t = routed_store s in
      let items : insert_items u name ds t.work_items ≡ t.work_items =
        Present-unchanged u name ds t.work_items (insert_items-Present u name ds s.work_items) in
      let rows : update_subscription u name (advanced cursor) t.subscriptions ≡ t.subscriptions =
        advanced-twice u name cursor s.subscriptions in
      let store : routed_store t ≡ t = cc in
      let counts : batch_row (advanced cursor p.row) t
          ≡ record { inserted_count = 0; new_last_seen = x.new_last_seen } =
        let seen : x.new_last_seen ≡ max p.row.last_seen cursor =
          ap (λ (q : RouteBatchRow). q.new_last_seen) p.counts in
        let none_new : length (insert_items u name ds t.work_items) - length t.work_items ≡ 0 =
          ap (λ l. length l - length t.work_items) items ∙ sub_self (length t.work_items) in
        let twice = max-twice p.row.last_seen cursor in cc in
      subst
        (λ (z : Store D S).
          route_batch u name worker cursor ds z
          ≡ ok (record { inserted_count = 0; new_last_seen = x.new_last_seen }, z))
        (sym p.after)
        (route_batch-runs t (advanced cursor p.row) p.named p.given
            (routed_store-found s p.row p.found) p.held
          ∙ ap (λ q. ok (q, routed_store t)) counts
          ∙ ap
              (λ (z : Store D S).
                ok (record { inserted_count = 0; new_last_seen = x.new_last_seen }, z))
              store)

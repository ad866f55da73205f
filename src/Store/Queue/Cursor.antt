-- ===== src/Store/Queue/Cursor.antt =====
-- The calls that change the rows of `subscriptions` (sql/instructed.sql) under the invariant of the queue.
use instructed.Prelude.{
  ℕ, ◌≤◌, String, ◌==◌, ◌≡◌, refl, sym, subst, ◌∙◌, Bool, true, false, not, ◌&&◌, none, some, List,
  [], ◌∷◌, inl, inr, arith, eq_iff, select, Bool-cases,
}
use instructed.Result.{ok, resolved}
use instructed.Store.{SubscriptionRow, ItemKey, WorkItem, Store}
use instructed.Store.Subscriptions.{
  subscription_of, keyed, find_subscription, update_subscription, release_subscription,
  delete_subscription, require_subscription, require_holder, require_text,
}
use instructed.Store.Queue.{same_partition, find_item, item_key}
use instructed.Store.Queue.Calls.{complete_pm_instance}
use instructed.Store.Queue.Rows.{find_item-key, find_item-select, find_item-selected}
use instructed.Store.Queue.Order.{IsQueue, select-IsQueue}
use instructed.Store.Queue.Settled.{IsSettled, select-IsSettled, elsewhere-IsSettled}

-- A row found stays, with its cursor there or further on.
abbrev pub Advanced : String → String → SubscriptionRow → List SubscriptionRow → Type 0
Advanced u name r rows =
    (r' : SubscriptionRow) × (find_subscription u name rows ≡ some r')
    × (r.last_seen ≤ r'.last_seen)

pub updated-Advanced :
    (u name u' name' : String) (f : SubscriptionRow → SubscriptionRow) (rows : List SubscriptionRow)
    {r : SubscriptionRow}
    → ((v n : String) (q : SubscriptionRow) → keyed v n (f q) ≡ keyed v n q)
    → ((q : SubscriptionRow) → q.last_seen ≤ (f q).last_seen)
    → find_subscription u' name' rows ≡ some r
    → Advanced u' name' r (update_subscription u name f rows)
unfolding find_subscription update_subscription
updated-Advanced u name u' name' f [] keeps later h = absurd cc
updated-Advanced u name u' name' f (q ∷ qs) {r} keeps later h =
    elim (Bool-cases (keyed u' name' q)) [
      | inl here ↦
          let own : q ≡ r = ground (arith, h, here) in
          elim (Bool-cases (keyed u name q)) [
            | inl hit ↦ (
              f q,
              rw (hit, keeps u' name' q, here) refl,
              subst (λ (z : SubscriptionRow). z.last_seen ≤ (f q).last_seen) own (later q),
            )
            | inr miss ↦ (
              q,
              rw (miss, here) refl,
              subst (λ (z : SubscriptionRow). z.last_seen ≤ q.last_seen) own (omega arith),
            )
          ]
      | inr further ↦
          let rest =
            updated-Advanced u name u' name' f qs {r = r} keeps later
              (ground (arith, h, further)) in
          (rest.0, ground (arith, keeps u' name' q, further, rest.1), rest.2)
    ]

other-find :
    (u name v n : String) (rows : List SubscriptionRow)
    → ((v == u) && (n == name)) ≡ false
    → find_subscription v n (select (λ r. not (keyed u name r)) rows) ≡ find_subscription v n rows
unfolding find_subscription keyed select
other-find u name v n [] h = refl
other-find u name v n (q ∷ qs) h = ground (
  arith,
  h,
  eq_iff v u,
  eq_iff n name,
  eq_iff q.stream_uuid u,
  eq_iff q.subscription_name name,
  eq_iff q.stream_uuid v,
  eq_iff q.subscription_name n,
  other-find u name v n qs h,
)

module _ {D S : Type 0} where
  -- The rows may change so long as every cursor stays or advances.
  pub advance-IsSettled :
      (s t : Store D S)
      → t.work_items ≡ s.work_items
      → ((u name : String) (r : SubscriptionRow)
          → find_subscription u name s.subscriptions ≡ some r
          → Advanced u name r t.subscriptions)
      → IsSettled s
      → IsSettled t
  unfolding subscription_of
  advance-IsSettled s t same advances st = record {
    queue = subst IsQueue (sym same) st.queue;
    behind = λ k i h.
        let old = st.behind k i (subst (λ l. find_item k l ≡ some i) same h) in
        let new = advances k.stream_uuid k.subscription_name old.0 old.1 in
        (new.0, new.1, omega (arith, old.2, new.2));
  }

  pub release_subscription-IsSettled :
      (u name worker : String) (s : Store D S) {s' : Store D S}
      → release_subscription u name worker s ≡ ok (tt, s')
      → IsSettled s
      → IsSettled s'
  unfolding release_subscription keyed
  release_subscription-IsSettled u name worker s {s'} h st =
      let named =
        resolved _ (require_text name "release_subscription: p_subscription_name is null/empty")
          h in
      let given =
        resolved _ (require_text worker "release_subscription: p_worker_id is null/empty")
          named.rest_ok in
      let found = resolved _ (require_subscription "release_subscription" u name s) given.rest_ok in
      let held =
        resolved _ (require_holder "release_subscription" worker found.given) found.rest_ok in
      let f = λ (q : SubscriptionRow). record q { claimed_by = none; claim_expires_at = none } in
      let t : Store D S = record s {
        subscriptions = update_subscription u name f s.subscriptions;
      } in
      let after : s' ≡ t = cc in
      subst IsSettled (sym after) (
        advance-IsSettled s t refl
          (λ v n r e.
            updated-Advanced u name v n f s.subscriptions (λ _ _ _. refl) (λ q. omega arith) e)
          st)

  -- An item goes with its subscription.
  pub delete_subscription-IsSettled :
      (u name : String) (s : Store D S) {s' : Store D S}
      → delete_subscription u name s ≡ ok (tt, s')
      → IsSettled s
      → IsSettled s'
  unfolding delete_subscription subscription_of
  delete_subscription-IsSettled u name s {s'} h st =
      let named =
        resolved _ (require_text name "delete_subscription: p_subscription_name is null/empty") h in
      let found = resolved _ (require_subscription "delete_subscription" u name s) named.rest_ok in
      let p =
        λ (i : WorkItem). not ((i.key.stream_uuid == u) && (i.key.subscription_name == name)) in
      let t : Store D S = record s {
        subscriptions = select (λ r. not (keyed u name r)) s.subscriptions;
        work_items = select p s.work_items;
      } in
      let after : s' ≡ t = cc in
      subst IsSettled (sym after) (record {
        queue = select-IsQueue p s.work_items st.queue;
        behind = λ k i e.
            let old = st.behind k i (find_item-select p k s.work_items st.queue.unique e) in
            let kept : p i ≡ true = find_item-selected p k s.work_items e in
            let own : i.key ≡ k = find_item-key k (select p s.work_items) e in
            let elsewhere : ((k.stream_uuid == u) && (k.subscription_name == name)) ≡ false =
              subst
                (λ (z : ItemKey). ((z.stream_uuid == u) && (z.subscription_name == name)) ≡ false)
                own (ground (arith, kept)) in
            (
              old.0,
              other-find u name k.stream_uuid k.subscription_name s.subscriptions elsewhere ∙ old.1,
              old.2,
            );
      })

  pub complete_pm_instance-IsSettled :
      (u name partition uuid : String) (s : Store D S) {x : ℕ × Bool} {s' : Store D S}
      → complete_pm_instance u name partition uuid s ≡ ok (x, s')
      → IsSettled s
      → IsSettled s'
  unfolding complete_pm_instance
  complete_pm_instance-IsSettled u name partition uuid s {x} {s'} h st =
      let named =
        resolved _ (require_text name "complete_pm_instance: p_subscription_name is null/empty")
          h in
      let given =
        resolved _ (require_text uuid "complete_pm_instance: p_snapshot_uuid is null/empty")
          named.rest_ok in
      let found = resolved _ (require_subscription "complete_pm_instance" u name s) given.rest_ok in
      let p = λ (i : WorkItem). not (same_partition i.key (item_key u name partition 0)) in
      let items : s'.work_items ≡ select p s.work_items = cc in
      let rows : s'.subscriptions ≡ s.subscriptions = cc in
      elsewhere-IsSettled (record s { work_items = select p s.work_items }) s' rows items
        (select-IsSettled p s st)

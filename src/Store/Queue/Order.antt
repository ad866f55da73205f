-- ===== src/Store/Queue/Order.antt =====
-- The order of a partition and the CHECK constraints of `subscription_work_items` (sql/instructed.sql),
-- under each change that the procedures make to the table.
use instructed.Prelude.{
  ℕ, ◌<◌, String, ◌≡◌, ◌≢◌, refl, sym, ap, subst, ◌∙◌, Bool, true, false, Option, none, some, List,
  ◌⊎◌, inl, inr, arith, select, Bool-cases, Option-cases,
}
use instructed.Store.{WorkItemState, pending, claimed, failed, done, ItemKey, WorkItem}
use instructed.Store.Queue.{
  same_partition, same_key, find_item, exists_item, update_item, insert_item, routed_item, blocks,
}
use instructed.Store.Queue.Rows.{
  same_key_iff, at_key, find_item-update_item, Unique, update_item-Unique, select-Unique,
  insert_item-Unique, find_item-select, unblocked-done, find_item-insert_item,
}

-- How the procedures fill a row's columns, in each state.
unfoldable pub is_filled : WorkItem → Bool
is_filled i = by_state i.state i.claimed_by i.lease_expires_at i.failed_at i.error_text
  where
    by_state : WorkItemState → Option String → Option ℕ → Option ℕ → Option String → Bool
    by_state claimed (some holder) (some expires) none none = true
    by_state failed none none (some at) text = true
    by_state pending none none none none = true
    by_state done none none none none = true
    by_state _ _ _ _ _ = false

-- What the table keeps: one row for each key, columns as the state wants them, and no row claimed
-- while an earlier row of its partition is open.
pub record IsQueue (items : List WorkItem) : Type 0 where
  pub unique : Unique items
  pub filled : (k : ItemKey) (i : WorkItem) → find_item k items ≡ some i → is_filled i ≡ true
  pub in_order :
      (k k' : ItemKey) (i j : WorkItem)
      → find_item k items ≡ some i
      → find_item k' items ≡ some j
      → same_partition k k' ≡ true
      → k.event_number < k'.event_number
      → j.state ≡ claimed
      → i.state ≡ done

-- The state of a row that the change `f` leaves at `k'`, and the row it comes from.
pub updated-cases :
    (k k' : ItemKey) (f : WorkItem → WorkItem) (items : List WorkItem) {i : WorkItem}
    → ((x : WorkItem) → (f x).key ≡ x.key)
    → find_item k' (update_item k f items) ≡ some i
    → ((k ≡ k') × ((x : WorkItem) × (find_item k items ≡ some x) × (i ≡ f x)))
      ⊎ ((k ≢ k') × (find_item k' items ≡ some i))
updated-cases k k' f items {i} keeps h =
    split (find_item k' items) refl (Bool-cases (same_key k k'))
  where
    e : find_item k' (update_item k f items) ≡ at_key k k' f (find_item k' items)
    e = find_item-update_item k k' f items keeps

    split :
        (o : Option WorkItem)
        → find_item k' items ≡ o
        → (same_key k k' ≡ true) ⊎ (same_key k k' ≡ false)
        → ((k ≡ k') × ((x : WorkItem) × (find_item k items ≡ some x) × (i ≡ f x)))
          ⊎ ((k ≢ k') × (find_item k' items ≡ some i))
    split none o b = absurd (ground (arith, e, h, o))
    split (some x) o (inl same) =
        let k_eq : k ≡ k' = (same_key_iff k k').0 same in
        inl (
          k_eq,
          (x, subst (λ q. find_item q items ≡ some x) (sym k_eq) o, ground (arith, e, h, o, same)),
        )
    split (some x) o (inr differs) =
        inr
          (λ q. ground (arith, (same_key_iff k k').1 q, differs), ground (arith, e, h, o, differs))

-- A row in place after a change.
abbrev pub Changed :
    ItemKey → ItemKey → (WorkItem → WorkItem) → List WorkItem → WorkItem → WorkItem → Type 0
Changed k k' f items x i = ((k ≡ k') × (i ≡ f x)) ⊎ ((k ≢ k') × (find_item k' items ≡ some i))

module _ (k : ItemKey) (f : WorkItem → WorkItem) (items : List WorkItem) (x : WorkItem)
    (found : find_item k items ≡ some x) (q : IsQueue items) where
  changed :
      (k' : ItemKey) (i : WorkItem)
      → ((y : WorkItem) → (f y).key ≡ y.key)
      → find_item k' (update_item k f items) ≡ some i
      → Changed k k' f items x i
  changed k' i keeps h = elim (updated-cases k k' f items keeps h) [
    | inl (e, (y, at, is)) ↦ let same : x ≡ y = cc in inl (e, subst (λ z. i ≡ f z) (sym same) is)
    | inr old ↦ inr old
  ]

  filled_after :
      (k' : ItemKey) (i : WorkItem)
      → is_filled (f x) ≡ true
      → Changed k k' f items x i
      → is_filled i ≡ true
  filled_after k' i fills (inl (e, is)) = subst (λ z. is_filled z ≡ true) (sym is) fills
  filled_after k' i fills (inr (differs, old)) = q.filled k' i old

  in_order_after :
      (k' k'' : ItemKey) (i j : WorkItem)
      → (x.state ≡ done → (f x).state ≡ done)
      → ((f x).state ≡ claimed → (x.state ≡ claimed) ⊎ (exists_item (blocks k) items ≡ false))
      → same_partition k' k'' ≡ true
      → k'.event_number < k''.event_number
      → j.state ≡ claimed
      → Changed k k' f items x i
      → Changed k k'' f items x j
      → i.state ≡ done
  in_order_after k' k'' i j stays takes same before held (inl (e, is)) (inl (e', is')) =
      let n : k'.event_number ≡ k''.event_number =
        ap (λ (z : ItemKey). z.event_number) (sym e ∙ e') in
      absurd (omega (arith, n, before))
  in_order_after k' k'' i j stays takes same before held (inl (e, is)) (inr (differs, old)) =
      let at : find_item k' items ≡ some x = subst (λ z. find_item z items ≡ some x) e found in
      ap (λ (z : WorkItem). z.state) is ∙ stays (q.in_order k' k'' x j at old same before held)
  in_order_after k' k'' i j stays takes same before held (inr (differs, old))
        (inr (differs', old')) =
      q.in_order k' k'' i j old old' same before held
  in_order_after k' k'' i j stays takes same before held (inr (differs, old)) (inl (e, is)) =
      let now : (f x).state ≡ claimed = sym (ap (λ (z : WorkItem). z.state) is) ∙ held in
      let at : find_item k'' items ≡ some x = subst (λ z. find_item z items ≡ some x) e found in
      elim (takes now) [
        | inl was ↦ q.in_order k' k'' i x old at same before was
        | inr unblocked ↦
            unblocked-done k'' k' items
              (subst (λ (z : ItemKey). exists_item (blocks z) items ≡ false) e unblocked) old same
              before
      ]

  -- The row `x` at `k` changes to `f x`; it may become claimed where nothing open is before it.
  pub update_item-IsQueue :
      ((y : WorkItem) → (f y).key ≡ y.key)
      → is_filled (f x) ≡ true
      → (x.state ≡ done → (f x).state ≡ done)
      → ((f x).state ≡ claimed → (x.state ≡ claimed) ⊎ (exists_item (blocks k) items ≡ false))
      → IsQueue (update_item k f items)
  update_item-IsQueue keeps fills stays takes = record {
    unique = update_item-Unique k f items keeps q.unique;
    filled = λ k' i h. filled_after k' i fills (changed k' i keeps h);
    in_order = λ k' k'' i j hi hj same before held.
        in_order_after k' k'' i j stays takes same before held (changed k' i keeps hi)
          (changed k'' j keeps hj);
  }

-- Rows may go.
pub select-IsQueue :
    (p : WorkItem → Bool) (items : List WorkItem) → IsQueue items → IsQueue (select p items)
select-IsQueue p items q =
    let old = λ (k : ItemKey) (i : WorkItem) (h : find_item k (select p items) ≡ some i).
      find_item-select p k items q.unique h in
    record {
      unique = select-Unique p items q.unique;
      filled = λ k i h. q.filled k i (old k i h);
      in_order = λ k k' i j hi hj. q.in_order k k' i j (old k i hi) (old k' j hj);
    }

pub inserted-cases :
    (k k' : ItemKey) (items : List WorkItem) {i : WorkItem}
    → find_item k' (insert_item k items) ≡ some i
    → (find_item k' items ≡ some i) ⊎ ((k ≡ k') × (i ≡ routed_item k))
inserted-cases k k' items {i} h = elim (Bool-cases (same_key k k')) [
  | inl same ↦
      let e : k ≡ k' = (same_key_iff k k').0 same in
      elim (Option-cases (find_item k items)) [
        | inl absent ↦ inr (e, ground (arith, find_item-insert_item k k' items, h, same, absent))
        | inr there ↦
            let own : i ≡ there.0 =
              ground (arith, find_item-insert_item k k' items, h, same, there.1) in
            inl (subst (λ z. find_item z items ≡ some i) e (there.1 ∙ ap some (sym own)))
      ]
  | inr differs ↦ inl (ground (arith, find_item-insert_item k k' items, h, differs))
]

-- A row may come that is after every claimed row of its partition.
module _ (k : ItemKey) (items : List WorkItem)
    (latest : (k' : ItemKey) (j : WorkItem)
      → find_item k' items ≡ some j
      → same_partition k k' ≡ true
      → k.event_number < k'.event_number
      → j.state ≢ claimed)
    (q : IsQueue items) where
  inserted-filled :
      (k' : ItemKey) (i : WorkItem)
      → (find_item k' items ≡ some i) ⊎ ((k ≡ k') × (i ≡ routed_item k))
      → is_filled i ≡ true
  unfolding is_filled
  inserted-filled k' i (inl old) = q.filled k' i old
  inserted-filled k' i (inr (e, new)) = subst (λ z. is_filled z ≡ true) (sym new) refl

  inserted-in_order :
      (k' k'' : ItemKey) (i j : WorkItem)
      → same_partition k' k'' ≡ true
      → k'.event_number < k''.event_number
      → j.state ≡ claimed
      → (find_item k' items ≡ some i) ⊎ ((k ≡ k') × (i ≡ routed_item k))
      → (find_item k'' items ≡ some j) ⊎ ((k ≡ k'') × (j ≡ routed_item k))
      → i.state ≡ done
  inserted-in_order k' k'' i j same before held (inl old) (inl old') =
      q.in_order k' k'' i j old old' same before held
  inserted-in_order k' k'' i j same before held old (inr (e, new)) =
      let now : j.state ≡ pending = ap (λ (z : WorkItem). z.state) new in absurd cc
  inserted-in_order k' k'' i j same before held (inr (e, new)) (inl old') =
      let same' : same_partition k k'' ≡ true =
        subst (λ z. same_partition z k'' ≡ true) (sym e) same in
      let before' : k.event_number < k''.event_number =
        subst (λ (z : ItemKey). z.event_number < k''.event_number) (sym e) before in
      absurd (latest k'' j old' same' before' held)

  pub insert_item-IsQueue : IsQueue (insert_item k items)
  insert_item-IsQueue = record {
    unique = insert_item-Unique k items q.unique;
    filled = λ k' i h. inserted-filled k' i (inserted-cases k k' items h);
    in_order = λ k' k'' i j hi hj same before held.
        inserted-in_order k' k'' i j same before held (inserted-cases k k' items hi)
          (inserted-cases k k'' items hj);
  }

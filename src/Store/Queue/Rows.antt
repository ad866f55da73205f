-- ===== src/Store/Queue/Rows.antt =====
-- The table `subscription_work_items` of sql/instructed.sql as a map from the primary key.
use instructed.Prelude.{
  ◌<◌, ltb, lt→ltb, ◌≡◌, refl, ap, subst, Bool, true, false, not, Option, none, some, List, [], ◌∷◌,
  ◌↔◌, ◌⊎◌, inl, inr, arith, eq_iff, beq, beq_iff, if◌then◌else◌, select, Bool-cases, Option-cases,
}
use instructed.Store.{WorkItemState, pending, claimed, failed, done, ItemKey, WorkItem}
use instructed.Store.Queue.{
  same_partition, same_key, find_item, exists_item, update_item, insert_item, routed_item, least,
  blocks, is_open, item_key,
}

pub same_partition_iff :
    (a b : ItemKey)
    → (same_partition a b ≡ true) ↔ (
        (a.stream_uuid ≡ b.stream_uuid)
        × (a.subscription_name ≡ b.subscription_name)
        × (a.partition_key ≡ b.partition_key))
unfolding same_partition
same_partition_iff a b = ground (
  arith,
  eq_iff a.stream_uuid b.stream_uuid,
  eq_iff a.subscription_name b.subscription_name,
  eq_iff a.partition_key b.partition_key,
)

pub key-eq :
    (a b : ItemKey)
    → a.stream_uuid ≡ b.stream_uuid
    → a.subscription_name ≡ b.subscription_name
    → a.partition_key ≡ b.partition_key
    → a.event_number ≡ b.event_number
    → a ≡ b
key-eq a b p q r t =
    let e : item_key a.stream_uuid a.subscription_name a.partition_key a.event_number
        ≡ item_key b.stream_uuid b.subscription_name b.partition_key b.event_number =
      cc in
    e

pub same_key_iff : (a b : ItemKey) → (same_key a b ≡ true) ↔ (a ≡ b)
unfolding same_key
same_key_iff a b = (
  λ h.
      let parts = (same_partition_iff a b).0 (ground (arith, h)) in
      key-eq a b parts.0 parts.1 parts.2
        ((beq_iff a.event_number b.event_number).0 (ground (arith, h))),
  λ e.
      let t : same_partition a b ≡ true = (same_partition_iff a b).1 (
        ap (λ (k : ItemKey). k.stream_uuid) e,
        ap (λ (k : ItemKey). k.subscription_name) e,
        ap (λ (k : ItemKey). k.partition_key) e,
      ) in
      let n : beq a.event_number b.event_number ≡ true =
        (beq_iff a.event_number b.event_number).1 (ap (λ (k : ItemKey). k.event_number) e) in
      ground (arith, t, n),
)

pub find_item-key :
    (k : ItemKey) (items : List WorkItem) {i : WorkItem} → find_item k items ≡ some i → i.key ≡ k
unfolding find_item
find_item-key k [] h = absurd cc
find_item-key k (j ∷ is) {i} h = ground (arith, h, same_key_iff j.key k, find_item-key k is {i = i})

pub exists_item-find :
    (p : WorkItem → Bool) (k : ItemKey) (items : List WorkItem) {i : WorkItem}
    → find_item k items ≡ some i
    → exists_item p items ≡ false
    → p i ≡ false
unfolding find_item exists_item
exists_item-find p k [] h e = absurd cc
exists_item-find p k (j ∷ is) {i} h e = ground (arith, h, e, exists_item-find p k is {i = i})

module _ (k k' : ItemKey) where
  -- Looked up by `k'` after a change of the row with key `k`: the option is the row before.
  abbrev pub at_key : (WorkItem → WorkItem) → Option WorkItem → Option WorkItem
  at_key f none = none
  at_key f (some i) = if same_key k k' then some (f i) else some i

  pub find_item-update_item :
      (f : WorkItem → WorkItem) (items : List WorkItem)
      → ((i : WorkItem) → (f i).key ≡ i.key)
      → find_item k' (update_item k f items) ≡ at_key f (find_item k' items)
  unfolding find_item update_item
  find_item-update_item f [] h = refl
  find_item-update_item f (j ∷ is) h = ground (
    arith,
    h j,
    same_key_iff j.key k,
    same_key_iff j.key k',
    same_key_iff (f j).key k',
    same_key_iff k k',
    find_item-update_item f is h,
  )

  pub find_item-insert_item :
      (items : List WorkItem)
      → find_item k' (insert_item k items) ≡ (
          if same_key k k'
          then (elim (find_item k items) [ none ↦ some (routed_item k) | some i ↦ some i ])
          else find_item k' items)
  unfolding find_item insert_item
  find_item-insert_item items = ground (arith, same_key_iff k k')

  pub find_item-remove :
      (items : List WorkItem)
      → find_item k' (select (λ (i : WorkItem). not (same_key i.key k)) items)
        ≡ (if same_key k k' then none else find_item k' items)
  unfolding find_item select
  find_item-remove [] = ground arith
  find_item-remove (j ∷ is) =
      ground
        (arith, same_key_iff j.key k, same_key_iff j.key k', same_key_iff k k', find_item-remove is)

-- The table is a set of rows with distinct keys.
abbrev pub Unique : List WorkItem → Type 0
Unique [] = Unit
Unique (i ∷ is) = (find_item i.key is ≡ none) × Unique is

Unique-select :
    (p : WorkItem → Bool) (k : ItemKey) (items : List WorkItem)
    → find_item k items ≡ none
    → find_item k (select p items) ≡ none
unfolding find_item select
Unique-select p k [] h = refl
Unique-select p k (j ∷ is) h = ground (arith, Unique-select p k is)

if-Unique :
    (b : Bool) (xs ys : List WorkItem) → Unique xs → Unique ys → Unique (if b then xs else ys)
if-Unique true xs ys h k = h
if-Unique false xs ys h k = k

pub select-Unique :
    (p : WorkItem → Bool) (items : List WorkItem) → Unique items → Unique (select p items)
unfolding select
select-Unique p [] h = tt
select-Unique p (j ∷ is) h =
    let rest = select-Unique p is h.1 in
    if-Unique (p j) _ _ (Unique-select p j.key is h.0, rest) rest

pub find_item-select :
    (p : WorkItem → Bool) (k : ItemKey) (items : List WorkItem) {i : WorkItem}
    → Unique items
    → find_item k (select p items) ≡ some i
    → find_item k items ≡ some i
unfolding find_item select
find_item-select p k [] h e = absurd cc
find_item-select p k (j ∷ is) {i} h e = ground (
  arith,
  e,
  h.0,
  same_key_iff j.key k,
  Unique-select p j.key is,
  find_item-select p k is {i = i} h.1,
)

pub find_item-selected :
    (p : WorkItem → Bool) (k : ItemKey) (items : List WorkItem) {i : WorkItem}
    → find_item k (select p items) ≡ some i
    → p i ≡ true
unfolding find_item select
find_item-selected p k [] e = absurd cc
find_item-selected p k (j ∷ is) {i} e = ground (arith, e, find_item-selected p k is {i = i})

pub update_item-Unique :
    (k : ItemKey) (f : WorkItem → WorkItem) (items : List WorkItem)
    → ((i : WorkItem) → (f i).key ≡ i.key)
    → Unique items
    → Unique (update_item k f items)
unfolding update_item
update_item-Unique k f [] keeps h = tt
update_item-Unique k f (j ∷ is) keeps h =
    let rest = update_item-Unique k f is keeps h.1 in
    let fresh : find_item j.key (update_item k f is) ≡ none =
      rw (find_item-update_item k j.key f is keeps, h.0) refl in
    if-Unique (same_key j.key k) _ _ (rw (keeps j) fresh, rest) (fresh, rest)

pub insert_item-Unique :
    (k : ItemKey) (items : List WorkItem) → Unique items → Unique (insert_item k items)
unfolding insert_item
insert_item-Unique k items h = elim (Option-cases (find_item k items)) [
  | inl e ↦ rw e (e, h)
  | inr found ↦ rw found.1 h
]

least-cases :
    (x : WorkItem) (xs : List WorkItem) {i : WorkItem}
    → least (x ∷ xs) ≡ some i
    → (x ≡ i) ⊎ (least xs ≡ some i)
unfolding least
least-cases x xs {i} h = ground (arith, h)

-- The row that a claim picks.
pub least-select :
    (p : WorkItem → Bool) (items : List WorkItem) {i : WorkItem}
    → Unique items
    → least (select p items) ≡ some i
    → (p i ≡ true) × (find_item i.key items ≡ some i)
unfolding least select find_item
least-select p [] h e = absurd cc
least-select p (j ∷ is) {i} h e = elim (Bool-cases (p j)) [
  | inl picked ↦
      let e' : least (j ∷ select p is) ≡ some i = ground (arith, picked, e) in
      elim (least-cases j (select p is) e') [
        | inl first ↦
            let own : find_item j.key (j ∷ is) ≡ some j =
              rw ((same_key_iff j.key j.key).1 refl) refl in
            subst (λ x. (p x ≡ true) × (find_item x.key (j ∷ is) ≡ some x)) first (picked, own)
        | inr later ↦
            ground
              (arith, later, same_key_iff j.key i.key, h.0, least-select p is {i = i} h.1 later)
      ]
  | inr passed ↦
      let later : least (select p is) ≡ some i = ground (arith, passed, e) in
      ground (arith, same_key_iff j.key i.key, h.0, least-select p is {i = i} h.1 later)
]

not-open : (state : WorkItemState) → is_open state ≡ false → state ≡ done
not-open pending h = absurd cc
not-open claimed h = absurd cc
not-open failed h = absurd cc
not-open done h = refl

-- Where nothing blocks `k`, the rows before it in its partition are done.
pub unblocked-done :
    (k k' : ItemKey) (items : List WorkItem) {i : WorkItem}
    → exists_item (blocks k) items ≡ false
    → find_item k' items ≡ some i
    → same_partition k' k ≡ true
    → k'.event_number < k.event_number
    → i.state ≡ done
unfolding blocks
unblocked-done k k' items {i} unblocked found same before =
    let not_blocked : blocks k i ≡ false = exists_item-find (blocks k) k' items found unblocked in
    let own : i.key ≡ k' = find_item-key k' items found in
    let same' : same_partition i.key k ≡ true = rw own same in
    let earlier : ltb i.key.event_number k.event_number ≡ true = rw own (lt→ltb _ _ before) in
    not-open i.state (ground (arith, not_blocked, same', earlier))

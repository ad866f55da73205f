-- ===== src/Store/Read.antt =====
-- The reads of sql/instructed.sql on a valid store.
use instructed.Prelude.{
  ℕ, zero, suc, ◌<◌, String, ◌==◌, ◌≡◌, refl, ap, ◌∙◌, ◌⊎◌, inl, inr, Bool-cases, Option-cases,
  false, some, none, List, [], ◌∷◌, arith, leb, take, drop, select, select-Run, Run, beq,
}
use instructed.Errors.{Thrown}
use instructed.Types.{Snapshot}
use instructed.Result.{ok, throw}
use instructed.Store.{
  Store, stream_version, order_by, insert_by, rows_of, read_stream, read_all, read_snapshot,
  find_snapshot, raise,
}
use instructed.Store.Valid.{IsValid}

gt→beq_false : (n : ℕ) → 0 < n → beq n 0 ≡ false
gt→beq_false n h = ground arith

module _ {A : Type 0} where
  order_by-Run : (f : A → ℕ) (base : ℕ) (xs : List A) → Run f base xs → order_by f xs ≡ xs
  unfolding order_by insert_by
  order_by-Run f base [] h = refl
  order_by-Run f base (x ∷ []) h = refl
  order_by-Run f base (x ∷ y ∷ ys) h = rw (order_by-Run f (suc base) (y ∷ ys) h.1) (ground arith)

  order_by-drop :
      (f : A → ℕ) (base k : ℕ) (xs : List A) → Run f base xs → order_by f (drop k xs) ≡ drop k xs
  unfolding order_by
  order_by-drop f base zero xs h = order_by-Run f base xs h
  order_by-drop f base (suc k) [] h = refl
  order_by-drop f base (suc k) (x ∷ xs) h = order_by-drop f (suc base) k xs h.1

  -- `order by` and `>=` find the rows after the first `k`.
  stretch :
      (f : A → ℕ) (k : ℕ) (rows : List A)
      → Run f 0 rows
      → order_by f (select (λ r. leb (suc k) (f r)) rows) ≡ drop k rows
  stretch f k rows h =
      ap (order_by f) (select-Run f (suc k) k 0 rows (omega arith) h) ∙ order_by-drop f 0 k rows h

module _ {D S : Type 0} (s : Store D S) (v : IsValid s) where
  -- On a valid store, reading an existing stream that is not `$all`, with `qty` above 0, from version
  -- `k + 1` returns its rows after the first `k`, at most `qty` of them.
  pub read_stream-eq :
      (u : String) (k qty : ℕ) {n : ℕ}
      → (u == "$all") ≡ false
      → 0 < qty
      → stream_version u s.streams ≡ some n
      → read_stream u (suc k) qty s ≡ ok (take qty (drop k (rows_of u s.log)))
  unfolding read_stream
  read_stream-eq u k qty named pos_qty there =
      rw (named, gt→beq_false qty pos_qty, there)
        (ap (λ l. ok (take qty l)) (stretch _ k (rows_of u s.log) (v.versions u)))

  -- On a valid store, reading `$all` with `qty` above 0 from event number `k + 1` returns the rows of the
  -- log after the first `k`, at most `qty` of them.
  pub read_all-eq : (k qty : ℕ) → 0 < qty → read_all (suc k) qty s ≡ ok (take qty (drop k s.log))
  unfolding read_all
  read_all-eq k qty pos_qty =
      rw (gt→beq_false qty pos_qty) (ap (λ l. ok (take qty l)) (stretch _ k s.log v.numbered))

  -- A read of a stream raises, or it returns a stretch of the rows.
  pub read_stream-cases :
      (u : String) (k qty : ℕ)
      → 0 < qty
      → ((e : Thrown) × (read_stream u (suc k) qty s ≡ throw e))
        ⊎ (read_stream u (suc k) qty s ≡ ok (take qty (drop k (rows_of u s.log))))
  read_stream-cases u k qty pos_qty = elim (Bool-cases (u == "$all")) [
    | inl e ↦ unfold read_stream in rw e (inl (_, refl))
    | inr named ↦ elim (Option-cases (stream_version u s.streams)) [
      | inl missing ↦
          unfold read_stream in rw (named, gt→beq_false qty pos_qty, missing) (inl (_, refl))
      | inr (n, there) ↦ inr (read_stream-eq u k qty named pos_qty there)
    ]
  ]

  -- For a stream other than `$all` the one way to raise is that the stream does not exist.
  pub read_named-cases :
      (u : String) (k qty : ℕ)
      → (u == "$all") ≡ false
      → 0 < qty
      → ((stream_version u s.streams ≡ none)
          × (read_stream u (suc k) qty s ≡ throw (raise "IS003" "read_stream: stream not found")))
        ⊎ (read_stream u (suc k) qty s ≡ ok (take qty (drop k (rows_of u s.log))))
  read_named-cases u k qty named pos_qty = elim (Option-cases (stream_version u s.streams)) [
    | inl missing ↦
        inl (missing, unfold read_stream in rw (named, gt→beq_false qty pos_qty, missing))
    | inr (n, there) ↦ inr (read_stream-eq u k qty named pos_qty there)
  ]

module _ {D S : Type 0} (s : Store D S) (u : String) where
  -- A snapshot is read as it stands in the table, or IS010 is raised.
  pub read_snapshot-cases :
      (read_snapshot u s ≡ throw (raise "IS010" "read_snapshot: snapshot not found"))
      ⊎ ((x : Snapshot S) × (find_snapshot u s.snapshots ≡ some x) × (read_snapshot u s ≡ ok x))
  unfolding read_snapshot
  read_snapshot-cases = elim (Option-cases (find_snapshot u s.snapshots)) [
    | inl missing ↦ inl (rw (missing, read_snapshot))
    | inr (x, found) ↦ inr (x, found, rw (found, read_snapshot))
  ]

-- ===== src/Store/Snapshots.antt =====
-- The snapshots table under `record_snapshot` and `read_snapshot` of sql/instructed.sql.
use instructed.Prelude.{
  String, ◌==◌, ◌≡◌, refl, ap, true, some, List, [], ◌∷◌, arith, eq_iff, if◌then◌else◌,
}
use instructed.Types.{Snapshot, SnapshotInput}
use instructed.Result.{ok}
use instructed.Store.{Store, find_snapshot, upsert_snapshot, read_snapshot, record_snapshot}

-- The row that a snapshot is kept as.
abbrev pub kept : {D S : Type 0} → SnapshotInput S → Store D S → Snapshot S
kept x s = record {
  source_uuid = x.source_uuid;
  source_type = x.source_type;
  source_version = x.source_version;
  payload = x.payload;
  metadata = x.metadata;
  created_at = s.now;
}

abbrev pub with_kept : {D S : Type 0} → SnapshotInput S → Store D S → Store D S
with_kept x s = record s { snapshots = upsert_snapshot (kept x s) s.snapshots }

module _ {S : Type 0} where
  pub find_snapshot-upsert_snapshot :
      (u : String) (x : Snapshot S) (rs : List (Snapshot S))
      → find_snapshot u (upsert_snapshot x rs)
        ≡ (if x.source_uuid == u then some x else find_snapshot u rs)
  unfolding find_snapshot upsert_snapshot
  find_snapshot-upsert_snapshot u x [] = refl
  find_snapshot-upsert_snapshot u x (r ∷ rs) = ground (
    arith,
    eq_iff r.source_uuid u,
    eq_iff r.source_uuid x.source_uuid,
    eq_iff x.source_uuid u,
    find_snapshot-upsert_snapshot u x rs,
  )

read_found :
    {D S : Type 0} (u : String) (s : Store D S) {x : Snapshot S}
    → find_snapshot u s.snapshots ≡ some x
    → read_snapshot u s ≡ ok x
unfolding read_snapshot
read_found u s h = rw (h, read_snapshot)

module _ {D S : Type 0} (x : SnapshotInput S) (s : Store D S) where
  pub record_snapshot-eq-ok :
      {r : Unit {0} × Store D S} → record_snapshot x s ≡ ok r → r ≡ (tt, with_kept x s)
  unfolding record_snapshot
  record_snapshot-eq-ok h = ground (arith, h)

  -- A snapshot that was recorded is what a read of its source returns.
  pub read_snapshot-record_snapshot :
      {s' : Store D S}
      → record_snapshot x s ≡ ok (tt, s')
      → read_snapshot x.source_uuid s' ≡ ok (kept x s)
  read_snapshot-record_snapshot {s'} h =
      let e : s' ≡ with_kept x s =
        ap (λ (r : Unit {0} × Store D S). r.1) (record_snapshot-eq-ok h) in
      let own : (x.source_uuid == x.source_uuid) ≡ true =
        (eq_iff x.source_uuid x.source_uuid).1 refl in
      let found : find_snapshot x.source_uuid (upsert_snapshot (kept x s) s.snapshots)
          ≡ some (kept x s) =
        rw (find_snapshot-upsert_snapshot, own) refl in
      rw e (read_found x.source_uuid (with_kept x s) found)

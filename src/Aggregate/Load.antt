-- ===== src/Aggregate/Load.antt =====
-- `loadAggregate` (aggregate/run-command.ts) with other sessions at work: what it returns.
use instructed.Prelude.{
  ℕ, zero, suc, ◌<◌, String, ◌≡◌, refl, sym, subst, ◌⊎◌, inl, inr, true, ◌&&◌, some, List, map,
  arith, Bool-cases, beq, ltb, length, take, drop,
}
use instructed.Errors.{Thrown, is_stream_not_found, is_snapshot_not_found}
use instructed.Errors.MapPg.{map_code, map_pg_error}
use instructed.Result.{Result, ok, throw, stuck}
use instructed.Types.{Snapshot, RecordedEvent}
use instructed.Store as Sql
use instructed.Store.{RawEventRow, Store, rows_of, find_snapshot}
use instructed.Store.Valid.{IsValid}
use instructed.Store.Read.{read_stream-cases, read_snapshot-cases}
use instructed.Session.{Session, Io, translate, interfere, run_query}
use instructed.Client
use instructed.Client.{map_recorded_event, map_result, on_stream, on_source}
use instructed.Aggregate.{
  AggregateDefinition, LoadedAggregate, versions_match, snap_module_version, fold_page, initially,
  stops_at, from_snapshot, load_pages, after_page, then_next, then_load, load_aggregate,
}
use instructed.Aggregate.Replay.{Trusts, Sees, interfere-Trusts, Sees-Extends, fold_page-Sees}

module _ {D S : Type 0} (u : String) (k qty : ℕ) (pos_qty : 0 < qty) (w : Session D S) where
  -- A read by the client fails, or it returns the rows after the first `k` as they are at that time.
  pub read_stream-returns :
      IsValid (interfere w).store
      → ((e : Thrown) × (Client.read_stream u (suc k) qty w ≡ (throw e, interfere w)))
        ⊎ (Client.read_stream u (suc k) qty w ≡ (
          ok (map map_recorded_event (take qty (drop k (rows_of u (interfere w).store.log)))),
          interfere w,
        ))
  unfolding Client.read_stream run_query
  read_stream-returns v = elim (read_stream-cases (interfere w).store v u k qty pos_qty) [
    | inl (e, raised) ↦ rw raised (inl (_, refl))
    | inr rows ↦ rw rows (inr refl)
  ]

module _ {S C D : Type 0} (def : AggregateDefinition S C D) (u : String) where
  -- The outcome of a load: a state that the stream has had, or an error.
  abbrev pub LoadsPrefix : Result (LoadedAggregate S) × Session D S → Type 0
  LoadsPrefix (ok l, w) = Trusts def u w × Sees def u l w.store
  LoadsPrefix (throw e, w) = Trusts def u w
  LoadsPrefix (stuck, w) = Trusts def u w

  stops_at-LoadsPrefix :
      (e : Thrown) (l : LoadedAggregate S) (w : Session D S)
      → Trusts def u w
      → Sees def u l w.store
      → LoadsPrefix (stops_at def e l, w)
  stops_at-LoadsPrefix e l w t h = elim (Bool-cases (is_stream_not_found e && beq l.version 0)) [
    | inl stops ↦ rw stops (t, h)
    | inr fails ↦ rw fails t
  ]

  module _ (size : ℕ) (next : LoadedAggregate S → Io D S (LoadedAggregate S))
      (goes_on : (l : LoadedAggregate S) (w : Session D S)
        → Trusts def u w
        → Sees def u l w.store
        → LoadsPrefix (next l w)) where
    -- What a page leads to, an error of `apply` included.
    folded-LoadsPrefix :
        (q : Result (LoadedAggregate S)) (w : Session D S)
        → Trusts def u w
        → ((l' : LoadedAggregate S) → q ≡ ok l' → Sees def u l' w.store)
        → LoadsPrefix (q, w) × LoadsPrefix (then_next def next q w)
    folded-LoadsPrefix (ok l') w t seen = ((t, seen l' refl), goes_on l' w t (seen l' refl))
    folded-LoadsPrefix (throw e) w t seen = (t, t)
    folded-LoadsPrefix stuck w t seen = (t, t)

    after_page-LoadsPrefix :
        (l : LoadedAggregate S) (w : Session D S)
        → Trusts def u w
        → Sees def u l w.store
        → LoadsPrefix (
            after_page def next size l
              (ok (map map_recorded_event (take size (drop l.version (rows_of u w.store.log)))), w))
    after_page-LoadsPrefix l w t h =
        let rows = take size (drop l.version (rows_of u w.store.log)) in
        let page : List (RecordedEvent D) = map map_recorded_event rows in
        let folded =
          folded-LoadsPrefix (fold_page def (ok l) page) w t
            (fold_page-Sees def u l size w.store t.sound.valid h) in
        elim (Bool-cases (beq (length page) 0)) [
          | inl empty ↦ rw empty (t, h)
          | inr some_rows ↦ elim (Bool-cases (ltb (length page) size)) [
            | inl last ↦ rw (some_rows, last) folded.0
            | inr full ↦ rw (some_rows, full) folded.1
          ]
        ]

  load_pages-LoadsPrefix :
      (fuel size : ℕ) (l : LoadedAggregate S) (w : Session D S)
      → 0 < size
      → Trusts def u w
      → Sees def u l w.store
      → LoadsPrefix (load_pages def fuel size u l w)
  unfolding load_pages
  load_pages-LoadsPrefix zero size l w pos_size t h = t
  load_pages-LoadsPrefix (suc fuel) size l w pos_size t h =
      let (t', x) = interfere-Trusts def u w t in
      let h' = Sees-Extends def u h x in
      let next = load_pages def fuel size u in
      let goes_on = λ (l' : LoadedAggregate S) (w' : Session D S).
        load_pages-LoadsPrefix fuel size l' w' pos_size in
      elim (read_stream-returns u l.version size pos_size w t'.sound.valid) [
        | inl (e, failed) ↦
            subst (λ r. LoadsPrefix (after_page def next size l r)) (sym failed)
              (stops_at-LoadsPrefix e l (interfere w) t' h')
        | inr page ↦
            subst (λ r. LoadsPrefix (after_page def next size l r)) (sym page)
              (after_page-LoadsPrefix size next goes_on l (interfere w) t' h')
      ]

  -- IS010 is the class that the load takes for "no snapshot".
  pub missing_snapshot :
      (message : String)
      → is_snapshot_not_found (map_pg_error (Sql.raise "IS010" message) (on_source u)) ≡ true
  unfolding map_pg_error map_code
  missing_snapshot message = refl

  pub initially-Sees : (s : Store D S) → Sees def u (initially def) s
  initially-Sees s = record { bounded = omega arith; state = refl }

  then_load-LoadsPrefix :
      (fuel size : ℕ) (r : Result (LoadedAggregate S)) (w : Session D S)
      → 0 < size
      → LoadsPrefix (r, w)
      → LoadsPrefix (then_load def fuel size u r w)
  then_load-LoadsPrefix fuel size (ok l) w pos_size (t, h) =
      load_pages-LoadsPrefix fuel size l w pos_size t h
  then_load-LoadsPrefix fuel size (throw e) w pos_size t = t
  then_load-LoadsPrefix fuel size stuck w pos_size t = t

  from_found :
      (snap : Snapshot S) (w : Session D S)
      → Trusts def u w
      → find_snapshot u w.store.snapshots ≡ some snap
      → LoadsPrefix (from_snapshot def (ok snap), w)
  from_found snap w t found =
      elim (Bool-cases
        (versions_match def.snapshot_module_version (snap_module_version snap.metadata))) [
          | inl same ↦ rw same (
            t,
            record {
              bounded = (t.sound.agrees snap found same).0;
              state = (t.sound.agrees snap found same).1;
            },
          )
          | inr other ↦ rw other (t, initially-Sees w.store)
        ]

  -- What the snapshot gives is the state of a prefix too.
  from_snapshot-LoadsPrefix :
      (w : Session D S)
      → Trusts def u w
      → LoadsPrefix (from_snapshot def (translate (on_source u) (Sql.read_snapshot u w.store)), w)
  from_snapshot-LoadsPrefix w t = elim (read_snapshot-cases w.store u) [
    | inl missing ↦
        subst (λ r. LoadsPrefix (from_snapshot def (translate (on_source u) r), w)) (sym missing)
          (rw (missing_snapshot "read_snapshot: snapshot not found") (t, initially-Sees w.store))
    | inr (snap, found, read) ↦
        subst (λ r. LoadsPrefix (from_snapshot def (translate (on_source u) r), w)) (sym read)
          (from_found snap w t found)
  ]

  -- Whatever the other sessions commit between its calls, as long as they keep a sound store sound and
  -- only extend the stream, a load with a page size above 0 that succeeds returns a state that the
  -- stream has had: the fold of a prefix, of the length that is the version returned.
  pub load_aggregate-LoadsPrefix :
      (fuel size : ℕ) (w : Session D S)
      → 0 < size
      → Trusts def u w
      → LoadsPrefix (load_aggregate def fuel size u w)
  unfolding load_aggregate Client.read_snapshot run_query
  load_aggregate-LoadsPrefix fuel size w pos_size t =
      let (t', _) = interfere-Trusts def u w t in
      let snap = translate (on_source u) (Sql.read_snapshot u (interfere w).store) in
      then_load-LoadsPrefix fuel size (from_snapshot def snap) (interfere w) pos_size
        (from_snapshot-LoadsPrefix (interfere w) t')

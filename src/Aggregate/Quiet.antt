-- ===== src/Aggregate/Quiet.antt =====
-- `loadAggregate` (aggregate/run-command.ts) with no other session at work.
use instructed.Prelude.{
  ℕ, zero, suc, ◌+◌, ◌<◌, String, ◌==◌, ◌≡◌, refl, sym, ap, subst, ◌∙◌, ◌⊎◌, inl, inr, false, none,
  some, List, [], map, arith, Bool-cases, beq, ltb, length, take, take-all, drop, length-take,
  length-drop, length-map, get_or_else,
}
use instructed.Errors.MapPg.{map_code, map_pg_error}
use instructed.Errors.{Thrown}
use instructed.Result.{Result, ok, throw, stuck, ◌>>=◌}
use instructed.Types.{Snapshot, RecordedEvent}
use instructed.Store as Sql
use instructed.Store.{RawEventRow, Store, rows_of, find_snapshot, stream_version}
use instructed.Store.Read.{read_named-cases, read_snapshot-cases}
use instructed.Session.{Session, Io, resume, translate, interfere, run_query}
use instructed.Client
use instructed.Client.{map_recorded_event, map_result, on_stream, on_source}
use instructed.Aggregate.{
  AggregateDefinition, LoadedAggregate, versions_match, snap_module_version, fold_page, initially,
  stops_at, from_snapshot, load_pages, after_page, then_next, load_aggregate,
}
use instructed.Aggregate.Load.{missing_snapshot, initially-Sees}
use instructed.Aggregate.Replay.{
  Sees, IsSound, replay, fold_page-Sees, next-version, state_of, folded_page-state,
  replay_from-throws, replay_from-stops,
}

module _ {S C D : Type 0} (def : AggregateDefinition S C D) (u : String) (w : Session D S) where
  abbrev whole : Result (S × ℕ)
  whole = replay def (rows_of u w.store.log) >>= λ state. ok (state, length (rows_of u w.store.log))

  -- A load that has come to the end of the stream, with the session as it was: the state of the whole stream
  -- and its version, or the error of `apply` on it.
  pub record LoadsAll (r : Result (LoadedAggregate S) × Session D S) : Type 0 where
    pub unchanged : r.1 ≡ w
    pub loads : (r.0 >>= λ l. ok (l.state, l.version)) ≡ whole

  module _ (named : (u == "$all") ≡ false) (alone : w.others ≡ [])
      (sound : IsSound def u w.store) where
    interfere_alone : interfere w ≡ w
    unfolding interfere
    interfere_alone = ap (λ fs. resume fs w) alone

    -- Seeing as many rows as there are is seeing them all.
    at_end :
        (l : LoadedAggregate S)
        → Sees def u l w.store
        → l.version ≡ length (rows_of u w.store.log)
        → LoadsAll (ok l, w)
    at_end l h e = record {
      unchanged = refl;
      loads =
          ap (λ v. ok (l.state, v)) e
          ∙ ap (λ r. r >>= λ state. ok (state, length (rows_of u w.store.log)))
              (h.state
                ∙ ap (replay def) (take-all l.version (rows_of u w.store.log) (omega (arith, e))));
    }

    read_page :
        (k size : ℕ)
        → 0 < size
        → ((stream_version u w.store.streams ≡ none)
            × (Client.read_stream u (suc k) size w ≡ (
              throw
                  (map_pg_error (Sql.raise "IS003" "read_stream: stream not found") (on_stream u)),
              w,
            )))
          ⊎ (Client.read_stream u (suc k) size w
              ≡ (ok (map map_recorded_event (take size (drop k (rows_of u w.store.log)))), w))
    unfolding Client.read_stream run_query
    read_page k size pos_size =
        rw interfere_alone (elim (read_named-cases w.store sound.valid u k size named pos_size) [
          | inl (missing, raised) ↦ rw raised (inl (missing, refl))
          | inr rows ↦ rw rows (inr refl)
        ])

    missing_stream :
        (l : LoadedAggregate S)
        → l.version ≡ 0
        → stops_at def
            (map_pg_error (Sql.raise "IS003" "read_stream: stream not found") (on_stream u))
            l
          ≡ ok l
    unfolding map_pg_error map_code
    missing_stream l e = ground (arith, e)

    empty_stream : stream_version u w.store.streams ≡ none → length (rows_of u w.store.log) ≡ 0
    empty_stream missing = sound.valid.counts u ∙ ap (λ v. get_or_else v 0) missing

    module _ (l : LoadedAggregate S) (size : ℕ) (h : Sees def u l w.store) where
      abbrev page : List (RecordedEvent D)
      page = map map_recorded_event (take size (drop l.version (rows_of u w.store.log)))

      length-page :
          (length page ≡ size) ⊎ (l.version + length page ≡ length (rows_of u w.store.log))
      length-page = rw (length-map {0, 0}) (
          ground (
            arith,
            h.bounded,
            length-take {0} size (drop l.version (rows_of u w.store.log)),
            length-drop {0} l.version (rows_of u w.store.log),
          ))

      version-page :
          (l' : LoadedAggregate S)
          → fold_page def (ok l) page ≡ ok l'
          → l'.version ≡ l.version + length page
      version-page l' folded =
          rw (length-map {0, 0}) (next-version def u l size w.store sound.valid h l' folded)

      abbrev folded_rows : ℕ
      folded_rows = l.version + length (take size (drop l.version (rows_of u w.store.log)))

      replay-page :
          (q : Result (LoadedAggregate S))
          → fold_page def (ok l) page ≡ q
          → state_of def q ≡ replay def (take folded_rows (rows_of u w.store.log))
      replay-page q folded =
          ap (state_of def) (sym folded) ∙ folded_page-state def u l size w.store sound.valid h

      -- A page on which `apply` fails: so does the fold of the whole stream.
      page_fails : {e : Thrown} → fold_page def (ok l) page ≡ throw e → LoadsAll (throw e, w)
      page_fails {e} folded = record {
        unchanged = refl;
        loads =
            ap (λ r. r >>= λ state. ok (state, length (rows_of u w.store.log)))
              (sym (
                replay_from-throws def folded_rows (ok def.initial_state) (rows_of u w.store.log)
                  (sym (replay-page (throw e) folded))));
      }

      page_stops : fold_page def (ok l) page ≡ stuck → LoadsAll (stuck, w)
      page_stops folded = record {
        unchanged = refl;
        loads =
            ap (λ r. r >>= λ state. ok (state, length (rows_of u w.store.log)))
              (sym (
                replay_from-stops def folded_rows (ok def.initial_state) (rows_of u w.store.log)
                  (sym (replay-page stuck folded))));
      }

      last_page :
          l.version + length page ≡ length (rows_of u w.store.log)
          → (q : Result (LoadedAggregate S)) → fold_page def (ok l) page ≡ q
          → LoadsAll (q, w)
      last_page e (ok l') folded =
          at_end l' (fold_page-Sees def u l size w.store sound.valid h l' folded)
            (version-page l' folded ∙ e)
      last_page e (throw x) folded = page_fails folded
      last_page e stuck folded = page_stops folded

      full_page :
          (next : LoadedAggregate S → Io D S (LoadedAggregate S))
          → ((l' : LoadedAggregate S)
              → Sees def u l' w.store
              → l'.version ≡ l.version + length page
              → LoadsAll (next l' w))
          → (q : Result (LoadedAggregate S)) → fold_page def (ok l) page ≡ q
          → LoadsAll (then_next def next q w)
      full_page next goes_on (ok l') folded =
          goes_on l' (fold_page-Sees def u l size w.store sound.valid h l' folded)
            (version-page l' folded)
      full_page next goes_on (throw x) folded = page_fails folded
      full_page next goes_on stuck folded = page_stops folded

    none_left :
        (l : LoadedAggregate S)
        → Sees def u l w.store
        → length (rows_of u w.store.log) < 0 + l.version
        → ⊥
    none_left l h enough = omega (arith, h.bounded)

    load_pages-LoadsAll :
        (fuel size : ℕ) (l : LoadedAggregate S)
        → 0 < size
        → Sees def u l w.store
        → length (rows_of u w.store.log) < fuel + l.version
        → LoadsAll (load_pages def fuel size u l w)
    unfolding load_pages
    load_pages-LoadsAll zero size l pos_size h enough = elim (none_left l h enough) [ ]
    load_pages-LoadsAll (suc fuel) size l pos_size h enough =
        let next = load_pages def fuel size u in
        elim (read_page l.version size pos_size) [
          | inl (missing, raised) ↦
              subst (λ r. LoadsAll (after_page def next size l r)) (sym raised)
                (rw (missing_stream l (omega (arith, h.bounded, empty_stream missing)))
                  (at_end l h (omega (arith, h.bounded, empty_stream missing))))
          | inr read ↦
              subst (λ r. LoadsAll (after_page def next size l r)) (sym read)
                (elim (Bool-cases (beq (length (page l size h)) 0)) [
                  | inl empty ↦
                      rw empty (at_end l h (ground (arith, h.bounded, length-page l size h)))
                  | inr some_rows ↦ elim (Bool-cases (ltb (length (page l size h)) size)) [
                    | inl last ↦
                        rw (some_rows, last)
                          (last_page l size h (ground (arith, length-page l size h)) _ refl)
                    | inr full ↦
                        rw (some_rows, full)
                          (full_page l size h next
                            (λ l' h' v.
                              load_pages-LoadsAll fuel size l' pos_size h' (rw v (ground arith)))
                            _ refl)
                  ]
                ])
        ]

    -- What the snapshot gives, a snapshot missing or of another module version included.
    from_found :
        (snap : Snapshot S)
        → find_snapshot u w.store.snapshots ≡ some snap
        → (l : LoadedAggregate S) × (from_snapshot def (ok snap) ≡ ok l) × Sees def u l w.store
    from_found snap found =
        elim (Bool-cases
          (versions_match def.snapshot_module_version (snap_module_version snap.metadata))) [
            | inl same ↦ rw same (
              _,
              refl,
              record {
                bounded = (sound.agrees snap found same).0;
                state = (sound.agrees snap found same).1;
              },
            )
            | inr other ↦ rw other (initially def, refl, initially-Sees def u w.store)
          ]

    from_snapshot-Sees :
        (l : LoadedAggregate S) × (from_snapshot def
            (translate (on_source u) (Sql.read_snapshot u w.store))
          ≡ ok l)
        × Sees def u l w.store
    from_snapshot-Sees = elim (read_snapshot-cases w.store u) [
      | inl missing ↦
          rw (missing, missing_snapshot def u "read_snapshot: snapshot not found")
            (initially def, refl, initially-Sees def u w.store)
      | inr (snap, found, read) ↦ rw read (from_found snap found)
    ]

  -- With no other session at work, on a sound store, the load of a stream that is not `$all` ends, its
  -- page size above 0 and its fuel above the number of its rows: it returns the fold of the whole
  -- stream and its version, or throws what `apply` throws in that fold, and leaves the session as it was.
  pub load_aggregate-LoadsAll :
      (fuel size : ℕ)
      → 0 < size
      → (u == "$all") ≡ false
      → w.others ≡ []
      → IsSound def u w.store
      → length (rows_of u w.store.log) < fuel
      → LoadsAll (load_aggregate def fuel size u w)
  unfolding load_aggregate Client.read_snapshot run_query
  load_aggregate-LoadsAll fuel size pos_size named alone sound enough =
      let (l, there, h) = from_snapshot-Sees named alone sound in
      rw (interfere_alone named alone sound, there)
        (load_pages-LoadsAll named alone sound fuel size l pos_size h (omega arith))

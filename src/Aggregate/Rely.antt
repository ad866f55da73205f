-- ===== src/Aggregate/Rely.antt =====
-- What other sessions do under a runner: appends to any stream, and snapshots of other aggregates.
use mathlib.Core.List.{append-nil}
use instructed.Prelude.{
  String, ◌==◌, Bool, false, ◌≡◌, refl, sym, ap, subst, ◌∙◌, Option, List, [], arith, length-append,
  take-append,
}
use instructed.Prelude.Int.{ℤ}
use instructed.Result.{Result, ok, throw, stuck}
use instructed.Types.{SnapshotInput}
use instructed.Store.{RawEventRow, Store, rows_of, find_snapshot, record_snapshot}
use instructed.Store.Snapshots.{with_kept, find_snapshot-upsert_snapshot, record_snapshot-eq-ok}
use instructed.Store.Append.{PackedEvent, append_to_stream}
use instructed.Store.Valid.{
  IsValid, after_append, append_to_stream-eq-ok, rows_of-after_append, after_append-IsValid,
}
use instructed.Aggregate.{AggregateDefinition}
use instructed.Aggregate.Replay.{IsSound, Extends, Extends-refl, Rely, replay}

-- The store after a call of another session: a call that raises changes nothing.
abbrev pub committed : {A D S : Type 0} → Store D S → Result (A × Store D S) → Store D S
committed s (ok (_, s')) = s'
committed s (throw _) = s
committed s stuck = s

module _ {S C D : Type 0} (def : AggregateDefinition S C D) (u : String) where
  pub IsSound-Extends :
      {s s' : Store D S}
      → IsSound def u s
      → Extends def u s s'
      → s'.snapshots ≡ s.snapshots
      → IsValid s'
      → IsSound def u s'
  IsSound-Extends {s} {s'} sound x same v = record {
    valid = v;
    agrees = λ snap found matches.
        let (bounded, agrees) = sound.agrees snap (rw (← same) found) matches in
        (
          rw (x.rows, length-append {0}) (omega arith),
          rw x.rows (
              agrees
              ∙ ap (replay def)
                  (sym (take-append snap.source_version (rows_of u s.log) x.more bounded))),
        );
  }

  module _ (j : String) (events : List (PackedEvent D)) (s : Store D S) where
    pub after_append-Extends : Extends def u s (after_append j events s)
    after_append-Extends = record { more = _; rows = rows_of-after_append j u events s }

    pub after_append-IsSound : IsSound def u s → IsSound def u (after_append j events s)
    after_append-IsSound sound =
        IsSound-Extends sound after_append-Extends refl
          (after_append-IsValid j events s sound.valid)

  module _ (is_uuid : String → Bool) (j type : String) (expected : Option ℤ)
      (events : List (PackedEvent D)) where
    commits :
        (s : Store D S) (r : Result (List (RawEventRow D) × Store D S))
        → append_to_stream is_uuid j type expected events s ≡ r
        → IsSound def u s
        → IsSound def u (committed s r) × Extends def u s (committed s r)
    commits s (throw e) h sound = (sound, Extends-refl def u s)
    commits s stuck h sound = (sound, Extends-refl def u s)
    commits s (ok (rows, s')) h sound =
        let e = (append_to_stream-eq-ok is_uuid j type expected events s h).1 in
        subst (λ (x : List (RawEventRow D) × Store D S). IsSound def u x.1 × Extends def u s x.1)
          (sym e) (after_append-IsSound j events s sound, after_append-Extends j events s)

    -- An append by another session, to any stream, with any expectation and any outcome, is something
    -- that a runner on `u` can rely on.
    pub append_to_stream-Rely :
        Rely def u (λ s. committed s (append_to_stream is_uuid j type expected events s))
    append_to_stream-Rely = record {
      keeps =
          λ s sound. (commits s (append_to_stream is_uuid j type expected events s) refl sound).0;
      grows =
          λ s sound. (commits s (append_to_stream is_uuid j type expected events s) refl sound).1;
    }

  module _ (x : SnapshotInput S) (other : (x.source_uuid == u) ≡ false) where
    same_snapshot :
        (s : Store D S) → find_snapshot u (with_kept x s).snapshots ≡ find_snapshot u s.snapshots
    same_snapshot s = rw (find_snapshot-upsert_snapshot, other) refl

    records :
        (s : Store D S) (r : Result (Unit {0} × Store D S))
        → record_snapshot x s ≡ r
        → IsSound def u s
        → IsSound def u (committed s r) × Extends def u s (committed s r)
    records s (throw e) h sound = (sound, Extends-refl def u s)
    records s stuck h sound = (sound, Extends-refl def u s)
    records s (ok done) h sound =
        subst (λ (d : Unit {0} × Store D S). IsSound def u d.1 × Extends def u s d.1)
          (sym (record_snapshot-eq-ok x s h))
          (
            record {
              valid = record {
                numbered = sound.valid.numbered;
                total = sound.valid.total;
                versions = sound.valid.versions;
                counts = sound.valid.counts;
              };
              agrees =
                  λ snap found matches. sound.agrees snap (sym (same_snapshot s) ∙ found) matches;
            },
            record { more = []; rows = sym (append-nil (rows_of u s.log)) },
          )

    -- A snapshot that another session records, of another aggregate, whatever it holds and whether it
    -- goes through, is something that a runner on `u` can rely on.
    pub record_snapshot-Rely : Rely def u (λ s. committed s (record_snapshot x s))
    record_snapshot-Rely = record {
      keeps = λ s sound. (records s (record_snapshot x s) refl sound).0;
      grows = λ s sound. (records s (record_snapshot x s) refl sound).1;
    }

-- ===== src/Aggregate/Replay.antt =====
-- What the runner relies on between its calls, and what a load has seen of the stream.
use mathlib.Core.List.{append-nil}
use instructed.Prelude.{
  ℕ, zero, suc, subst, ◌+◌, ◌≤◌, String, ◌≡◌, refl, sym, ap, ◌∙◌, true, some, List, [], ◌∷◌, ◌++◌,
  map, arith, length, length-append, take, drop, take-append, take-add, last_number,
  last_number-Run, Run-drop, Run-take, length-take, length-drop,
}
use instructed.Errors.{Thrown}
use instructed.Result.{Result, ok, throw, stuck, ◌>>=◌}
use instructed.Types.{Snapshot, RecordedEvent}
use instructed.Store.{RawEventRow, Store, rows_of, find_snapshot}
use instructed.Store.Valid.{IsValid}
use instructed.Session.{Session, resume, interfere}
use instructed.Client.{map_recorded_event}
use instructed.Aggregate.{
  AggregateDefinition, LoadedAggregate, recorded_to_domain, versions_match, snap_module_version,
  fold_page, fold_row, row_folded,
}

module _ {S C D : Type 0} (def : AggregateDefinition S C D) where
  -- The state that a stretch of a stream leads to.
  abbrev pub apply_row : RawEventRow D → S → Result S
  apply_row x state = def.apply state (recorded_to_domain (map_recorded_event x))

  abbrev pub replay_from : Result S → List (RawEventRow D) → Result S
  replay_from r [] = r
  replay_from r (x ∷ xs) = replay_from (r >>= apply_row x) xs

  abbrev pub replay : List (RawEventRow D) → Result S
  replay = replay_from (ok def.initial_state)

  pub replay_from-append :
      (r : Result S) (xs ys : List (RawEventRow D))
      → replay_from r (xs ++ ys) ≡ replay_from (replay_from r xs) ys
  replay_from-append r [] ys = refl
  replay_from-append r (x ∷ xs) ys = replay_from-append (r >>= apply_row x) xs ys

  replay_from-throw : (e : Thrown) (xs : List (RawEventRow D)) → replay_from (throw e) xs ≡ throw e
  replay_from-throw e [] = refl
  replay_from-throw e (x ∷ xs) = replay_from-throw e xs

  replay_from-stuck : (xs : List (RawEventRow D)) → replay_from stuck xs ≡ stuck
  replay_from-stuck [] = refl
  replay_from-stuck (x ∷ xs) = replay_from-stuck xs

  -- Where `apply` has failed within a prefix, it has failed.
  pub replay_from-throws :
      (n : ℕ) (r : Result S) (xs : List (RawEventRow D)) {e : Thrown}
      → replay_from r (take n xs) ≡ throw e
      → replay_from r xs ≡ throw e
  replay_from-throws zero r xs {e} h =
      subst (λ q. replay_from q xs ≡ throw e) (sym h) (replay_from-throw e xs)
  replay_from-throws (suc n) r [] h = h
  replay_from-throws (suc n) r (x ∷ xs) h = replay_from-throws n (r >>= apply_row x) xs h

  pub replay_from-stops :
      (n : ℕ) (r : Result S) (xs : List (RawEventRow D))
      → replay_from r (take n xs) ≡ stuck
      → replay_from r xs ≡ stuck
  replay_from-stops zero r xs h =
      subst (λ q. replay_from q xs ≡ stuck) (sym h) (replay_from-stuck xs)
  replay_from-stops (suc n) r [] h = h
  replay_from-stops (suc n) r (x ∷ xs) h = replay_from-stops n (r >>= apply_row x) xs h

  -- The state of a load, or its error.
  abbrev pub state_of : Result (LoadedAggregate S) → Result S
  state_of r = r >>= λ l. ok l.state

  fold_row-state :
      (r : Result (LoadedAggregate S)) (x : RawEventRow D)
      → state_of (r >>= λ l. fold_row def l (map_recorded_event x)) ≡ (state_of r >>= apply_row x)
  fold_row-state (throw e) x = refl
  fold_row-state stuck x = refl
  fold_row-state (ok l) x = folded (apply_row x l.state)
    where
      folded :
          (q : Result S)
          → state_of (q >>= λ state. ok (row_folded def l (map_recorded_event x) state)) ≡ q
      folded (ok state) = refl
      folded (throw e) = refl
      folded stuck = refl

  pub fold_page-state :
      (r : Result (LoadedAggregate S)) (xs : List (RawEventRow D))
      → state_of (fold_page def r (map map_recorded_event xs)) ≡ replay_from (state_of r) xs
  fold_page-state r [] = refl
  fold_page-state r (x ∷ xs) =
      fold_page-state (r >>= λ l. fold_row def l (map_recorded_event x)) xs
      ∙ ap (λ q. replay_from q xs) (fold_row-state r x)

  fold_page-throw :
      (e : Thrown) (rows : List (RecordedEvent D)) → fold_page def (throw e) rows ≡ throw e
  fold_page-throw e [] = refl
  fold_page-throw e (x ∷ xs) = fold_page-throw e xs

  fold_page-stuck : (rows : List (RecordedEvent D)) → fold_page def stuck rows ≡ stuck
  fold_page-stuck [] = refl
  fold_page-stuck (x ∷ xs) = fold_page-stuck xs

  pub fold_page-version :
      (l l' : LoadedAggregate S) (xs : List (RawEventRow D))
      → fold_page def (ok l) (map map_recorded_event xs) ≡ ok l'
      → l'.version ≡ last_number (λ r. r.stream_version) l.version xs
  fold_page-version l l' [] h = cc
  fold_page-version l l' (x ∷ xs) h =
      folded (λ state. fold_page-version (row_folded def l (map_recorded_event x) state) l' xs)
        (apply_row x l.state) h
    where
      rows : List (RecordedEvent D)
      rows = map map_recorded_event xs

      folded :
          ((state : S)
            → fold_page def (ok (row_folded def l (map_recorded_event x) state)) rows ≡ ok l'
            → l'.version ≡ last_number (λ r. r.stream_version) x.stream_version xs)
          → (q : Result S)
          → fold_page def (q >>= λ state. ok (row_folded def l (map_recorded_event x) state)) rows
            ≡ ok l'
          → l'.version ≡ last_number (λ r. r.stream_version) x.stream_version xs
      folded next (ok state) same = next state same
      folded next (throw e) same = absurd (let failed = fold_page-throw e rows in cc)
      folded next stuck same = absurd (let failed = fold_page-stuck rows in cc)

  module _ (u : String) where
    -- A snapshot of the right module version holds the state that the stream had led to.
    abbrev pub SnapshotAgrees : Store D S → Type 0
    SnapshotAgrees s =
        (x : Snapshot S)
        → find_snapshot u s.snapshots ≡ some x
        → versions_match def.snapshot_module_version (snap_module_version x.metadata) ≡ true
        → (x.source_version ≤ length (rows_of u s.log))
          × (ok x.payload ≡ replay (take x.source_version (rows_of u s.log)))

    pub record IsSound (s : Store D S) : Type 0 where
      pub valid : IsValid s
      pub agrees : SnapshotAgrees s

    -- The stream has only grown at its end.
    pub record Extends (s s' : Store D S) : Type 0 where
      pub more : List (RawEventRow D)
      pub rows : rows_of u s'.log ≡ rows_of u s.log ++ more

    pub record Rely (f : Store D S → Store D S) : Type 0 where
      pub keeps : (s : Store D S) → IsSound s → IsSound (f s)
      pub grows : (s : Store D S) → IsSound s → Extends s (f s)

    abbrev pub RelyAll : List (Store D S → Store D S) → Type 0
    RelyAll [] = Unit
    RelyAll (f ∷ fs) = Rely f × RelyAll fs

    pub record Trusts (w : Session D S) : Type 0 where
      pub sound : IsSound w.store
      pub rely : RelyAll w.others

    -- The state of a load is that of a prefix of the stream.
    pub record Sees (l : LoadedAggregate S) (s : Store D S) : Type 0 where
      pub bounded : l.version ≤ length (rows_of u s.log)
      pub state : ok l.state ≡ replay (take l.version (rows_of u s.log))

    pub Extends-refl : (s : Store D S) → Extends s s
    Extends-refl s = record { more = []; rows = sym (append-nil (rows_of u s.log)) }

    pub Sees-Extends :
        {l : LoadedAggregate S} {s s' : Store D S} → Sees l s → Extends s s' → Sees l s'
    Sees-Extends {l} {s} {s'} h x = record {
      bounded = rw (x.rows, length-append {0}) (omega (arith, h.bounded));
      state =
          rw x.rows
            (h.state ∙ ap replay (sym (take-append l.version (rows_of u s.log) x.more h.bounded)));
    }

    interfere_with :
        (fs : List (Store D S → Store D S)) (w : Session D S)
        → IsSound w.store
        → RelyAll fs
        → RelyAll w.others
        → Trusts (resume fs w) × Extends w.store (resume fs w).store
    interfere_with [] w sound rely others =
        (record { sound = sound; rely = others }, Extends-refl w.store)
    interfere_with (f ∷ fs) w sound rely others =
        (record { sound = rely.0.keeps w.store sound; rely = rely.1 }, rely.0.grows w.store sound)

    pub interfere-Trusts :
        (w : Session D S) → Trusts w → Trusts (interfere w) × Extends w.store (interfere w).store
    unfolding interfere
    interfere-Trusts w t = interfere_with w.others w t.sound t.rely t.rely

    module _ (l : LoadedAggregate S) (qty : ℕ) (s : Store D S) (v : IsValid s) (h : Sees l s) where
      abbrev pub next_rows : List (RawEventRow D)
      next_rows = take qty (drop l.version (rows_of u s.log))

      -- The loop over the next page of the stream.
      abbrev pub folded_page : Result (LoadedAggregate S)
      folded_page = fold_page def (ok l) (map map_recorded_event next_rows)

      pub next-version :
          (l' : LoadedAggregate S) → folded_page ≡ ok l' → l'.version ≡ l.version + length next_rows
      next-version l' folded =
          fold_page-version l l' next_rows folded
          ∙ last_number-Run _ l.version next_rows (
              Run-take _ l.version qty _ (
                Run-drop _ 0 l.version l.version (rows_of u s.log) (omega arith) (v.versions u)
                  h.bounded))

      next-state :
          replay_from (ok l.state) next_rows
          ≡ replay (take (l.version + length next_rows) (rows_of u s.log))
      next-state =
          ap (λ r. replay_from r next_rows) h.state
          ∙ sym (
              replay_from-append (ok def.initial_state) (take l.version (rows_of u s.log))
                next_rows)
          ∙ ap replay (take-add l.version qty (rows_of u s.log) h.bounded)

      pub folded_page-state :
          state_of folded_page ≡ replay (take (l.version + length next_rows) (rows_of u s.log))
      folded_page-state = fold_page-state (ok l) next_rows ∙ next-state

      -- Folding in the next page of the stream goes on with the same prefix.
      pub fold_page-Sees : (l' : LoadedAggregate S) → folded_page ≡ ok l' → Sees l' s
      fold_page-Sees l' folded = record {
        bounded = rw (next-version l' folded) (
            omega (
              arith,
              h.bounded,
              length-take {0} qty (drop l.version (rows_of u s.log)),
              length-drop {0} l.version (rows_of u s.log),
            ));
        state = rw (next-version l' folded) (ap state_of (sym folded) ∙ folded_page-state);
      }

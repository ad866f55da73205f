-- ===== src/Store/Valid.antt =====
-- The invariant of the store, on the numbers of the rows, and `append_to_stream` of
-- sql/instructed.sql under it.
use mathlib.Core.List.{append-nil}
use instructed.Prelude.{
  ℕ, suc, ◌+◌, String, ◌==◌, ◌≡◌, refl, sym, ap, subst, ◌∙◌, true, inl, inr, Option, none, some,
  List, [], ◌∷◌, ◌++◌, Bool, arith, eq_iff, Bool-cases, if◌then◌else◌, get_or_else, length,
  length-append, select, select-append, Run, Run-append,
}
use instructed.Prelude.Int.{ℤ}
use instructed.Result.{ok, resolved}
use instructed.Store.{RawEventRow, Store, StreamRow, stream_version, set_version, rows_of}
use instructed.Store.Append.{
  PackedEvent, check_append, check_rows, append_to_stream, insert_rows, new_rows, base_version,
  exact_base,
}

-- The version of a stream, 0 of one that does not exist.
abbrev pub version_of : {D S : Type 0} → String → Store D S → ℕ
version_of u s = get_or_else (stream_version u s.streams) 0

pub stream_version-set_version :
    (u j : String) (v : ℕ) (rs : List StreamRow)
    → stream_version j (set_version u v rs) ≡ (if u == j then some v else stream_version j rs)
unfolding stream_version set_version
stream_version-set_version u j v [] = refl
stream_version-set_version u j v (r ∷ rs) = ground (
  arith,
  eq_iff r.stream_uuid u,
  eq_iff r.stream_uuid j,
  eq_iff u j,
  stream_version-set_version u j v rs,
)

pub base_version-eq :
    (type : String) (expected : Option ℤ) (current : Option ℕ) (base : ℕ)
    → base_version type expected current ≡ ok base
    → base ≡ get_or_else current 0
unfolding base_version exact_base
base_version-eq type expected none base h = ground arith
base_version-eq type expected (some v) base h = ground arith

module _ {D : Type 0} where
  pub rows_of-append :
      (u : String) (xs ys : List (RawEventRow D))
      → rows_of u (xs ++ ys) ≡ rows_of u xs ++ rows_of u ys
  unfolding rows_of
  rows_of-append u xs ys = select-append (λ r. r.stream_uuid == u) xs ys

  pub rows_of-new_rows :
      (u j : String) (now sv en : ℕ) (es : List (PackedEvent D))
      → rows_of j (new_rows u now sv en es) ≡ (if u == j then new_rows u now sv en es else [])
  unfolding rows_of select new_rows
  rows_of-new_rows u j now sv en [] = ground arith
  rows_of-new_rows u j now sv en (e ∷ es) =
      ground (arith, rows_of-new_rows u j now (suc sv) (suc en) es)

  pub length-new_rows :
      (u : String) (now sv en : ℕ) (es : List (PackedEvent D))
      → length (new_rows u now sv en es) ≡ length es
  unfolding new_rows
  length-new_rows u now sv en [] = refl
  length-new_rows u now sv en (e ∷ es) = ap suc (length-new_rows u now (suc sv) (suc en) es)

  pub new_rows-versions :
      (u : String) (now sv en : ℕ) (es : List (PackedEvent D))
      → Run (λ r. r.stream_version) sv (new_rows u now sv en es)
  unfolding new_rows
  new_rows-versions u now sv en [] = tt
  new_rows-versions u now sv en (e ∷ es) = (refl, new_rows-versions u now (suc sv) (suc en) es)

  pub new_rows-numbers :
      (u : String) (now sv en : ℕ) (es : List (PackedEvent D))
      → Run (λ r. r.event_number) en (new_rows u now sv en es)
  unfolding new_rows
  new_rows-numbers u now sv en [] = tt
  new_rows-numbers u now sv en (e ∷ es) = (refl, new_rows-numbers u now (suc sv) (suc en) es)

module _ {D S : Type 0} where
  pub record IsValid (s : Store D S) : Type 0 where
    pub numbered : Run (λ r. r.event_number) 0 s.log
    pub total : length s.log ≡ s.all_version
    pub versions : (u : String) → Run (λ r. r.stream_version) 0 (rows_of u s.log)
    pub counts : (u : String) → length (rows_of u s.log) ≡ version_of u s

  -- The tables after an append that went through.
  abbrev pub appended_rows : String → List (PackedEvent D) → Store D S → List (RawEventRow D)
  appended_rows u events s = new_rows u s.now (version_of u s) s.all_version events

  abbrev pub after_append : String → List (PackedEvent D) → Store D S → Store D S
  after_append u events s = record s {
    streams = set_version u (version_of u s + length events) s.streams;
    all_version = s.all_version + length events;
    log = s.log ++ appended_rows u events s;
  }

  pub append_to_stream-eq-ok :
      (is_uuid : String → Bool) (u type : String) (expected : Option ℤ)
      (events : List (PackedEvent D)) (s : Store D S) {r : List (RawEventRow D) × Store D S}
      → append_to_stream is_uuid u type expected events s ≡ ok r
      → (base_version type expected (stream_version u s.streams) ≡ ok (version_of u s))
        × (r ≡ (appended_rows u events s, after_append u events s))
  unfolding append_to_stream insert_rows
  append_to_stream-eq-ok is_uuid u type expected events s h =
      let current = stream_version u s.streams in
      let checked = resolved _ (check_append is_uuid u type expected events) h in
      let based = resolved _ (base_version type expected current) checked.rest_ok in
      let e = base_version-eq type expected current based.given based.first_ok in
      let rows = new_rows u s.now based.given s.all_version events in
      let inserted = resolved _ (check_rows is_uuid events rows s) based.rest_ok in
      (rw (← e) based.first_ok, ground (arith, e, inserted.rest_ok))

  -- The appended rows go to the end of their own stream, and every other stream is left alone.
  pub rows_of-after_append :
      (u j : String) (events : List (PackedEvent D)) (s : Store D S)
      → rows_of j (after_append u events s).log
        ≡ rows_of j s.log ++ (if u == j then appended_rows u events s else [])
  rows_of-after_append u j events s =
      rows_of-append j s.log (appended_rows u events s)
      ∙ ap (λ l. rows_of j s.log ++ l)
          (rows_of-new_rows u j s.now (version_of u s) s.all_version events)

  module _ (u : String) (events : List (PackedEvent D)) (s : Store D S) (v : IsValid s) where
    same_version : (j : String) → (u == j) ≡ true → version_of u s ≡ length (rows_of j s.log)
    same_version j e = ap (λ (x : String). version_of x s) ((eq_iff u j).0 e) ∙ sym (v.counts j)

    after_append-versions :
        (j : String) → Run (λ r. r.stream_version) 0 (rows_of j (after_append u events s).log)
    after_append-versions j = rw (rows_of-after_append u j events s) (elim (Bool-cases (u == j)) [
      | inl e ↦ rw e (
          Run-append _ 0 (version_of u s) (rows_of j s.log) _ (omega (arith, same_version j e))
            (v.versions j) (new_rows-versions u s.now (version_of u s) s.all_version events))
      | inr n ↦ rw (n, append-nil) (v.versions j)
    ])

    after_append-counts :
        (j : String)
        → length (rows_of j (after_append u events s).log) ≡ version_of j (after_append u events s)
    after_append-counts j =
        rw (rows_of-after_append u j events s, stream_version-set_version, length-append {0})
          (elim (Bool-cases (u == j)) [
            | inl e ↦ rw e (
                omega (
                  arith,
                  same_version j e,
                  length-new_rows u s.now (version_of u s) s.all_version events,
                ))
            | inr n ↦ rw n (omega (arith, v.counts j))
          ])

    pub after_append-IsValid : IsValid (after_append u events s)
    after_append-IsValid = record {
      numbered =
          Run-append _ 0 s.all_version s.log _ (omega (arith, v.total)) v.numbered
            (new_rows-numbers u s.now (version_of u s) s.all_version events);
      total =
          length-append s.log (appended_rows u events s)
          ∙ omega (arith, v.total, length-new_rows u s.now (version_of u s) s.all_version events);
      versions = after_append-versions;
      counts = after_append-counts;
    }

  -- An append that goes through, of any kind, keeps the numbering of `$all` and of every stream
  -- contiguous.
  pub append_to_stream-IsValid :
      (is_uuid : String → Bool) (u type : String) (expected : Option ℤ)
      (events : List (PackedEvent D)) (s : Store D S) {rows : List (RawEventRow D)} {s' : Store D S}
      → IsValid s
      → append_to_stream is_uuid u type expected events s ≡ ok (rows, s')
      → IsValid s'
  append_to_stream-IsValid is_uuid u type expected events s v h =
      let e = (append_to_stream-eq-ok is_uuid u type expected events s h).1 in
      subst IsValid (sym (ap (λ (r : List (RawEventRow D) × Store D S). r.1) e))
        (after_append-IsValid u events s v)

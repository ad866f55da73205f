-- ===== src/Store/Append.antt =====
-- `append_to_stream` of sql/instructed.sql: the checks, the versions, and the rows inserted.
mod Decimal
use instructed.Prelude.{
  ℕ, suc, ◌+◌, String, ◌<>◌, ◌==◌, Bool, true, false, not, ◌&&◌, ◌||◌, Option, none, some, List, [],
  ◌∷◌, ◌++◌, beq, if◌then◌else◌, length,
}
use instructed.Prelude.Int.{ℤ, pos, negsuc}
use instructed.Json.{Json}
use instructed.Result.{Result, ok, throw, throw_if, ◌>>=◌, ◌>>◌}
use instructed.Store.{RawEventRow, Store, StreamRow, raise, stream_version, set_version}
use instructed.Store.Append.Decimal.{decimal}

-- One element of `p_events`: the object that `packEvent` makes.
pub record PackedEvent (D : Type 0) : Type 0 where
  pub event_id : Option String
  pub event_type : String
  pub payload : D
  pub metadata : Option Json
  pub causation_id : Option String
  pub correlation_id : Option String

abbrev pub is_version_type : String → Bool
is_version_type t = t == "any" || t == "no_stream" || t == "stream_exists" || t == "exact"

-- `p_expected_version is null or p_expected_version < 0`
abbrev pub is_missing_or_negative : Option ℤ → Bool
is_missing_or_negative none = true
is_missing_or_negative (some (pos n)) = false
is_missing_or_negative (some (negsuc n)) = true

abbrev pub as_version : Option ℤ → ℕ
as_version (some (pos n)) = n
as_version _ = 0

-- `nullif(x, '')`
abbrev pub nullif_empty : Option String → Option String
nullif_empty none = none
nullif_empty (some x) = if x == "" then none else some x

-- The `exact` arm: `v_base_sv`, or IS001.
unfoldable pub exact_base : Option ℕ → ℕ → Result ℕ
exact_base none expected =
    if beq expected 0 then ok 0 else throw (raise "IS001" "append_to_stream: stream does not exist")
exact_base (some current) expected =
    if beq current expected
    then ok current
    else throw (
        raise "IS001" (
          "append_to_stream: wrong expected version: actual "
          <> decimal current
          <> ", expected "
          <> decimal expected))

-- The version of the stream before the batch, by expected-version type.
unfoldable pub base_version : String → Option ℤ → Option ℕ → Result ℕ
base_version type expected current =
    if type == "any"
    then elim current [ none ↦ ok 0 | some v ↦ ok v ]
    else if type == "no_stream"
    then (elim current [
      | none ↦ ok 0
      | some _ ↦ throw (raise "IS002" "append_to_stream: stream already exists")
    ])
    else if type == "stream_exists"
    then (elim current [
      | none ↦ throw (raise "IS003" "append_to_stream: stream does not exist")
      | some v ↦ ok v
    ])
    else exact_base current (as_version expected)

-- The cast to `uuid` of an optional column.
abbrev pub casts : (String → Bool) → Option String → Bool
casts is_uuid none = true
casts is_uuid (some x) = is_uuid x

module _ {D : Type 0} where
  unfoldable pub has_ids : List (PackedEvent D) → Bool
  has_ids [] = true
  has_ids (e ∷ es) = elim e.event_id [ none ↦ false | some _ ↦ has_ids es ]

  abbrev pub id_of : PackedEvent D → String
  id_of e = elim e.event_id [ none ↦ "" | some i ↦ i ]

  unfoldable pub ids_cast : (String → Bool) → List (PackedEvent D) → Bool
  ids_cast is_uuid [] = true
  ids_cast is_uuid (e ∷ es) = is_uuid (id_of e) && ids_cast is_uuid es

  unfoldable pub links_cast : (String → Bool) → List (PackedEvent D) → Bool
  links_cast is_uuid [] = true
  links_cast is_uuid (e ∷ es) =
      casts is_uuid (nullif_empty e.causation_id)
      && casts is_uuid (nullif_empty e.correlation_id)
      && links_cast is_uuid es

  unfoldable pub has_row : String → List (RawEventRow D) → Bool
  has_row i [] = false
  has_row i (r ∷ rs) = r.event_id == i || has_row i rs

  -- `new_events`, numbered after `v_base_sv` and `v_base_en`.
  unfoldable pub new_rows : String → ℕ → ℕ → ℕ → List (PackedEvent D) → List (RawEventRow D)
  new_rows u now sv en [] = []
  new_rows u now sv en (e ∷ es) =
      record {
        event_id = id_of e;
        event_number = suc en;
        stream_uuid = u;
        stream_version = suc sv;
        event_type = e.event_type;
        causation_id = nullif_empty e.causation_id;
        correlation_id = nullif_empty e.correlation_id;
        payload = e.payload;
        metadata = e.metadata;
        created_at = now;
      }
      ∷ new_rows u now (suc sv) (suc en) es

  -- The primary key of `events`: some row's id is among the rows before it.
  unfoldable pub repeats_id : List (RawEventRow D) → List (RawEventRow D) → Bool
  repeats_id before [] = false
  repeats_id before (r ∷ rs) = has_row r.event_id before || repeats_id (r ∷ before) rs

module _ {D S : Type 0} (is_uuid : String → Bool) where
  -- What the inserts refuse: a link that is no UUID, an event id that is taken.
  unfoldable pub check_rows :
      List (PackedEvent D) → List (RawEventRow D) → Store D S → Result (Unit {0})
  check_rows events rows s = do
    throw_if (not (links_cast is_uuid events)) (raise "22P02" "invalid input syntax for type uuid")
    throw_if (repeats_id s.log rows) (raise "IS004" "append_to_stream: duplicate event_id")

  unfoldable pub insert_rows :
      String → ℕ → List (PackedEvent D) → Store D S → Result (List (RawEventRow D) × Store D S)
  insert_rows u base events s =
      let rows = new_rows u s.now base s.all_version events in
      do
        check_rows events rows s
        ok (
          rows,
          record s {
            streams = set_version u (base + length events) s.streams;
            all_version = s.all_version + length events;
            log = s.log ++ rows;
          },
        )

module _ {D : Type 0} (is_uuid : String → Bool) where
  -- The checks of the arguments.
  unfoldable pub check_append :
      String → String → Option ℤ → List (PackedEvent D) → Result (Unit {0})
  check_append u type expected events = do
    throw_if (u == "$all") (raise "IS005" "append_to_stream: stream_uuid '$all' is reserved")
    throw_if (not (is_version_type type))
        (raise "22023" "append_to_stream: invalid p_expected_version_type")
    throw_if (type == "exact" && is_missing_or_negative expected)
        (raise "22023" "append_to_stream: p_expected_version must be a non-negative integer")
    throw_if (beq (length events) 0)
        (raise "22023" "append_to_stream: p_events must be a non-empty JSON array")
    throw_if (not (has_ids events))
        (raise "22023" "append_to_stream: each event must have event_id, event_type, data")
    throw_if (not (ids_cast is_uuid events)) (raise "22023" "append_to_stream: malformed event_id")

module _ {D S : Type 0} (is_uuid : String → Bool) where
  unfoldable pub append_to_stream :
      String
      → String
      → Option ℤ
      → List (PackedEvent D)
      → Store D S
      → Result (List (RawEventRow D) × Store D S)
  append_to_stream u type expected events s = do
    check_append is_uuid u type expected events
    base ← base_version type expected (stream_version u s.streams)
    insert_rows is_uuid u base events s

-- ===== src/Client.antt =====
-- The client over the procedures (sdks/typescript/src/client/): packing of events, mapping of rows,
-- and the calls that the aggregate runner makes. The text of a query and the JSON encoding of its
-- parameters are not modelled.
pub mod Queue
use instructed.Prelude.{
  ℕ, suc, ◌+◌, String, Option, none, some, List, [], ◌∷◌, map, length, get_or_else,
}
use instructed.Prelude.Int.{ℤ}
use instructed.Errors.{Thrown}
use instructed.Errors.MapPg.{MapPgErrorContext, no_context}
use instructed.Result.{Result, ok, throw, stuck}
use instructed.Types.{
  NewEvent, AppendedEvent, RecordedEvent, ExpectedVersion, any, no_stream, stream_exists, exact,
  Snapshot, SnapshotInput,
}
use instructed.Store as Sql
use instructed.Store.{RawEventRow, Store}
use instructed.Store.Append as SqlAppend
use instructed.Store.Append.{PackedEvent}
use instructed.Session.{Session, Platform, Io, run, run_query}

abbrev pub on_stream : String → MapPgErrorContext
on_stream u = record no_context { stream_uuid = some u }

abbrev pub on_source : String → MapPgErrorContext
on_source u = record no_context { source_uuid = some u }

abbrev pub expected_version_params : ExpectedVersion → String × Option ℤ
expected_version_params any = ("any", none)
expected_version_params no_stream = ("no_stream", none)
expected_version_params stream_exists = ("stream_exists", none)
expected_version_params (exact v) = ("exact", some v)

module _ {D : Type 0} where
  abbrev pub pack_event : NewEvent D → PackedEvent D
  pack_event e = record {
    event_id = e.event_id;
    event_type = e.type;
    payload = e.payload;
    metadata = e.metadata;
    causation_id = e.causation_id;
    correlation_id = e.correlation_id;
  }

  abbrev pub map_recorded_event : RawEventRow D → RecordedEvent D
  map_recorded_event row = record {
    event_id = row.event_id;
    event_number = row.event_number;
    stream_uuid = row.stream_uuid;
    stream_version = row.stream_version;
    causation_id = row.causation_id;
    correlation_id = row.correlation_id;
    metadata = row.metadata;
    created_at = row.created_at;
    type = row.event_type;
    payload = row.payload;
  }

  -- The rows that `append_to_stream` returns, with the stream added.
  abbrev pub appended_event : String → RawEventRow D → AppendedEvent
  appended_event u r = record {
    event_id = r.event_id;
    stream_uuid = u;
    stream_version = r.stream_version;
    event_number = r.event_number;
    created_at = r.created_at;
  }

  -- `e.event_id ?? crypto.randomUUID()`; the `i`-th event without an id may use the `i`-th UUID.
  unfoldable pub fill_ids : (ℕ → String) → ℕ → List (NewEvent D) → List (PackedEvent D)
  fill_ids random_uuid i [] = []
  fill_ids random_uuid i (e ∷ es) =
      record (pack_event e) { event_id = some (get_or_else e.event_id (random_uuid i)) }
      ∷ fill_ids random_uuid (suc i) es

module _ {A B D S : Type 0} where
  -- `res.rows.map(…)`
  abbrev pub map_result : (A → B) → Result A × Session D S → Result B × Session D S
  map_result f (ok a, w) = (ok (f a), w)
  map_result f (throw e, w) = (throw e, w)
  map_result f (stuck, w) = (stuck, w)

module _ {D S : Type 0} where
  unfoldable pub read_stream : String → ℕ → ℕ → Io D S (List (RecordedEvent D))
  read_stream u from_version qty w =
      map_result (map map_recorded_event)
        (run_query (on_stream u) (Sql.read_stream u from_version qty) w)

  unfoldable pub read_all : ℕ → ℕ → Io D S (List (RecordedEvent D))
  read_all from_number qty w =
      map_result (map map_recorded_event) (run_query no_context (Sql.read_all from_number qty) w)

  unfoldable pub read_snapshot : String → Io D S (Snapshot S)
  read_snapshot u = run_query (on_source u) (Sql.read_snapshot u)

  unfoldable pub record_snapshot : SnapshotInput S → Io D S (Unit {0})
  record_snapshot x = run (on_source x.source_uuid) (Sql.record_snapshot x)

module _ {D S : Type 0} (p : Platform) where
  unfoldable pub append_filled :
      String → ExpectedVersion → List (PackedEvent D) → Io D S (List AppendedEvent)
  append_filled u expected filled w =
      let (type, version) = expected_version_params expected in
      map_result (map (appended_event u))
        (run (on_stream u) (SqlAppend.append_to_stream p.is_uuid u type version filled) w)

  unfoldable pub append_to_stream :
      String → ExpectedVersion → List (NewEvent D) → Io D S (List AppendedEvent)
  append_to_stream u expected [] w = (
    throw (
        Thrown.invalid_parameter_value (record {
          message = "appendToStream: events must be a non-empty array";
          code = some "22023";
          detail = none;
          hint = none;
        })),
    w,
  )
  append_to_stream u expected (e ∷ es) w =
      append_filled u expected (fill_ids p.random_uuid w.drawn (e ∷ es))
        (record w { drawn = w.drawn + length (e ∷ es) })

-- ===== src/Tests/Stores.antt =====
-- The theorems on the store and on the errors.
use instructed.Prelude.{◌≡◌, refl, arith, some, none, take, drop}
use instructed.Errors.{PgError, Thrown}
use instructed.Errors.MapPg.{map_pg_error, no_context}
use instructed.Errors.MapPg.Codes.{
  code_of, code_of-map_pg_error, Classifies, raised_with, map_pg_error-Classifies,
}
use instructed.Types.{SnapshotInput}
use instructed.Result.{ok}
use instructed.Store.{
  rows_of, stream_version, set_version, read_stream, read_all, read_snapshot, record_snapshot,
}
use instructed.Store.Append.{
  append_to_stream, check_append, base_version, insert_rows, check_rows, new_rows, links_cast,
  has_ids, ids_cast, repeats_id, has_row,
}
use instructed.Store.Valid.{IsValid, appended_rows, after_append, append_to_stream-IsValid}
use instructed.Store.Read.{read_stream-eq, read_all-eq}
use instructed.Store.Snapshots.{kept, with_kept, read_snapshot-record_snapshot}
use instructed.Bank.{AccountState, account_initial}
use instructed.Tests.{platform, stream, empty, opening, opened, empty-IsValid, opened-IsValid}

abbrev conflict : PgError
conflict = record {
  code = some "IS001";
  message = some "append_to_stream: wrong expected version: actual 3, expected 2";
  detail = none;
  hint = none;
}

code_of-map_pg_error_example :
    code_of (map_pg_error (Thrown.pg conflict) no_context) ≡ code_of (Thrown.pg conflict)
code_of-map_pg_error_example = code_of-map_pg_error (Thrown.pg conflict) no_context

map_pg_error-Classifies_example :
    Classifies (λ err. map_pg_error err no_context) (raised_with conflict) "IS001"
map_pg_error-Classifies_example = map_pg_error-Classifies conflict no_context "IS001"

appends :
    append_to_stream platform.is_uuid stream "any" none opening empty
    ≡ ok (appended_rows stream opening empty, after_append stream opening empty)
unfolding append_to_stream check_append base_version insert_rows check_rows new_rows links_cast
    has_ids ids_cast repeats_id has_row stream_version set_version
appends = refl

append_to_stream-IsValid_example : IsValid opened
append_to_stream-IsValid_example =
    append_to_stream-IsValid platform.is_uuid stream "any" none opening empty empty-IsValid appends

there : stream_version stream opened.streams ≡ some 1
unfolding stream_version set_version
there = refl

read_stream-eq_example :
    read_stream stream 1 5 opened ≡ ok (take 5 (drop 0 (rows_of stream opened.log)))
read_stream-eq_example = read_stream-eq opened opened-IsValid stream 0 5 refl (omega arith) there

read_all-eq_example : read_all 1 5 opened ≡ ok (take 5 (drop 0 opened.log))
read_all-eq_example = read_all-eq opened opened-IsValid 0 5 (omega arith)

abbrev taken : SnapshotInput AccountState
taken = record {
  source_uuid = stream;
  source_type = "Account";
  source_version = 1;
  payload = account_initial;
  metadata = none;
}

records : record_snapshot taken opened ≡ ok (tt, with_kept taken opened)
unfolding record_snapshot
records = refl

read_snapshot-record_snapshot_example :
    read_snapshot stream (with_kept taken opened) ≡ ok (kept taken opened)
read_snapshot-record_snapshot_example = read_snapshot-record_snapshot taken opened records

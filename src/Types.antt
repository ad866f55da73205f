-- ===== src/Types.antt =====
-- The wire shapes of the SDK (sdks/typescript/src/types/). The payload type `D` of events and the
-- state type `S` of snapshots stand for the JSON values that the application puts there; `data` is
-- spelled `payload`. Versions, event numbers and times are naturals.
use instructed.Prelude.{ℕ, String, Option}
use instructed.Prelude.Int.{ℤ}
use instructed.Json.{Json}

pub record NewEvent (D : Type 0) : Type 0 where
  pub event_id : Option String
  pub type : String
  pub payload : D
  pub metadata : Option Json
  pub causation_id : Option String
  pub correlation_id : Option String

pub record AppendedEvent : Type 0 where
  pub event_id : String
  pub stream_uuid : String
  pub stream_version : ℕ
  pub event_number : ℕ
  pub created_at : ℕ

pub record RecordedEvent (D : Type 0) : Type 0 where
  pub event_id : String
  pub event_number : ℕ
  pub stream_uuid : String
  pub stream_version : ℕ
  pub causation_id : Option String
  pub correlation_id : Option String
  pub metadata : Option Json
  pub created_at : ℕ
  pub type : String
  pub payload : D

pub data ExpectedVersion : Type 0 where
  any no_stream stream_exists : ExpectedVersion
  exact : ℤ → ExpectedVersion

pub record SnapshotInput (S : Type 0) : Type 0 where
  pub source_uuid : String
  pub source_type : String
  pub source_version : ℕ
  pub payload : S
  pub metadata : Option Json

pub record Snapshot (S : Type 0) : Type 0 where
  pub source_uuid : String
  pub source_type : String
  pub source_version : ℕ
  pub payload : S
  pub metadata : Option Json
  pub created_at : ℕ

-- ===== src/Facade.antt =====
-- The facade's helpers for routing events and commands (sdks/typescript/src/facade/routing-helpers.ts,
-- partition-by.ts, command-router.ts).
pub mod Filter
pub mod Registry
pub mod Waits
use instructed.Prelude.{
  ℕ, String, ◌<>◌, ◌==◌, ◌||◌, Bool, false, Option, none, some, List, [], ◌∷◌, if◌then◌else◌,
}
use instructed.Errors.{Thrown}
use instructed.Result.{Result, ok, throw}
use instructed.Types.{RecordedEvent}
use instructed.Workers.Routing.{RoutingFn, RoutingDecision, ignore, partition}

-- `new Set(types).has(type)`
abbrev pub has_type : String → List String → Bool
has_type type [] = false
has_type type (t ∷ ts) = t == type || has_type type ts

abbrev pub only_types : {D : Type 0} → List String → RoutingFn D → RoutingFn D
only_types types inner event = if has_type event.type types then inner event else ok ignore

pub data PartitionBy (D : Type 0) : Type 0 where
  sequential per_event : PartitionBy D
  per_key : (RecordedEvent D → String) → PartitionBy D

abbrev pub sequential_partition_key : String
sequential_partition_key = "_default"

-- `decimal` is `String` of a bigint.
abbrev pub routing_fn_for_partition_by : {D : Type 0} → (ℕ → String) → PartitionBy D → RoutingFn D
routing_fn_for_partition_by decimal sequential event = ok (partition sequential_partition_key)
routing_fn_for_partition_by decimal per_event event = ok (partition (decimal event.event_number))
routing_fn_for_partition_by decimal (per_key key) event = ok (partition (key event))

-- An entry of the routing table: the command type, the aggregate's type, and `id`.
pub record CommandRoute (C : Type 0) : Type 0 where
  pub command_type : String
  pub aggregate_type : String
  pub id : C → String

pub record CommandTarget : Type 0 where
  pub aggregate_type : String
  pub aggregate_id : String

abbrev pub find_route : {C : Type 0} → String → List (CommandRoute C) → Option (CommandRoute C)
find_route type [] = none
find_route type (r ∷ rs) = if r.command_type == type then some r else find_route type rs

abbrev pub resolve_route :
    {C : Type 0} → String → C → Option (CommandRoute C) → Result CommandTarget
resolve_route type command none =
    throw (Thrown.error ("commandRouter: no route for command type \"" <> type <> "\""))
resolve_route type command (some r) =
    ok (record { aggregate_type = r.aggregate_type; aggregate_id = r.id command })

-- `commandRouter(routes)`; `type_of` is a command's `type`.
abbrev pub command_router :
    {C : Type 0} → (C → String) → List (CommandRoute C) → C → Result CommandTarget
command_router type_of routes command =
    resolve_route (type_of command) command (find_route (type_of command) routes)

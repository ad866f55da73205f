-- ===== src/Json.antt =====
-- JSON values (sdks/typescript/src/types/queryable.ts); of the numbers only the integers.
use instructed.Prelude.{String, ◌==◌, Bool, Option, none, some, if◌then◌else◌}
use instructed.Prelude.Int.{ℤ}

mutual
  pub data Json : Type 0 where
    null : Json
    bool : Bool → Json
    num : ℤ → Json
    str : String → Json
    arr : Items → Json
    obj : Fields → Json

  pub data Items : Type 0 where
    nil : Items
    cons : Json → Items → Items

  pub data Fields : Type 0 where
    end : Fields
    field : String → Json → Fields → Fields

abbrev pub lookup_field : String → Fields → Option Json
lookup_field k end = none
lookup_field k (field j v rest) = if j == k then some v else lookup_field k rest

-- `typeof v === 'string'`
abbrev pub as_string : Option Json → Option String
as_string (some (str s)) = some s
as_string _ = none

-- ===== src/Prelude/Json.antt =====
-- `serde_json::Value`, as far as the crates read it. A number that is not an `i64` is kept as such.
use Prim.Native.Nat.{ℕ, suc}
use Prim.Native.String.{String}
use mathlib.Core.Bool.{Bool}
use mathlib.Core.Option.{Option, none, some}
use text.Mathlib.Text.{◌==◌ as str_eq}
use kit.Prelude.Tests.{if◌then◌else◌}
use kit.Prelude.Int.{ℤ}

mutual
  pub data Value : Type 0 where
    null : Value
    boolean : Bool → Value
    int : ℤ → Value
    float : Value
    str : String → Value
    array : Items → Value
    object : Fields → Value

  pub data Items : Type 0 where
    nil : Items
    cons : Value → Items → Items

  pub data Fields : Type 0 where
    end : Fields
    field : String → Value → Fields → Fields

-- `Map::get`.
unfoldable pub get : String → Fields → Option Value
get key end = none
get key (field k v fields) = let rest = get key fields in if str_eq k key then some v else rest

unfoldable pub items_length : Items → ℕ
items_length nil = 0
items_length (cons v items) = suc (items_length items)

-- `and_then(Value::as_str)` and its kin, on what `get` gives.
abbrev pub as_str : Option Value → Option String
as_str (some (str s)) = some s
as_str v = none

abbrev pub as_i64 : Option Value → Option ℤ
as_i64 (some (int n)) = some n
as_i64 v = none

abbrev pub as_bool : Option Value → Option Bool
as_bool (some (boolean b)) = some b
as_bool v = none

abbrev pub as_array : Option Value → Option Items
as_array (some (array items)) = some items
as_array v = none

abbrev pub as_object : Option Value → Option Fields
as_object (some (object fields)) = some fields
as_object v = none

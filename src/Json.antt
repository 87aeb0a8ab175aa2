-- ===== src/Json.antt =====
-- `serde_json::Value`, the type of requests, schemas and replies in crates/joplin-mcpd/src/mcp.
-- A map is the list of its entries; `get` reads the first entry of a key.
use joplin_mcp_rust.Prelude.{
  ℕ, ◌^◌, ◌-◌, Bool, String, List, [], ◌∷◌, Option, none, some, leb, if◌then◌else◌, str_eq,
}
use joplin_mcp_rust.Prelude.Int.{ℤ, pos, negsuc}

-- `serde_json::Number`: a `u64`, a negative `i64` (`neg_int n` is -(n + 1)), or a float by its text.
pub data Number : Type 0 where
  pos_int : ℕ → Number
  neg_int : ℕ → Number
  float : String → Number

mutual
  pub data Value : Type 0 where
    null : Value
    bool : Bool → Value
    number : Number → Value
    string : String → Value
    array : Values → Value
    object : Members → Value

  pub data Values : Type 0 where
    nil : Values
    cons : Value → Values → Values

  pub data Members : Type 0 where
    end : Members
    member : String → Value → Members → Members

abbrev pub values : List Value → Values
values [] = nil
values (v ∷ vs) = cons v (values vs)

-- The object of a `json!` literal.
abbrev pub members : List (String × Value) → Members
members [] = end
members ((k, v) ∷ ms) = member k v (members ms)

abbrev pub obj : List (String × Value) → Value
obj ms = object (members ms)

-- The bounds of `i64`.
abbrev pub i64_max : ℕ
i64_max = 2 ^ 63 - 1

unfoldable pub lookup : String → Members → Option Value
lookup k end = none
lookup k (member j v ms) = if str_eq j k then some v else lookup k ms

-- `value.get(key)`: none on anything but an object.
unfoldable pub get : Value → String → Option Value
unfolding lookup
get (object ms) k = lookup k ms
get _ k = none

unfoldable pub as_str : Value → Option String
as_str (string s) = some s
as_str _ = none

unfoldable pub as_bool : Value → Option Bool
as_bool (bool b) = some b
as_bool _ = none

unfoldable pub as_array : Value → Option Values
as_array (array vs) = some vs
as_array _ = none

unfoldable pub as_object : Value → Option Members
as_object (object ms) = some ms
as_object _ = none

unfoldable pub as_u64 : Value → Option ℕ
as_u64 (number (pos_int n)) = some n
as_u64 _ = none

unfoldable pub as_i64 : Value → Option ℤ
as_i64 (number (pos_int n)) = if leb n i64_max then some (pos n) else none
as_i64 (number (neg_int n)) = some (negsuc n)
as_i64 _ = none

-- ===== src/Tools/Validate/Conforms.antt =====
-- What a schema of crates/joplin-mcpd/src/mcp/tools.rs means: an input conforms to it. The relation is
-- stated without the validator: by the type, the bounds and the pattern that the schema names.
use joplin_mcp_rust.Prelude.{
  ◌≤◌, ◌≡◌, Bool, true, String, Option, none, some, chars_count, and_then,
}
use joplin_mcp_rust.Prelude.Int.{ℤ, ◌≤ℤ◌}
use joplin_mcp_rust.Json.{
  Value, string, array, bool, Values, nil, cons, Members, end, member, get, lookup, as_str, as_u64,
  as_i64, as_array,
}
use joplin_mcp_rust.Contracts.{is_joplin_id}
use joplin_mcp_rust.Tools.Validate.{values_length}

-- A bound that the schema may leave out.
abbrev pub Within : {A : Type 0} → Option A → (A → Type 0) → Type 0
Within none P = Unit
Within (some a) P = P a

abbrev pub type_of : Value → Option String
type_of schema = and_then (get schema "type") as_str

abbrev pub id_pattern : String
id_pattern = "^[0-9A-Fa-f]{32}$"

pub record FitsString (schema : Value) (text : String) : Type 0 where
  pub typed : type_of schema ≡ some "string"
  pub least : Within (and_then (get schema "minLength") as_u64) (λ m. m ≤ chars_count text)
  pub most : Within (and_then (get schema "maxLength") as_u64) (λ m. chars_count text ≤ m)
  pub pattern_holds :
      and_then (get schema "pattern") as_str ≡ some id_pattern → is_joplin_id text ≡ true

pub record FitsInteger (schema : Value) (n : ℤ) : Type 0 where
  pub typed : type_of schema ≡ some "integer"
  pub least : Within (and_then (get schema "minimum") as_i64) (λ m. m ≤ℤ n)
  pub most : Within (and_then (get schema "maximum") as_i64) (λ m. n ≤ℤ m)

pub record FitsArray (schema : Value) (vs : Values) (item : Value) : Type 0 where
  pub typed : type_of schema ≡ some "array"
  pub most : Within (and_then (get schema "maxItems") as_u64) (λ m. values_length vs ≤ m)
  pub items : get schema "items" ≡ some item

mutual
  pub data Conforms : Value → Value → Type 0 where
    a_string :
        {schema : Value} {text : String} → FitsString schema text → Conforms schema (string text)
    an_integer :
        {schema value : Value} {n : ℤ}
        → as_i64 value ≡ some n
        → FitsInteger schema n
        → Conforms schema value
    a_boolean :
        {schema : Value} {b : Bool} → type_of schema ≡ some "boolean" → Conforms schema (bool b)
    an_array :
        {schema item : Value} {vs : Values}
        → FitsArray schema vs item
        → Each item vs
        → Conforms schema (array vs)

  pub data Each : Value → Values → Type 0 where
    done : {item : Value} → Each item nil
    more : {item v : Value} {vs : Values} → Conforms item v → Each item vs → Each item (cons v vs)

-- Every member of an object is a property of the schema, and its value conforms to it.
abbrev pub Closed : Members → Members → Type 0
Closed properties end = Unit
Closed properties (member k v ms) =
    ((schema : Value) × (lookup k properties ≡ some schema) × Conforms schema v)
    × Closed properties ms

-- Every required name that is a string is a key of the object.
abbrev pub Present : Members → Values → Type 0
Present fields nil = Unit
Present fields (cons v vs) =
    Within (as_str v) (λ name. (w : Value) × (lookup name fields ≡ some w)) × Present fields vs

pub record ConformsTo (schema : Value) (fields : Members) : Type 0 where
  pub properties : Members
  pub listed : get schema "properties" ≡ some (Value.object properties)
  pub closed : Closed properties fields
  pub present : Within (and_then (get schema "required") as_array) (Present fields)

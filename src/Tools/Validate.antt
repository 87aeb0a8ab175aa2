-- ===== src/Tools/Validate.antt =====
-- The input validator of crates/joplin-mcpd/src/mcp/tools.rs. The recursion into the items of an
-- array is on the input value: `validate_array` takes the check of the items as a function of the
-- item schema.
pub mod Conforms
pub mod Sound
pub mod Complete
pub mod Laws
use joplin_mcp_rust.Prelude.{
  ℕ, suc, Bool, true, false, ◌&&◌, String, List, [], ◌∷◌, Option, none, some, ok, err, ◌>>=◌, ◌>>◌,
  ok_or, ltb, if◌then◌else◌, str_eq, ◌<>◌, chars_count, is_none, is_some, is_some_and, and_then,
  not,
}
use joplin_mcp_rust.Prelude.Int.{ltb_ℤ}
use joplin_mcp_rust.Json.{
  Value, array, Values, nil, cons, Members, end, member, get, lookup, as_str, as_bool, as_array,
  as_object, as_u64, as_i64,
}
use joplin_mcp_rust.Contracts.{is_joplin_id}
use joplin_mcp_rust.Tools.Error.{ToolError, ToolResult, validation}
use joplin_mcp_rust.Tools.Schema.{ToolDefinition, tool_definitions}

abbrev fail : String → ToolResult Unit
fail message = err (validation message)

-- `values.len()`
unfoldable pub values_length : Values → ℕ
values_length nil = 0
values_length (cons v vs) = suc (values_length vs)

-- The guards of the validator, each an early return.
abbrev reject_if : Bool → String → ToolResult Unit
reject_if true message = fail message
reject_if false message = ok tt

unfoldable pub validate_string : String → String → Value → Value → ToolResult Unit
validate_string tool_name name value schema = do
  text ← ok_or (as_str value) (validation (tool_name <> "." <> name <> " must be a string"))
  reject_if
      (is_some_and (and_then (get schema "minLength") as_u64)
        (λ least. ltb (chars_count text) least))
      (tool_name <> "." <> name <> " is shorter than minimum length")
  reject_if
      (is_some_and (and_then (get schema "maxLength") as_u64) (λ most. ltb most (chars_count text)))
      (tool_name <> "." <> name <> " exceeds maximum length")
  reject_if
      (is_some_and (and_then (get schema "pattern") as_str) (λ p. str_eq p "^[0-9A-Fa-f]{32}$")
        && not (is_joplin_id text))
      (tool_name <> "." <> name <> " must be a 32-character Joplin ID")

unfoldable pub validate_integer : String → String → Value → Value → ToolResult Unit
validate_integer tool_name name value schema = do
  n ← ok_or (as_i64 value) (validation (tool_name <> "." <> name <> " must be an integer"))
  reject_if (is_some_and (and_then (get schema "minimum") as_i64) (λ least. ltb_ℤ n least))
      (tool_name <> "." <> name <> " is below minimum")
  reject_if (is_some_and (and_then (get schema "maximum") as_i64) (λ most. ltb_ℤ most n))
      (tool_name <> "." <> name <> " exceeds maximum")

unfoldable pub validate_array :
    (Value → ToolResult Unit) → String → String → Value → Value → ToolResult Unit
unfolding values_length
validate_array validate_items tool_name name value schema = do
  vs ← ok_or (as_array value) (validation (tool_name <> "." <> name <> " must be an array"))
  reject_if
      (is_some_and (and_then (get schema "maxItems") as_u64) (λ most. ltb most (values_length vs)))
      (tool_name <> "." <> name <> " has too many items")
  item_schema ←
      ok_or (get schema "items") (validation (tool_name <> "." <> name <> " has no item schema"))
  validate_items item_schema

abbrev type_is : Value → String → Bool
type_is schema name = is_some_and (and_then (get schema "type") as_str) (λ t. str_eq t name)

-- The match of `validate_property` on the schema's type.
unfoldable pub by_type :
    (Value → ToolResult Unit) → String → String → Value → Value → ToolResult Unit
by_type validate_items tool_name name value schema =
    if type_is schema "string"
    then validate_string tool_name name value schema
    else if type_is schema "integer"
    then validate_integer tool_name name value schema
    else if type_is schema "boolean"
    then reject_if (is_none (as_bool value)) (tool_name <> "." <> name <> " must be a boolean")
    else if type_is schema "array"
    then validate_array validate_items tool_name name value schema
    else fail (tool_name <> "." <> name <> " has unsupported schema")

unfoldable mutual
  pub validate_property : String → String → Value → Value → ToolResult Unit
  validate_property tool_name name (array vs) schema =
      by_type (validate_values tool_name name vs) tool_name name (array vs) schema
  validate_property tool_name name value schema =
      by_type (λ item_schema. ok tt) tool_name name value schema

  -- The loop over the items of an array.
  pub validate_values : String → String → Values → Value → ToolResult Unit
  validate_values tool_name name nil item_schema = ok tt
  validate_values tool_name name (cons v vs) item_schema = do
    validate_property tool_name name v item_schema
    validate_values tool_name name vs item_schema

unfoldable pub reject_unknown_fields : String → Members → Members → ToolResult Unit
reject_unknown_fields tool_name end properties = ok tt
reject_unknown_fields tool_name (member name v ms) properties = do
  reject_if (is_none (lookup name properties)) (tool_name <> " unknown field " <> name)
  reject_unknown_fields tool_name ms properties

-- The loop of `require_fields`, over the names that are strings.
unfoldable pub require_names : String → Members → Values → ToolResult Unit
require_names tool_name fields nil = ok tt
require_names tool_name fields (cons v vs) = do
  elim (as_str v) [
    | none ↦ ok tt
    | some name ↦
        reject_if (is_none (lookup name fields)) (tool_name <> " missing required field " <> name)
  ]
  require_names tool_name fields vs

unfoldable pub require_fields : String → Members → Value → ToolResult Unit
unfolding require_names
require_fields tool_name fields schema = elim (and_then (get schema "required") as_array) [
  | none ↦ ok tt
  | some names ↦ require_names tool_name fields names
]

-- The loop of `validate_against_schema` over the members of the input.
unfoldable pub validate_members : String → Members → Members → ToolResult Unit
validate_members tool_name end properties = ok tt
validate_members tool_name (member name v ms) properties = do
  property_schema ←
      ok_or (lookup name properties) (validation (tool_name <> " unknown field " <> name))
  validate_property tool_name name v property_schema
  validate_members tool_name ms properties

unfoldable pub validate_against_schema : String → Value → Value → ToolResult Unit
validate_against_schema tool_name input schema = do
  fields ← ok_or (as_object input) (validation (tool_name <> " input must be an object"))
  properties ←
      ok_or (and_then (get schema "properties") as_object)
        (validation (tool_name <> " schema has no properties"))
  reject_unknown_fields tool_name fields properties
  require_fields tool_name fields schema
  validate_members tool_name fields properties

unfoldable pub find_tool : String → List ToolDefinition → Option ToolDefinition
find_tool tool_name [] = none
find_tool tool_name (t ∷ ts) = if str_eq t.name tool_name then some t else find_tool tool_name ts

unfoldable pub validate_tool_input : String → Value → ToolResult Unit
unfolding find_tool tool_definitions
validate_tool_input tool_name input = do
  t ← ok_or (find_tool tool_name tool_definitions) (validation "unknown tool")
  validate_against_schema t.name input t.input_schema

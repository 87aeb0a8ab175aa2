-- ===== src/Tools/Validate/Complete.antt =====
-- An input that conforms to a schema is accepted by the validator of
-- crates/joplin-mcpd/src/mcp/tools.rs.
use joplin_mcp_rust.Prelude.{
  ◌≡◌, refl, ap, ◌∙◌, Bool, String, some, inl, inr, ok, arith, eq_iff, str_eq, Bool-cases,
  Option-cases, and_then,
}
use joplin_mcp_rust.Json.{
  Value, bool, number, string, array, object, Values, nil, cons, Members, end, member, get, lookup,
  as_str, as_bool, as_i64, as_array, as_object,
}
use joplin_mcp_rust.Prelude.Int.{ℤ}
use joplin_mcp_rust.Tools.Error.{ToolResult}
use joplin_mcp_rust.Tools.Validate.{
  validate_string, validate_integer, validate_array, by_type, validate_property, validate_values,
  require_names, require_fields, validate_members, validate_against_schema, reject_unknown_fields,
}
use joplin_mcp_rust.Tools.Validate.Conforms.{
  Within, type_of, FitsString, FitsInteger, FitsArray, Conforms, a_string, an_integer, a_boolean,
  an_array, Each, done, more, id_pattern, Closed, Present, ConformsTo,
}

-- A schema of one type passes no other type's test.
string_complete :
    (f : Value → ToolResult Unit) (tool name text : String) (schema : Value)
    → FitsString schema text
    → by_type f tool name (string text) schema ≡ ok tt
unfolding by_type validate_string as_str
string_complete f tool name text schema h =
    elim (Option-cases (and_then (get schema "pattern") as_str)) [
      | inl open_pattern ↦ ground arith
      | inr (p, e) ↦ elim (Bool-cases (str_eq p id_pattern)) [
        | inl id ↦ ground (arith, h.pattern_holds (e ∙ ap some ((eq_iff p id_pattern).0 id)))
        | inr other ↦ ground arith
      ]
    ]

integer_complete :
    (f : Value → ToolResult Unit) (tool name : String) (value schema : Value) (n : ℤ)
    → as_i64 value ≡ some n
    → FitsInteger schema n
    → by_type f tool name value schema ≡ ok tt
unfolding by_type validate_integer
integer_complete f tool name value schema n e h = ground arith

boolean_complete :
    (f : Value → ToolResult Unit) (tool name : String) (b : Bool) (schema : Value)
    → type_of schema ≡ some "boolean"
    → by_type f tool name (bool b) schema ≡ ok tt
unfolding by_type as_bool
boolean_complete f tool name b schema h = ground arith

array_complete :
    (f : Value → ToolResult Unit) (tool name : String) (vs : Values) (schema item : Value)
    → FitsArray schema vs item
    → f item ≡ ok tt
    → by_type f tool name (array vs) schema ≡ ok tt
unfolding by_type validate_array as_array
array_complete f tool name vs schema item h accepted = ground arith

integer_property_complete :
    (value : Value) (tool name : String) (schema : Value) (n : ℤ)
    → as_i64 value ≡ some n
    → FitsInteger schema n
    → validate_property tool name value schema ≡ ok tt
unfolding validate_property as_i64
integer_property_complete (number m) tool name schema n e h =
    integer_complete _ tool name (number m) schema n e h
integer_property_complete _ tool name schema n e h = cc

mutual
  unfolding validate_property validate_values

  validate_property_complete :
      {schema value : Value} (tool name : String)
      → Conforms schema value
      → validate_property tool name value schema ≡ ok tt
  validate_property_complete {schema} tool name (a_string {text} h) =
      string_complete _ tool name text schema h
  validate_property_complete {schema} {value} tool name (an_integer {n} e h) =
      integer_property_complete value tool name schema n e h
  validate_property_complete {schema} tool name (a_boolean {b} h) =
      boolean_complete _ tool name b schema h
  validate_property_complete {schema} tool name (an_array {item} {vs} h each) =
      array_complete _ tool name vs schema item h (validate_values_complete tool name each)

  validate_values_complete :
      {item : Value} {vs : Values} (tool name : String)
      → Each item vs
      → validate_values tool name vs item ≡ ok tt
  validate_values_complete tool name done = refl
  validate_values_complete tool name (more c each) =
      rw (validate_property_complete tool name c) (validate_values_complete tool name each)

reject_unknown_fields_complete :
    (tool : String) (fields properties : Members)
    → Closed properties fields
    → reject_unknown_fields tool fields properties ≡ ok tt
unfolding reject_unknown_fields
reject_unknown_fields_complete tool end properties h = refl
reject_unknown_fields_complete tool (member k v ms) properties ((schema, e, c), h) =
    rw e (reject_unknown_fields_complete tool ms properties h)

require_names_complete :
    (tool : String) (fields : Members) (vs : Values)
    → Present fields vs
    → require_names tool fields vs ≡ ok tt
unfolding require_names
require_names_complete tool fields nil h = refl
require_names_complete tool fields (cons v vs) h = elim (Option-cases (as_str v)) [
  | inl skipped ↦ ground (arith, require_names_complete tool fields vs h.1)
  | inr (name, e) ↦
      let (w, found) : (w : Value) × (lookup name fields ≡ some w) = rw e at (h.0) in
      ground (arith, require_names_complete tool fields vs h.1)
]

validate_members_complete :
    (tool : String) (fields properties : Members)
    → Closed properties fields
    → validate_members tool fields properties ≡ ok tt
unfolding validate_members
validate_members_complete tool end properties h = refl
validate_members_complete tool (member k v ms) properties ((schema, e, c), h) =
    rw (e, validate_property_complete tool k c) (validate_members_complete tool ms properties h)

require_fields_complete :
    (tool : String) (fields : Members) (schema : Value)
    → Within (and_then (get schema "required") as_array) (Present fields)
    → require_fields tool fields schema ≡ ok tt
unfolding require_fields
require_fields_complete tool fields schema h =
    elim (Option-cases (and_then (get schema "required") as_array)) [
      | inl absent ↦ ground arith
      | inr (names, e) ↦
          rw (e, require_fields) (require_names_complete tool fields names (rw e at h))
    ]

pub validate_complete :
    (tool : String) (fields : Members) (schema : Value)
    → ConformsTo schema fields
    → validate_against_schema tool (object fields) schema ≡ ok tt
unfolding validate_against_schema as_object
validate_complete tool fields schema h =
    rw
      (
        h.listed,
        reject_unknown_fields_complete tool fields h.properties h.closed,
        require_fields_complete tool fields schema h.present,
      )
      (validate_members_complete tool fields h.properties h.closed)

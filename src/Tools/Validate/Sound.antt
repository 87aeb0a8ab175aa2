-- ===== src/Tools/Validate/Sound.antt =====
-- An input that the validator of crates/joplin-mcpd/src/mcp/tools.rs accepts conforms to the schema.
use joplin_mcp_rust.Prelude.{
  ◌≡◌, refl, ap, true, String, none, some, inl, inr, ok, arith, eq_iff, Bool-cases, Option-cases,
  >>=-eq-ok, is_none, and_then,
}
use joplin_mcp_rust.Json.{
  Value, bool, string, array, object, Values, nil, cons, Members, end, member, get, lookup, as_str,
  as_bool, as_i64, as_array, as_object,
}
use joplin_mcp_rust.Tools.Error.{ToolResult}
use joplin_mcp_rust.Tools.Validate.{
  reject_if, type_is, validate_string, validate_integer, validate_array, by_type, validate_property,
  validate_values, require_names, require_fields, validate_members, validate_against_schema,
  reject_unknown_fields,
}
use joplin_mcp_rust.Tools.Validate.Conforms.{
  Within, type_of, Conforms, a_string, an_integer, a_boolean, an_array, Each, done, more, Closed,
  Present, ConformsTo,
}

type_is_sound :
    (schema : Value) (name : String) → type_is schema name ≡ true → type_of schema ≡ some name
type_is_sound schema name h = elim (Option-cases (type_of schema)) [
  | inl missing ↦ ground arith
  | inr (t, e) ↦ ground (arith, eq_iff t name)
]

validate_string_sound :
    (tool name : String) (value schema : Value)
    → type_of schema ≡ some "string"
    → validate_string tool name value schema ≡ ok tt
    → Conforms schema value
unfolding validate_string as_str
validate_string_sound tool name (string text) schema typed h = a_string (record {
  typed = typed;
  least = ground arith;
  most = ground arith;
  pattern_holds = λ e. ground arith;
})
validate_string_sound tool name _ schema typed h = cc

validate_integer_sound :
    (tool name : String) (value schema : Value)
    → type_of schema ≡ some "integer"
    → validate_integer tool name value schema ≡ ok tt
    → Conforms schema value
unfolding validate_integer
validate_integer_sound tool name value schema typed h = elim (Option-cases (as_i64 value)) [
  | inl missing ↦ ground arith
  | inr (n, e) ↦ an_integer e (record { typed = typed; least = ground arith; most = ground arith })
]

validate_boolean_sound :
    (message : String) (value schema : Value)
    → type_of schema ≡ some "boolean"
    → reject_if (is_none (as_bool value)) message ≡ ok tt
    → Conforms schema value
unfolding as_bool
validate_boolean_sound message (bool b) schema typed h = a_boolean typed
validate_boolean_sound message _ schema typed h = cc

-- What acceptance means where the value is no array: the check of the items is never made.
by_type_sound :
    (f : Value → ToolResult Unit) (tool name : String) (value schema : Value)
    → (type_of schema ≡ some "array"
        → validate_array f tool name value schema ≡ ok tt
        → Conforms schema value)
    → by_type f tool name value schema ≡ ok tt
    → Conforms schema value
unfolding by_type
by_type_sound f tool name value schema on_array h = elim (Bool-cases (type_is schema "string")) [
  | inl s ↦
      validate_string_sound tool name value schema (type_is_sound schema "string" s) (rw s at h)
  | inr s ↦ elim (Bool-cases (type_is schema "integer")) [
    | inl i ↦
        validate_integer_sound tool name value schema (type_is_sound schema "integer" i)
          (rw (s, i) at h)
    | inr i ↦ elim (Bool-cases (type_is schema "boolean")) [
      | inl b ↦
          validate_boolean_sound _ value schema (type_is_sound schema "boolean" b)
            (rw (s, i, b) at h)
      | inr b ↦ elim (Bool-cases (type_is schema "array")) [
        | inl a ↦ on_array (type_is_sound schema "array" a) (rw (s, i, b, a) at h)
        | inr a ↦ ground arith
      ]
    ]
  ]
]

no_array_sound :
    (f : Value → ToolResult Unit) (tool name : String) (value schema : Value)
    → as_array value ≡ none
    → by_type f tool name value schema ≡ ok tt
    → Conforms schema value
unfolding validate_array
no_array_sound f tool name value schema none_there h =
    by_type_sound f tool name value schema (λ typed accepted. ground arith) h

array_sound :
    (f : Value → ToolResult Unit) (tool name : String) (vs : Values) (schema : Value)
    → ((item : Value) → f item ≡ ok tt → Each item vs)
    → type_of schema ≡ some "array"
    → validate_array f tool name (array vs) schema ≡ ok tt
    → Conforms schema (array vs)
unfolding validate_array as_array
array_sound f tool name vs schema ih typed h = elim (Option-cases (get schema "items")) [
  | inl missing ↦ ground arith
  | inr (item, e) ↦
      an_array (record { typed = typed; most = ground arith; items = e }) (ih item (ground arith))
]

mutual
  unfolding validate_property validate_values as_array

  validate_property_sound :
      (value : Value) (tool name : String) (schema : Value)
      → validate_property tool name value schema ≡ ok tt
      → Conforms schema value
  validate_property_sound (array vs) tool name schema h =
      by_type_sound (validate_values tool name vs) tool name (array vs) schema
        (array_sound (validate_values tool name vs) tool name vs schema
          (validate_values_sound vs tool name))
        h
  validate_property_sound value tool name schema h = no_array_sound _ tool name _ schema refl h

  validate_values_sound :
      (vs : Values) (tool name : String) (item : Value)
      → validate_values tool name vs item ≡ ok tt
      → Each item vs
  validate_values_sound nil tool name item h = done
  validate_values_sound (cons v vs) tool name item h =
      let (_, first, rest) = >>=-eq-ok (validate_property tool name v item) _ h in
      more (validate_property_sound v tool name item first)
        (validate_values_sound vs tool name item rest)

validate_members_sound :
    (tool : String) (fields properties : Members)
    → validate_members tool fields properties ≡ ok tt
    → Closed properties fields
unfolding validate_members
validate_members_sound tool end properties h = tt
validate_members_sound tool (member k v ms) properties h =
    elim (Option-cases (lookup k properties)) [
      | inl missing ↦ ground arith
      | inr (schema, e) ↦
          let (_, first, rest) = >>=-eq-ok (validate_property tool k v schema) _ (rw e at h) in
          (
            (schema, e, validate_property_sound v tool k schema first),
            validate_members_sound tool ms properties rest,
          )
    ]

require_names_sound :
    (tool : String) (fields : Members) (vs : Values)
    → require_names tool fields vs ≡ ok tt
    → Present fields vs
unfolding require_names
require_names_sound tool fields nil h = tt
require_names_sound tool fields (cons v vs) h = elim (Option-cases (as_str v)) [
  | inl skipped ↦ ground (arith, require_names_sound tool fields vs)
  | inr (name, e) ↦ elim (Option-cases (lookup name fields)) [
    | inl missing ↦ ground arith
    | inr (w, found) ↦ ((rw e (w, found)), require_names_sound tool fields vs (ground arith))
  ]
]

require_fields_sound :
    (tool : String) (fields : Members) (schema : Value)
    → require_fields tool fields schema ≡ ok tt
    → Within (and_then (get schema "required") as_array) (Present fields)
unfolding require_fields
require_fields_sound tool fields schema h =
    elim (Option-cases (and_then (get schema "required") as_array)) [
      | inl absent ↦ rw absent tt
      | inr (names, e) ↦ rw e (require_names_sound tool fields names (rw (e, require_fields) at h))
    ]

as_object_sound : (v : Value) {ms : Members} → as_object v ≡ some ms → v ≡ object ms
unfolding as_object
as_object_sound (object ms) h = ground arith
as_object_sound _ h = cc

-- The schema's properties, where it has them.
properties_sound :
    (schema : Value) {ps : Members}
    → and_then (get schema "properties") as_object ≡ some ps
    → get schema "properties" ≡ some (object ps)
properties_sound schema {ps} h = elim (Option-cases (get schema "properties")) [
  | inl missing ↦ ground arith
  | inr (v, e) ↦ rw e (ap some (as_object_sound v (rw e at h)))
]

pub validate_sound :
    (tool : String) (fields : Members) (schema : Value)
    → validate_against_schema tool (object fields) schema ≡ ok tt
    → ConformsTo schema fields
unfolding validate_against_schema as_object
validate_sound tool fields schema h =
    elim (Option-cases (and_then (get schema "properties") as_object)) [
      | inl missing ↦ ground arith
      | inr (ps, e) ↦
          let (_, known, rest) = >>=-eq-ok (reject_unknown_fields tool fields ps) _ (rw e at h) in
          let (_, required, rest') = >>=-eq-ok (require_fields tool fields schema) _ rest in
          record {
            properties = ps;
            listed = properties_sound schema e;
            closed = validate_members_sound tool fields ps rest';
            present = require_fields_sound tool fields schema required;
          }
    ]

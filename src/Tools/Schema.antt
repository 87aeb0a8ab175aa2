-- ===== src/Tools/Schema.antt =====
-- The registry of crates/joplin-mcpd/src/mcp/tools.rs, `tool_definitions`: each tool's name, its
-- description and the schema of its input.
use joplin_mcp_rust.Prelude.{ℕ, String, List, [], ◌∷◌, false}
use joplin_mcp_rust.Json.{Value, string, number, bool, array, pos_int, obj, values}

pub record ToolDefinition : Type 0 where
  pub name : String
  pub description : String
  pub input_schema : Value

abbrev num : ℕ → Value
num n = number (pos_int n)

abbrev pub empty_schema : Value
empty_schema =
    obj (
      ("type", string "object")
      ∷ ("properties", obj [])
      ∷ ("additionalProperties", bool false)
      ∷ [])

abbrev pub joplin_id_schema : Value
joplin_id_schema = obj (("type", string "string") ∷ ("pattern", string "^[0-9A-Fa-f]{32}$") ∷ [])

abbrev pub joplin_id_array_schema : Value
joplin_id_array_schema =
    obj (("type", string "array") ∷ ("items", joplin_id_schema) ∷ ("maxItems", num 20) ∷ [])

abbrev pub unix_ms_schema : Value
unix_ms_schema = obj (("type", string "integer") ∷ ("minimum", num 0) ∷ [])

abbrev pub limit_schema : ℕ → ℕ → ℕ → Value
limit_schema minimum maximum default = obj (
    ("type", string "integer")
    ∷ ("minimum", num minimum)
    ∷ ("maximum", num maximum)
    ∷ ("default", num default)
    ∷ [])

abbrev pub cursor_schema : Value
cursor_schema =
    obj (("type", string "string") ∷ ("minLength", num 1) ∷ ("maxLength", num 4096) ∷ [])

abbrev query_schema : Value
query_schema = obj (("type", string "string") ∷ ("minLength", num 1) ∷ ("maxLength", num 1024) ∷ [])

abbrev boolean_schema : Value
boolean_schema = obj (("type", string "boolean") ∷ [])

-- The `json!` literals of the registry, with and without a list of required fields.
abbrev closed : List (String × Value) → Value
closed properties = obj (
    ("type", string "object")
    ∷ ("properties", obj properties)
    ∷ ("additionalProperties", bool false)
    ∷ [])

abbrev closed_with : List (String × Value) → String → Value
closed_with properties required = obj (
    ("type", string "object")
    ∷ ("properties", obj properties)
    ∷ ("required", array (values (string required ∷ [])))
    ∷ ("additionalProperties", bool false)
    ∷ [])

abbrev tool : String → String → Value → ToolDefinition
tool name description schema = record {
  name = name;
  description = description;
  input_schema = schema;
}

abbrev list_notes_schema : Value
list_notes_schema = closed (
    ("notebook_id", joplin_id_schema)
    ∷ ("tag_ids", joplin_id_array_schema)
    ∷ ("updated_after", unix_ms_schema)
    ∷ ("updated_before", unix_ms_schema)
    ∷ ("is_todo", boolean_schema)
    ∷ ("limit", limit_schema 1 100 50)
    ∷ ("cursor", cursor_schema)
    ∷ [])

abbrev search_notes_schema : Value
search_notes_schema =
    closed_with
      (("query", query_schema)
        ∷ ("notebook_id", joplin_id_schema)
        ∷ ("tag_ids", joplin_id_array_schema)
        ∷ ("updated_after", unix_ms_schema)
        ∷ ("updated_before", unix_ms_schema)
        ∷ ("is_todo", boolean_schema)
        ∷ ("limit", limit_schema 1 100 20)
        ∷ ("cursor", cursor_schema)
        ∷ ("limit_body_chars", limit_schema 1 8000 8000)
        ∷ [])
      "query"

abbrev get_note_schema : Value
get_note_schema =
    closed_with
      (("note_id", joplin_id_schema)
        ∷ ("body_cursor", cursor_schema)
        ∷ ("max_body_chars", limit_schema 1 8000 8000)
        ∷ [])
      "note_id"

unfoldable pub tool_definitions : List ToolDefinition
tool_definitions =
    tool "status" "Return JP-MCP read-only status for the authenticated user." empty_schema
    ∷ tool "list_notebooks" "List indexed notebooks for the authenticated user." empty_schema
    ∷ tool "list_notes" "List indexed unencrypted notes for the authenticated user."
        list_notes_schema
    ∷ tool "search_notes" "Search indexed unencrypted notes for the authenticated user."
        search_notes_schema
    ∷ tool "get_note" "Return bounded note body content for one indexed note." get_note_schema
    ∷ tool "get_note_excerpt" "Return a bounded note excerpt for one indexed note." (
        closed_with (("note_id", joplin_id_schema) ∷ ("max_chars", limit_schema 1 2000 2000) ∷ [])
          "note_id")
    ∷ tool "get_recent_notes" "List recent indexed unencrypted notes for the authenticated user."
        (closed (("limit", limit_schema 1 100 20) ∷ ("cursor", cursor_schema) ∷ []))
    ∷ tool "list_tags" "List indexed tags for the authenticated user." empty_schema
    ∷ tool "get_notes_by_tag" "List indexed notes associated with one tag." (
        closed_with
          (("tag_id", joplin_id_schema)
            ∷ ("limit", limit_schema 1 100 50)
            ∷ ("cursor", cursor_schema)
            ∷ [])
          "tag_id")
    ∷ tool "get_notebook_tree" "Return indexed notebooks as a hierarchy." empty_schema
    ∷ tool "get_changes_since" "List indexed notes changed since a unix millisecond timestamp." (
        closed_with
          (("since", unix_ms_schema)
            ∷ ("limit", limit_schema 1 100 100)
            ∷ ("cursor", cursor_schema)
            ∷ [])
          "since")
    ∷ tool "get_note_resources" "Return metadata for resources referenced by one indexed note."
        (closed_with (("note_id", joplin_id_schema) ∷ []) "note_id")
    ∷ []

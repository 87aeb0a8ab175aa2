-- ===== src/Transport/Dispatch.antt =====
-- The tools that are run are the tools that are published.
use joplin_mcp_rust.Prelude.{
  ℕ, ◌≡◌, refl, sym, ap, ◌∙◌, Bool, true, false, ◌||◌, String, List, [], ◌∷◌, map, Option, some, ok,
  str_eq, if◌then◌else◌, is_some, Bool-cases, inl, inr, arith, eq_iff,
}
use joplin_mcp_rust.Json.{Value}
use joplin_mcp_rust.Tools.Error.{ToolResult}
use joplin_mcp_rust.Tools.Schema.{ToolDefinition, tool_definitions}
use joplin_mcp_rust.Tools.Validate.{find_tool}
use joplin_mcp_rust.Tools.Gate.Laws.{is_ok}
use joplin_mcp_rust.Transport.{ToolBackend, run_tool}

-- Tools that all answer with one value.
abbrev pub always : Value → ToolBackend
always value = record {
  status = λ user. ok value;
  list_notebooks = λ user. ok value;
  list_tags = λ user. ok value;
  get_notebook_tree = λ user. ok value;
  list_notes = λ user arguments. ok value;
  search_notes = λ user arguments. ok value;
  get_note = λ user arguments. ok value;
  get_note_excerpt = λ user arguments. ok value;
  get_recent_notes = λ user arguments. ok value;
  get_notes_by_tag = λ user arguments. ok value;
  get_changes_since = λ user arguments. ok value;
  get_note_resources = λ user arguments. ok value;
}

str_eq_comm : (s t : String) → str_eq s t ≡ str_eq t s
str_eq_comm s t = elim (Bool-cases (str_eq s t)) [
  | inl holds ↦
      let equal : s ≡ t = (eq_iff s t).0 holds in
      ap (λ u. str_eq s u) (sym equal) ∙ ap (λ u. str_eq u s) equal
  | inr fails ↦ elim (Bool-cases (str_eq t s)) [
    | inl holds ↦
        let equal : t ≡ s = (eq_iff t s).0 holds in
        ap (λ u. str_eq s u) equal ∙ ap (λ u. str_eq u s) (sym equal)
    | inr also ↦ fails ∙ sym also
  ]
]

abbrev listed : String → List String → Bool
listed name [] = false
listed name (n ∷ names) = str_eq name n || listed name names

find_step :
    (b : Bool) (t : ToolDefinition) (rest : Option ToolDefinition)
    → is_some (if b then some t else rest) ≡ (b || is_some rest)
find_step true t rest = refl
find_step false t rest = refl

find_tool-listed :
    (name : String) (tools : List ToolDefinition)
    → is_some (find_tool name tools) ≡ listed name (map (λ t. t.name) tools)
unfolding find_tool
find_tool-listed name [] = refl
find_tool-listed name (t ∷ tools) =
    rw
      (
        find_step (str_eq t.name name) t (find_tool name tools),
        str_eq_comm t.name name,
        find_tool-listed name tools,
      )
      refl

ok_step :
    (b : Bool) (v : Value) (rest : ToolResult Value)
    → is_ok (if b then ok v else rest) ≡ (b || is_ok rest)
ok_step true v rest = refl
ok_step false v rest = refl

-- The names of `run_tool`, in its order.
abbrev run_names : List String
run_names =
    "status" ∷ "list_notebooks" ∷ "list_tags" ∷ "list_notes" ∷ "search_notes" ∷ "get_note"
    ∷ "get_note_excerpt" ∷ "get_recent_notes" ∷ "get_notes_by_tag" ∷ "get_notebook_tree"
    ∷ "get_changes_since" ∷ "get_note_resources" ∷ []

run_tool-listed :
    (user : ℕ) (name : String) (arguments value : Value)
    → is_ok (run_tool (always value) user name arguments) ≡ listed name run_names
unfolding run_tool
run_tool-listed user name arguments value = simp (ok_step)

move :
    (a b c d e f g h rest : Bool)
    → (a || (b || (h || (c || (d || (e || (f || (g || rest))))))))
      ≡ (a || (b || (c || (d || (e || (f || (g || (h || rest))))))))
move a b c d e f g h rest = ground arith

listed_move :
    (name a b c d e f g h : String) (rest : List String)
    → listed name (a ∷ b ∷ h ∷ c ∷ d ∷ e ∷ f ∷ g ∷ rest)
      ≡ listed name (a ∷ b ∷ c ∷ d ∷ e ∷ f ∷ g ∷ h ∷ rest)
listed_move name a b c d e f g h rest =
    move (str_eq name a) (str_eq name b) (str_eq name c) (str_eq name d) (str_eq name e)
      (str_eq name f) (str_eq name g) (str_eq name h) (listed name rest)

-- The tools that the server runs are the tools that it publishes: with tools that succeed, a name is
-- dispatched exactly if a published definition has it.
pub run_tool-is_published :
    (user : ℕ) (name : String) (arguments value : Value)
    → is_ok (run_tool (always value) user name arguments)
      ≡ is_some (find_tool name tool_definitions)
unfolding tool_definitions
run_tool-is_published user name arguments value =
    run_tool-listed user name arguments value
    ∙ (listed_move name "status" "list_notebooks" "list_notes" "search_notes" "get_note"
          "get_note_excerpt" "get_recent_notes" "list_tags"
          ("get_notes_by_tag" ∷ "get_notebook_tree" ∷ "get_changes_since" ∷ "get_note_resources"
            ∷ [])
        ∙ sym (find_tool-listed name tool_definitions))

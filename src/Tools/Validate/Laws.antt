-- ===== src/Tools/Validate/Laws.antt =====
-- What the validator of crates/joplin-mcpd/src/mcp/tools.rs promises.
use joplin_mcp_rust.Prelude.{
  ℕ, ◌≤◌, ◌≡◌, refl, ap, sym, ◌∙◌, ◌↔◌, ◌⊎◌, inl, inr, String, List, [], ◌∷◌, All, none, some, ok,
  arith, eq_iff, str_eq, Bool-cases, Option-cases, and_then, subst, some_injective,
}
use joplin_mcp_rust.Prelude.Int.{ℤ, pos, negsuc}
use joplin_mcp_rust.Json.{Value, object, Members, end, member, get, lookup, as_i64, as_str}
use joplin_mcp_rust.Tools.Schema.{ToolDefinition, tool_definitions, limit_schema}
use joplin_mcp_rust.Tools.Validate.{validate_against_schema, find_tool, validate_tool_input}
use joplin_mcp_rust.Tools.Validate.Conforms.{
  type_of, FitsInteger, Conforms, a_string, an_integer, a_boolean, an_array, Closed, ConformsTo,
}
use joplin_mcp_rust.Tools.Validate.Sound.{validate_sound}
use joplin_mcp_rust.Tools.Validate.Complete.{validate_complete}

-- The validator accepts an object exactly if the object conforms to the schema: each member is a
-- property of the schema whose value conforms to the property's schema, and each required name is
-- a key.
pub validate-ConformsTo_iff :
    (tool : String) (fields : Members) (schema : Value)
    → (validate_against_schema tool (object fields) schema ≡ ok tt) ↔ ConformsTo schema fields
validate-ConformsTo_iff tool fields schema =
    (validate_sound tool fields schema, validate_complete tool fields schema)

-- The limit of a tool: it has none, or one from 1 to 100.
abbrev HasLimit : ToolDefinition → Type 0
HasLimit t =
    (and_then (get t.input_schema "properties") (λ ps. get ps "limit") ≡ none)
    ⊎ ((d : ℕ) × (and_then (get t.input_schema "properties") (λ ps. get ps "limit")
          ≡ some (limit_schema 1 100 d)))

tools-HasLimit : All HasLimit tool_definitions
unfolding tool_definitions get
tools-HasLimit = (
  inl refl,
  (
    inl refl,
    (
      inr (50, refl),
      (
        inr (20, refl),
        (
          inl refl,
          (
            inl refl,
            (
              inr (20, refl),
              (inl refl, (inr (50, refl), (inl refl, (inr (100, refl), (inl refl, tt))))),
            ),
          ),
        ),
      ),
    ),
  ),
)

find_tool-All :
    (P : ToolDefinition → Type 0) (name : String) (ts : List ToolDefinition) {t : ToolDefinition}
    → All P ts
    → find_tool name ts ≡ some t
    → P t
unfolding find_tool
find_tool-All P name [] h e = cc
find_tool-All P name (u ∷ us) {t} h e = elim (Bool-cases (str_eq u.name name)) [
  | inl found ↦ let same : u ≡ t = ground arith in subst P same h.0
  | inr other ↦ find_tool-All P name us h.1 (ground arith)
]

Closed-lookup :
    (properties fields : Members) (k : String) (v : Value)
    → Closed properties fields
    → lookup k fields ≡ some v
    → (schema : Value) × (lookup k properties ≡ some schema) × Conforms schema v
unfolding lookup
Closed-lookup properties end k v h e = cc
Closed-lookup properties (member j w ms) k v h e = elim (Bool-cases (str_eq j k)) [
  | inl found ↦
      let (schema, listed, fits) = h.0 in
      let same : w ≡ v = ground arith in
      let key : j ≡ k = (eq_iff j k).0 found in
      (schema, rw (← key) listed, subst (Conforms schema) same fits)
  | inr other ↦ Closed-lookup properties ms k v h.1 (ground arith)
]

Conforms-integer :
    {schema v : Value}
    → Conforms schema v
    → type_of schema ≡ some "integer"
    → (n : ℤ) × (as_i64 v ≡ some n) × FitsInteger schema n
Conforms-integer (a_string h) typed = ground (arith, h.typed, eq_iff "string" "integer")
Conforms-integer (an_integer {n} e h) typed = (n, e, h)
Conforms-integer (a_boolean e) typed = ground (arith, eq_iff "boolean" "integer")
Conforms-integer (an_array h each) typed = ground (arith, h.typed, eq_iff "array" "integer")

FitsInteger-limit :
    (d : ℕ) (n : ℤ)
    → FitsInteger (limit_schema 1 100 d) n
    → (m : ℕ) × (n ≡ pos m) × (1 ≤ m) × (m ≤ 100)
unfolding get as_i64
FitsInteger-limit d (pos m) h = (m, refl, omega (arith, h.least), omega (arith, h.most))
FitsInteger-limit d (negsuc m) h = absurd (omega (arith, h.least))

Conforms-limit :
    (d : ℕ) {v : Value}
    → Conforms (limit_schema 1 100 d) v
    → (n : ℕ) × (as_i64 v ≡ some (pos n)) × (1 ≤ n) × (n ≤ 100)
unfolding get as_str
Conforms-limit d {v} c =
    let (n, e, fits) = Conforms-integer c refl in
    let (m, same, low, high) = FitsInteger-limit d n fits in (m, e ∙ ap some same, low, high)

ConformsTo-limit :
    (t : ToolDefinition) (ms : Members) (v : Value)
    → HasLimit t
    → ConformsTo t.input_schema ms
    → lookup "limit" ms ≡ some v
    → (n : ℕ) × (as_i64 v ≡ some (pos n)) × (1 ≤ n) × (n ≤ 100)
unfolding get
ConformsTo-limit t ms v h c e =
    let (schema, listed, fits) = Closed-lookup c.properties ms "limit" v c.closed e in
    elim h [
      | inl absent ↦ cc (rw c.listed at absent)
      | inr (d, there) ↦
          let there' : lookup "limit" c.properties ≡ some (limit_schema 1 100 d) =
            rw c.listed at there in
          let same : schema ≡ limit_schema 1 100 d = some_injective (sym listed ∙ there') in
          Conforms-limit d (subst (λ s. Conforms s v) same fits)
    ]

-- An input that a tool accepts and that has a limit has one from 1 to 100, whatever the tool.
pub validate_tool_input-limit :
    (name : String) (input v : Value)
    → validate_tool_input name input ≡ ok tt
    → get input "limit" ≡ some v
    → (n : ℕ) × (as_i64 v ≡ some (pos n)) × (1 ≤ n) × (n ≤ 100)
unfolding validate_tool_input get
validate_tool_input-limit name (object ms) v h e =
    elim (Option-cases (find_tool name tool_definitions)) [
      | inl missing ↦ ground arith
      | inr (t, found) ↦
          ConformsTo-limit t ms v
            (find_tool-All HasLimit name tool_definitions tools-HasLimit found)
            (validate_sound t.name ms t.input_schema (rw (found, validate_tool_input) at h)) e
    ]
validate_tool_input-limit name _ v h e = cc

-- ===== src/Tools/Ilike/Laws.antt =====
-- The fallback search finds the texts that contain the query as it is.
use joplin_mcp_rust.Prelude.{
  both, or_true, ℕ, ◌≡◌, refl, sym, ap, ◌∙◌, subst, ◌↔◌, ◌==◌, ==_iff, Bool, true, false, ◌||◌,
  List, [], ◌∷◌, ◌++◌, map, map-append, Bool-cases, inl, inr, arith, is_empty,
}
use joplin_mcp_rust.Tools.Ilike.{
  is_special, ilike_escape_char, escape_ilike_pattern, fallback_pattern, any_text, literal, parts,
  some_suffix, matches_parts, like,
}

plain_char :
    (c : ℕ)
    → (c == ilike_escape_char || c == b'%' || c == b'_') ≡ false
    → ((c == ilike_escape_char) ≡ false) × ((c == b'%') ≡ false) × ((c == b'_') ≡ false)
plain_char c h = ground arith

-- An escaped query is its characters, whatever they are.
parts-escape :
    (value : List ℕ)
    → parts false (escape_ilike_pattern value ++ (b'%' ∷ [])) ≡ map literal value ++ (any_text ∷ [])
unfolding parts escape_ilike_pattern
parts-escape [] = refl
parts-escape (ch ∷ value) =
    let rest = parts-escape value in
    elim (Bool-cases (ch == ilike_escape_char || ch == b'%' || ch == b'_')) [
      | inl special ↦ rw (escape_ilike_pattern, special, rest) refl
      | inr plain ↦
          let (no_escape, no_percent, no_line) = plain_char ch plain in
          rw (escape_ilike_pattern, plain, parts, no_escape, no_percent, no_line, rest) refl
    ]

some_suffix_sound :
    (p : List ℕ → Bool) (text : List ℕ)
    → some_suffix p text ≡ true
    → (before rest : List ℕ) × (text ≡ before ++ rest) × (p rest ≡ true)
some_suffix_sound p [] h = ([], [], refl, h)
some_suffix_sound p (c ∷ text) h = elim (Bool-cases (p (c ∷ text))) [
  | inl holds ↦ ([], c ∷ text, refl, holds)
  | inr fails ↦
      let (before, rest, splits, holds) = some_suffix_sound p text (rw fails at h) in
      (c ∷ before, rest, ap (λ t. c ∷ t) splits, holds)
]

some_suffix_complete :
    (p : List ℕ → Bool) (before rest : List ℕ)
    → p rest ≡ true
    → some_suffix p (before ++ rest) ≡ true
some_suffix_complete p [] [] h = h
some_suffix_complete p [] (c ∷ rest) h = rw h refl
some_suffix_complete p (b ∷ before) rest h = or_true _ _ (some_suffix_complete p before rest h)

literals_sound :
    (value text : List ℕ)
    → matches_parts (map literal value ++ (any_text ∷ [])) text ≡ true
    → (after : List ℕ) × (text ≡ value ++ after)
unfolding matches_parts
literals_sound [] text h = (text, refl)
literals_sound (v ∷ value) [] h = absurd cc
literals_sound (v ∷ value) (c ∷ text) h =
    let (head, tail) = both (v == c) _ h in
    let (after, splits) = literals_sound value text tail in
    let same : v ≡ c = (==_iff v c).0 head in
    (after, ap (λ t. c ∷ t) splits ∙ ap (λ x. x ∷ (value ++ after)) (sym same))

any_suffix_empty : (text : List ℕ) → some_suffix is_empty text ≡ true
any_suffix_empty [] = refl
any_suffix_empty (c ∷ text) = any_suffix_empty text

literals_complete :
    (value after : List ℕ)
    → matches_parts (map literal value ++ (any_text ∷ [])) (value ++ after) ≡ true
unfolding matches_parts
literals_complete [] after = any_suffix_empty after
literals_complete (v ∷ value) after = rw ((==_iff v v).1 refl) (literals_complete value after)

-- The pattern of a text finds exactly what contains the text, character by character.
contains_iff :
    (value text : List ℕ)
    → (matches_parts (parts false (fallback_pattern value)) text ≡ true)
      ↔ ((before after : List ℕ) × (text ≡ before ++ (value ++ after)))
unfolding parts matches_parts
contains_iff value text = (
  λ h.
      let (before, rest, splits, matched) =
        some_suffix_sound (matches_parts (parts false (escape_ilike_pattern value ++ (b'%' ∷ []))))
          text h in
      let (after, contains) = literals_sound value rest (rw (parts-escape value) at matched) in
      (before, after, splits ∙ ap (λ t. before ++ t) contains),
  λ found.
      subst (λ t. matches_parts (parts false (fallback_pattern value)) t ≡ true) (sym (found.2))
        (some_suffix_complete
          (matches_parts (parts false (escape_ilike_pattern value ++ (b'%' ∷ [])))) (found.0)
          (value ++ found.1) (rw (parts-escape value) (literals_complete value (found.1)))),
)

-- Lower case of the database keeps the special characters, and makes no other character one.
abbrev pub KeepsSpecial : (ℕ → ℕ) → Type 0
KeepsSpecial lower =
    (c : ℕ) → (is_special (lower c) ≡ is_special c) × (is_special c ≡ true → lower c ≡ c)

map-escape :
    (lower : ℕ → ℕ) (value : List ℕ)
    → KeepsSpecial lower
    → map lower (escape_ilike_pattern value) ≡ escape_ilike_pattern (map lower value)
unfolding escape_ilike_pattern
map-escape lower [] keeps = refl
map-escape lower (ch ∷ value) keeps =
    let rest = map-escape lower value keeps in
    let (same_kind, fixed) = keeps ch in
    elim (Bool-cases (is_special ch)) [
      | inl special ↦
          let escape_fixed : lower ilike_escape_char ≡ ilike_escape_char =
            (keeps ilike_escape_char).1 refl in
          rw (escape_ilike_pattern, special, escape_ilike_pattern, same_kind ∙ special)
            (ap (λ e. e ∷ lower ch ∷ map lower (escape_ilike_pattern value)) escape_fixed
              ∙ ap (λ l. ilike_escape_char ∷ lower ch ∷ l) rest)
      | inr plain ↦
          rw (escape_ilike_pattern, plain, escape_ilike_pattern, same_kind ∙ plain)
            (ap (λ l. lower ch ∷ l) rest)
    ]

map-fallback :
    (lower : ℕ → ℕ) (value : List ℕ)
    → KeepsSpecial lower
    → map lower (fallback_pattern value) ≡ fallback_pattern (map lower value)
map-fallback lower value keeps =
    let percent_fixed : lower b'%' ≡ b'%' = (keeps b'%').1 refl in
    ap (λ c. c ∷ map lower (escape_ilike_pattern value ++ (b'%' ∷ []))) percent_fixed
    ∙ ap (λ l. b'%' ∷ l)
        (map-append lower (escape_ilike_pattern value) (b'%' ∷ [])
          ∙ ap (λ l. l ++ (lower b'%' ∷ [])) (map-escape lower value keeps)
          ∙ ap (λ c. escape_ilike_pattern (map lower value) ++ (c ∷ [])) percent_fixed)

-- The pattern of the fallback search matches a text exactly if the text, in lower case, contains the
-- query in lower case, also where the query has `%`, `_` or the escape character. The database's lower
-- case goes character by character, leaves these three alone and makes no other character one of them.
pub fallback_pattern-like_iff :
    (lower : ℕ → ℕ) (value text : List ℕ)
    → KeepsSpecial lower
    → (like lower (fallback_pattern value) text ≡ true)
      ↔ ((before after : List ℕ) × (map lower text ≡ before ++ (map lower value ++ after)))
unfolding like
fallback_pattern-like_iff lower value text keeps =
    subst
      (λ pattern.
        (matches_parts (parts false pattern) (map lower text) ≡ true)
        ↔ ((before after : List ℕ) × (map lower text ≡ before ++ (map lower value ++ after))))
      (sym (map-fallback lower value keeps)) (contains_iff (map lower value) (map lower text))

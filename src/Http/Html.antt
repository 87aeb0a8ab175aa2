-- ===== src/Http/Html.antt =====
-- `html_escape` of crates/joplin-mcpd/src/http.rs, which puts a token into the page of a login.
use joplin_mcp_rust.Prelude.{
  All-append, ℕ, ◌==◌, ◌≢◌, List, [], ◌∷◌, ◌++◌, if◌then◌else◌, chars, All, arith, Bool-cases, inl,
  inr, ◌≡◌, refl, ◌||◌, false,
}

abbrev pub escape_char : ℕ → List ℕ
escape_char character =
    if character == b'&'
    then chars "&amp;"
    else if character == b'<'
    then chars "&lt;"
    else if character == b'>'
    then chars "&gt;"
    else if character == b'"'
    then chars "&quot;"
    else if character == 39
    then chars "&#39;"
    else character ∷ []

unfoldable pub html_escape : List ℕ → List ℕ
html_escape [] = []
html_escape (character ∷ value) = escape_char character ++ html_escape value

-- No character that opens or closes a tag or a quoted attribute.
abbrev pub IsInert : ℕ → Type 0
IsInert c = (c ≢ b'<') × (c ≢ b'>') × (c ≢ b'"') × (c ≢ 39)

apart : (c d : ℕ) → (c == d) ≡ false → c ≢ d
apart c d h = ground arith

inert_text :
    (c : ℕ)
    → (c == b'<') ≡ false
    → (c == b'>') ≡ false
    → (c == b'"') ≡ false
    → (c == 39) ≡ false
    → IsInert c
inert_text c lt gt quote tick =
    (apart c b'<' lt, apart c b'>' gt, apart c b'"' quote, apart c 39 tick)

known : (c : ℕ) → (c == b'<' || c == b'>' || c == b'"' || c == 39) ≡ false → IsInert c
known c h = ground arith

escape_char-IsInert : (character : ℕ) → All IsInert (escape_char character)
escape_char-IsInert character = elim (Bool-cases (character == b'&')) [
  | inl holds ↦
      rw holds (known _ refl, (known _ refl, (known _ refl, (known _ refl, (known _ refl, tt)))))
  | inr no_amp ↦ elim (Bool-cases (character == b'<')) [
    | inl holds ↦
        rw (no_amp, holds) (known _ refl, (known _ refl, (known _ refl, (known _ refl, tt))))
    | inr no_lt ↦ elim (Bool-cases (character == b'>')) [
      | inl holds ↦
          rw (no_amp, no_lt, holds)
            (known _ refl, (known _ refl, (known _ refl, (known _ refl, tt))))
      | inr no_gt ↦ elim (Bool-cases (character == b'"')) [
        | inl holds ↦
            rw (no_amp, no_lt, no_gt, holds)
              (
                known _ refl,
                (known _ refl, (known _ refl, (known _ refl, (known _ refl, (known _ refl, tt))))),
              )
        | inr no_quote ↦ elim (Bool-cases (character == 39)) [
          | inl holds ↦
              rw (no_amp, no_lt, no_gt, no_quote, holds)
                (known _ refl, (known _ refl, (known _ refl, (known _ refl, (known _ refl, tt)))))
          | inr no_tick ↦
              rw (no_amp, no_lt, no_gt, no_quote, no_tick)
                (inert_text character no_lt no_gt no_quote no_tick, tt)
        ]
      ]
    ]
  ]
]

-- The escaped text has no character that opens or closes a tag or a quoted attribute, whatever the
-- text is.
pub html_escape-IsInert : (value : List ℕ) → All IsInert (html_escape value)
unfolding html_escape
html_escape-IsInert [] = tt
html_escape-IsInert (character ∷ value) =
    All-append IsInert (escape_char character) (html_escape value) (escape_char-IsInert character)
      (html_escape-IsInert value)

-- ===== src/Tools/Truncate/Laws.antt =====
-- Truncation at characters: what a page holds, and that the pages of a text make up the text.
use joplin_mcp_rust.Prelude.{
  ℕ, zero, suc, ◌+◌, ◌-◌, ◌≤◌, ◌<◌, ◌≡◌, refl, ◌∙◌, ap, Bool-cases, inl, inr, concat, length-drop,
  take_all, ltb→lt, subst, take-append-drop, true, false, List, [], ◌∷◌, ◌++◌, Option, none, some,
  ltb, if◌then◌else◌, len_utf8, map_option, take, drop, length, arith,
}
use mathlib.Core.List.{append_assoc, append-nil}
use joplin_mcp_rust.Tools.Truncate.{
  TruncatedText, size, from_offset, up_to, slice, scan, truncate_text_at_chars,
}

len_utf8-pos : (c : ℕ) → 0 < len_utf8 c
len_utf8-pos c = ground arith

size-append : (xs ys : List ℕ) → size (xs ++ ys) ≡ size xs + size ys
unfolding size
size-append [] ys = omega arith
size-append (c ∷ xs) ys = omega (arith, size-append xs ys)

from_offset-append : (xs ys : List ℕ) → from_offset (size xs) (xs ++ ys) ≡ some ys
unfolding from_offset size
from_offset-append [] [] = refl
from_offset-append [] (y ∷ ys) = ground arith
from_offset-append (c ∷ xs) ys =
    let same : len_utf8 c + size xs - len_utf8 c ≡ size xs = omega arith in
    rw same (ground (arith, len_utf8-pos c, from_offset-append xs ys))

up_to-append : (xs ys : List ℕ) → up_to (size xs) (xs ++ ys) ≡ some xs
unfolding up_to size
up_to-append [] [] = refl
up_to-append [] (y ∷ ys) = ground arith
up_to-append (c ∷ xs) ys =
    let same : len_utf8 c + size xs - len_utf8 c ≡ size xs = omega arith in
    rw same (ground (arith, len_utf8-pos c, up_to-append xs ys))

slice-append :
    (xs ys zs : List ℕ) → slice (xs ++ (ys ++ zs)) (size xs) (size xs + size ys) ≡ some ys
unfolding slice
slice-append xs ys zs =
    let same : size xs + size ys - size xs ≡ size ys = omega arith in
    rw (same, from_offset-append xs (ys ++ zs)) (ground (arith, up_to-append ys zs))

-- Before the start the loop only advances.
scan-skip :
    (xs ys : List ℕ) (offset start most end : ℕ)
    → offset + size xs ≡ start
    → scan (xs ++ ys) offset start most 0 end ≡ scan ys start start most 0 end
unfolding scan size
scan-skip [] ys offset start most end e = let same : offset ≡ start = omega arith in rw same
scan-skip (c ∷ xs) ys offset start most end e =
    ground
      (arith, len_utf8-pos c, scan-skip xs ys (offset + len_utf8 c) start most end (omega arith))

-- From the start on, the loop takes the characters that are left to take, and reports the offset
-- behind them if the text goes on.
scan-take :
    (ys : List ℕ) (left offset start most chars : ℕ)
    → start ≤ offset
    → chars + left ≡ most
    → scan ys offset start most chars offset ≡ (
      offset + size (take left ys),
      if ltb left (length ys) then some (offset + size (take left ys)) else none,
    )
unfolding scan size
scan-take [] zero offset start most chars later within = ground arith
scan-take [] (suc left) offset start most chars later within = ground arith
scan-take (c ∷ ys) zero offset start most chars later within = ground arith
scan-take (c ∷ ys) (suc left) offset start most chars later within =
    let regroup : (offset + len_utf8 c) + size (take left ys)
        ≡ offset + (len_utf8 c + size (take left ys)) =
      omega arith in
    ground (
      arith,
      regroup,
      scan-take ys left (offset + len_utf8 c) start most (chars + 1) (omega arith) (omega arith),
    )

-- The page at a character boundary.
abbrev pub page : List ℕ → List ℕ → ℕ → TruncatedText
page xs ys most = record {
  value = take most ys;
  truncated = ltb most (length ys);
  next_offset = if ltb most (length ys) then some (size xs + size (take most ys)) else none;
}

scan_page :
    (xs ys : List ℕ) (most : ℕ)
    → scan (xs ++ ys) 0 (size xs) most 0 (size xs) ≡ (
      size xs + size (take most ys),
      if ltb most (length ys) then some (size xs + size (take most ys)) else none,
    )
scan_page xs ys most =
    scan-skip xs ys 0 (size xs) most (size xs) (omega arith)
    ∙ scan-take ys most (size xs) (size xs) most 0 (omega arith) (omega arith)

slice_page :
    (xs ys : List ℕ) (most : ℕ)
    → slice (xs ++ ys) (size xs) (size xs + size (take most ys)) ≡ some (take most ys)
slice_page xs ys most =
    subst (λ zs. slice (xs ++ zs) (size xs) (size xs + size (take most ys)) ≡ some (take most ys))
      (take-append-drop most ys) (slice-append xs (take most ys) (drop most ys))

-- From a character boundary the truncation does not panic. It gives the next characters up to the
-- limit, says whether text is left, and if so gives the boundary behind them.
pub truncate_text_at_chars-page :
    (xs ys : List ℕ) (most : ℕ)
    → truncate_text_at_chars (xs ++ ys) (size xs) most ≡ some (page xs ys most)
unfolding truncate_text_at_chars
truncate_text_at_chars-page xs ys most =
    rw (scan_page xs ys most) (ground (arith, slice_page xs ys most))

-- A reader of a text: it asks for the text at 0 and then at each offset that a page gives.
pub pages : ℕ → List ℕ → ℕ → ℕ → Option (List (List ℕ))
pages zero text start_offset max_chars = none
pages (suc fuel) text start_offset max_chars =
    elim (truncate_text_at_chars text start_offset max_chars) [
      | none ↦ none
      | some t ↦ elim t.next_offset [
        | none ↦ some (t.value ∷ [])
        | some next ↦ map_option (λ ps. t.value ∷ ps) (pages fuel text next max_chars)
      ]
    ]

pages_last :
    (fuel : ℕ) (xs ys : List ℕ) (most : ℕ)
    → ltb most (length ys) ≡ false
    → pages (suc fuel) (xs ++ ys) (size xs) most ≡ some (take most ys ∷ [])
unfolding pages
pages_last fuel xs ys most whole = rw (truncate_text_at_chars-page xs ys most, pages) (rw whole)

pages_more :
    (fuel : ℕ) (xs ys : List ℕ) (most : ℕ)
    → ltb most (length ys) ≡ true
    → pages (suc fuel) (xs ++ ys) (size xs) most
      ≡ map_option
          (λ ps. take most ys ∷ ps)
          (pages fuel (xs ++ ys) (size xs + size (take most ys)) most)
unfolding pages
pages_more fuel xs ys most more = rw (truncate_text_at_chars-page xs ys most, pages) (rw more)

pages_from :
    (fuel : ℕ) (xs ys : List ℕ) (most : ℕ)
    → 0 < most
    → length ys < fuel
    → (ps : List (List ℕ)) × (pages fuel (xs ++ ys) (size xs) most ≡ some ps) × (concat ps ≡ ys)
pages_from zero xs ys most positive enough = absurd (omega arith)
pages_from (suc fuel) xs ys most positive enough = elim (Bool-cases (ltb most (length ys))) [
  | inl more ↦
      let less : length (drop most ys) < fuel =
        omega (arith, length-drop most ys, ltb→lt most (length ys) more) in
      let (ps, again, whole) =
        pages_from fuel (xs ++ take most ys) (drop most ys) most positive less in
      let joined : (xs ++ take most ys) ++ drop most ys ≡ xs ++ ys =
        append_assoc xs (take most ys) (drop most ys)
        ∙ ap (λ zs. xs ++ zs) (take-append-drop most ys) in
      let again' : pages fuel (xs ++ ys) (size xs + size (take most ys)) most ≡ some ps =
        rw (joined, size-append xs (take most ys)) at again in
      (
        take most ys ∷ ps,
        pages_more fuel xs ys most more ∙ ap (map_option _) again',
        ap (λ zs. take most ys ++ zs) whole ∙ take-append-drop most ys,
      )
  | inr last ↦
      let all_taken : take most ys ≡ ys = take_all most ys (ground arith) in
      (take most ys ∷ [], pages_last fuel xs ys most last, append-nil (take most ys) ∙ all_taken)
]

-- With a positive page size, reading a text from the start by the offsets that the pages give
-- ends, after no more pages than the text has characters and one, and the pages joined in order
-- are the text.
pub pages-concat :
    (text : List ℕ) (most : ℕ)
    → 0 < most
    → (ps : List (List ℕ)) × (pages (length text + 1) text 0 most ≡ some ps) × (concat ps ≡ text)
unfolding size
pages-concat text most positive = pages_from (length text + 1) [] text most positive (omega arith)

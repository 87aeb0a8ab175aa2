-- ===== src/Prelude/Order.antt =====
-- The order of texts by their code points, which is the order of their UTF-8 bytes.
use Prim.Native.Nat.{ℕ}
use mathlib.Core.Path.{◌≡◌, refl}
use mathlib.Core.Logic.{inl, inr}
use mathlib.Core.Bool.{Bool, true, false, ◌&&◌, ◌||◌}
use mathlib.Core.List.{List, [], ◌∷◌}
use native.Mathlib.Omega.{arith}
use joplin_mcp_rust.Prelude.Tests.{ltb, ◌==◌, Bool-cases}

unfoldable pub text_ltb : List ℕ → List ℕ → Bool
text_ltb [] [] = false
text_ltb [] (d ∷ t) = true
text_ltb (c ∷ s) [] = false
text_ltb (c ∷ s) (d ∷ t) = ltb c d || (c == d && text_ltb s t)

pub text_ltb_irrefl : (s : List ℕ) → text_ltb s s ≡ false
unfolding text_ltb
text_ltb_irrefl [] = refl
text_ltb_irrefl (c ∷ s) = let rest = text_ltb_irrefl s in ground arith

pub text_ltb_trans :
    (s t u : List ℕ) → text_ltb s t ≡ true → text_ltb t u ≡ true → text_ltb s u ≡ true
unfolding text_ltb
text_ltb_trans [] [] u h k = absurd cc
text_ltb_trans [] (d ∷ t) [] h k = absurd cc
text_ltb_trans [] (d ∷ t) (e ∷ u) h k = refl
text_ltb_trans (c ∷ s) [] u h k = absurd cc
text_ltb_trans (c ∷ s) (d ∷ t) [] h k = absurd cc
text_ltb_trans (c ∷ s) (d ∷ t) (e ∷ u) h k = let rest = text_ltb_trans s t u in ground arith

pub text_ltb_total : (s t : List ℕ) → text_ltb s t ≡ false → text_ltb t s ≡ false → s ≡ t
unfolding text_ltb
text_ltb_total [] [] h k = refl
text_ltb_total [] (d ∷ t) h k = absurd cc
text_ltb_total (c ∷ s) [] h k = absurd cc
text_ltb_total (c ∷ s) (d ∷ t) h k =
    let same_head : c ≡ d = ground arith in
    let same_rest : s ≡ t = text_ltb_total s t (ground arith) (ground arith) in cc

pub text_ltb_asym : (s t : List ℕ) → text_ltb s t ≡ true → text_ltb t s ≡ false
text_ltb_asym s t h = elim (Bool-cases (text_ltb t s)) [
  | inl back ↦
      let loop : text_ltb s s ≡ true = text_ltb_trans s t s h back in
      let never : text_ltb s s ≡ false = text_ltb_irrefl s in absurd cc
  | inr forth ↦ forth
]

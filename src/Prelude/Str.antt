-- ===== src/Prelude/Str.antt =====
-- Go's strings: equality, and the byte-wise order of `<`, which for UTF-8 is that of code points.
use Prim.Native.Nat.{ℕ}
use Prim.Native.Char.{Char, code}
use Prim.Native.String.{String}
use mathlib.Core.Path.{◌≡◌, refl, ap₂}
use mathlib.Core.HLevel.{hedberg}
use mathlib.Core.Logic.{inl, inr}
use mathlib.Core.Bool.{Bool, true, false}
use mathlib.Core.List.{List, [], ◌∷◌}
use native.Mathlib.Omega.{arith}
pub use text.Mathlib.Text.{◌==◌ as str_eq}
pub use text.Mathlib.TextEquality.{eq_iff as str_eq_iff}
use text.Mathlib.TextEquality.{codes_equal}
use flare_p_chain_indexer.Prelude.Tests.{Bool-cases, ltb, ◌==◌, if◌then◌else◌}
use flare_p_chain_indexer.Prelude.Order.{LinearOrder}

pub String-set : IsSet String
String-set = hedberg λ s t. elim (Bool-cases (str_eq s t)) [
  | inl same ↦ yes ((str_eq_iff s t).0 same)
  | inr differ ↦ no (λ e. cc ((str_eq_iff s t).1 e))
]

abbrev pub codes : String → List ℕ
codes String.[] = []
codes (String.◌∷◌ c s) = code c ∷ codes s

unfoldable pub lex_le : List ℕ → List ℕ → Bool
lex_le [] ys = true
lex_le (x ∷ xs) [] = false
lex_le (x ∷ xs) (y ∷ ys) =
    let rest = lex_le xs ys in if ltb x y then true else if x == y then rest else false

lex_le_total : (xs ys : List ℕ) → lex_le xs ys ≡ false → lex_le ys xs ≡ true
unfolding lex_le
lex_le_total [] ys h = cc
lex_le_total (x ∷ xs) [] h = refl
lex_le_total (x ∷ xs) (y ∷ ys) h = ground (arith, lex_le_total xs ys)

lex_le_trans : (xs ys zs : List ℕ) → lex_le xs ys ≡ true → lex_le ys zs ≡ true → lex_le xs zs ≡ true
unfolding lex_le
lex_le_trans [] ys zs h k = refl
lex_le_trans (x ∷ xs) [] zs h k = cc
lex_le_trans (x ∷ xs) (y ∷ ys) [] h k = cc
lex_le_trans (x ∷ xs) (y ∷ ys) (z ∷ zs) h k = ground (arith, lex_le_trans xs ys zs)

lex_le_antisymm : (xs ys : List ℕ) → lex_le xs ys ≡ true → lex_le ys xs ≡ true → xs ≡ ys
unfolding lex_le
lex_le_antisymm [] [] h k = refl
lex_le_antisymm [] (y ∷ ys) h k = cc
lex_le_antisymm (x ∷ xs) [] h k = cc
lex_le_antisymm (x ∷ xs) (y ∷ ys) h k = ground (arith, lex_le_antisymm xs ys)

char_eq : (c d : Char) → code c ≡ code d → c ≡ d
char_eq c d e = codes_equal c d (ground arith)

codes-injective : (s t : String) → codes s ≡ codes t → s ≡ t
codes-injective String.[] String.[] e = refl
codes-injective String.[] (String.◌∷◌ d t) e = cc
codes-injective (String.◌∷◌ c s) String.[] e = cc
codes-injective (String.◌∷◌ c s) (String.◌∷◌ d t) e =
    ap₂ String.◌∷◌ (char_eq c d (cc e)) (codes-injective s t (cc e))

unfoldable pub str_order : LinearOrder String
unfolding lex_le lex_le_total lex_le_trans char_eq codes-injective lex_le_antisymm
str_order = record {
  le = λ s t. lex_le (codes s) (codes t);
  total = λ s t. lex_le_total (codes s) (codes t);
  trans = λ s t u. lex_le_trans (codes s) (codes t) (codes u);
  antisymm = λ s t h k. codes-injective s t (lex_le_antisymm (codes s) (codes t) h k);
}

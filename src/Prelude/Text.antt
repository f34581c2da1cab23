-- ===== src/Prelude/Text.antt =====
-- A Go string is a sequence of bytes. Literals are written as native strings (all ASCII).
use Prim.Native.Nat.{ℕ}
use Prim.Native.Char.{code}
use Prim.Native.String.{String}
use mathlib.Core.Path.{◌≡◌, refl, ap₂}
use mathlib.Core.List.{List, [], ◌∷◌}
use mathlib.Core.Bool.{Bool, true, false}
use native.Mathlib.Omega.{arith}
use native.Mathlib.Decide.{ℕ_discrete}

abbrev pub Text : Type 0
Text = List ℕ

abbrev pub codes : String → Text
codes String.[] = []
codes (String.◌∷◌ c s) = code c ∷ codes s

unfoldable pub dec_text : Discrete Text
unfolding ℕ_discrete
dec_text [] [] = yes refl
dec_text [] (y ∷ ys) = no (λ e. cc)
dec_text (x ∷ xs) [] = no (λ e. cc)
dec_text (x ∷ xs) (y ∷ ys) = elim (ℕ_discrete x y) [
  | yes p ↦ elim (dec_text xs ys) [ yes q ↦ yes (ap₂ ◌∷◌ p q) | no q ↦ no (λ e. q (cc)) ]
  | no p ↦ no (λ e. p (cc))
]

-- `a == b` of Go strings.
abbrev pub text_eq : Text → Text → Bool
text_eq a b = elim (dec_text a b) [ yes _ ↦ true | no _ ↦ false ]

text_eq_example : text_eq (codes "ok") (codes "ok") ≡ true
unfolding dec_text
text_eq_example = refl

pub text_eq_of_eq : (a b : Text) → a ≡ b → text_eq a b ≡ true
text_eq_of_eq a b h = ground arith

pub text_eq_of_ne : (a b : Text) → ¬ (a ≡ b) → text_eq a b ≡ false
text_eq_of_ne a b h = ground arith

pub eq_of_text_eq : (a b : Text) → text_eq a b ≡ true → a ≡ b
eq_of_text_eq a b h = ground arith

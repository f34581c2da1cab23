-- ===== src/Prelude/Strings.antt =====
-- Go's `strings` package on byte sequences, as far as the program calls it.
pub mod Laws
use Prim.Native.Nat.{ℕ, ◌+◌, ◌-◌, ◌*◌}
use mathlib.Core.List.{List, [], ◌∷◌, ◌++◌, map}
use mathlib.Core.Bool.{Bool, true, false, ◌&&◌, ◌||◌}
use mathlib.Core.Option.{Option, none, some}
use p2p_gossip_lb.Prelude.Tests.{leb, ltb, ◌==◌, if◌then◌else◌}
use p2p_gossip_lb.Prelude.Text.{Text, text_eq}

-- `strings.ToLower` on ASCII. Other letters do not occur in what is compared with ASCII literals,
-- but for the two non-ASCII letters whose lower case is ASCII.
abbrev lower : ℕ → ℕ
lower c = if leb b'A' c && leb c b'Z' then c + 32 else c

unfoldable pub to_lower : Text → Text
to_lower = map lower

unfoldable pub has_prefix : Text → Text → Bool
has_prefix s [] = true
has_prefix [] (p ∷ ps) = false
has_prefix (c ∷ s) (p ∷ ps) = c == p && has_prefix s ps

unfoldable pub contains : Text → Text → Bool
unfolding has_prefix
contains [] part = has_prefix [] part
contains (c ∷ s) part = has_prefix (c ∷ s) part || contains s part

-- The text in front of the first place at which the rest is `suffix`: `strings.TrimSuffix`, with
-- `none` where `strings.HasSuffix` is false.
unfoldable pub cut_suffix : Text → Text → Option Text
cut_suffix [] suffix = if text_eq [] suffix then some [] else none
cut_suffix (c ∷ s) suffix =
    let rest = cut_suffix s suffix in
    if text_eq (c ∷ s) suffix
    then some []
    else elim rest [ none ↦ none | some front ↦ some (c ∷ front) ]

unfoldable pub trim_suffix : Text → Text → Text
unfolding cut_suffix
trim_suffix s suffix = elim (cut_suffix s suffix) [ none ↦ s | some front ↦ front ]

abbrev pub cons_first : ℕ → List Text → List Text
cons_first c [] = (c ∷ []) ∷ []
cons_first c (part ∷ parts) = (c ∷ part) ∷ parts

-- `strings.Split` at a separator of one byte; there is one part at least
unfoldable pub split : ℕ → Text → List Text
split sep [] = [] ∷ []
split sep (c ∷ s) = let rest = split sep s in if c == sep then [] ∷ rest else cons_first c rest

abbrev pub is_space : ℕ → Bool
is_space c = c == 32 || (leb 9 c && leb c 13)

-- A text without the bytes at its front, at its end, and at both, that a test picks out.
unfoldable pub trim_left : (ℕ → Bool) → Text → Text
trim_left p [] = []
trim_left p (c ∷ s) = let rest = trim_left p s in if p c then rest else c ∷ s

unfoldable pub trim_right : (ℕ → Bool) → Text → Text
trim_right p [] = []
trim_right p (c ∷ s) =
    let rest = trim_right p s in
    elim rest [ [] ↦ (if p c then [] else c ∷ []) | x ∷ xs ↦ c ∷ x ∷ xs ]

unfoldable pub trim : (ℕ → Bool) → Text → Text
unfolding trim_left trim_right
trim p s = trim_right p (trim_left p s)

-- `strings.TrimSpace`, for texts with ASCII spaces
unfoldable pub trim_space : Text → Text
unfolding trim
trim_space s = trim is_space s

-- `strings.IndexByte(s, c) >= 0`
unfoldable pub has_byte : ℕ → Text → Bool
has_byte c [] = false
has_byte c (x ∷ s) = x == c || has_byte c s

-- What stands before and after the first such byte, and before the last one.
unfoldable pub cut : ℕ → Text → Option (Text × Text)
cut c [] = none
cut c (x ∷ s) =
    let rest = cut c s in
    if x == c then some ([], s) else elim rest [ none ↦ none | some (a, b) ↦ some (x ∷ a, b) ]

unfoldable pub before_last : ℕ → Text → Option Text
before_last c [] = none
before_last c (x ∷ s) =
    let rest = before_last c s in
    elim rest [ some front ↦ some (x ∷ front) | none ↦ (if x == c then some [] else none) ]

abbrev pub is_digit : ℕ → Bool
is_digit c = leb b'0' c && leb c b'9'

-- The value of a text of decimal digits, if it is one.
unfoldable pub digits_value : ℕ → Text → Option ℕ
digits_value n [] = some n
digits_value n (c ∷ s) =
    let rest = digits_value (10 * n + (c - b'0')) s in if is_digit c then rest else none

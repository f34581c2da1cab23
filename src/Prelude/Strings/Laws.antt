-- ===== src/Prelude/Strings/Laws.antt =====
-- Cutting and splitting texts, undone by joining them again.
use Prim.Native.Nat.{ℕ}
use mathlib.Core.Path.{◌≡◌, refl, ap}
use mathlib.Core.Logic.{inl, inr}
use mathlib.Core.List.{List, [], ◌∷◌, ◌++◌}
use mathlib.Core.Option.{some}
use native.Mathlib.Omega.{arith}
use p2p_gossip_lb.Prelude.Tests.{◌==◌, Bool-cases, Option-cases}
use p2p_gossip_lb.Prelude.Text.{text_eq_of_ne, text_eq_of_eq, Text, text_eq, eq_of_text_eq}
use mathlib.Core.Bool.{false}
use p2p_gossip_lb.Prelude.Lists.{length, length-append}
use p2p_gossip_lb.Prelude.Strings.{trim_suffix, cut_suffix, split, cons_first, has_byte}

pub cut_suffix-append :
    (s suffix front : Text) → cut_suffix s suffix ≡ some front → s ≡ front ++ suffix
unfolding cut_suffix
cut_suffix-append [] suffix front h = ground (arith, eq_of_text_eq [] suffix)
cut_suffix-append (c ∷ s) suffix front h = elim (Bool-cases (text_eq (c ∷ s) suffix)) [
  | inl whole ↦ ground (arith, eq_of_text_eq (c ∷ s) suffix whole)
  | inr longer ↦ elim (Option-cases (cut_suffix s suffix)) [
    | inl e ↦ ground (arith, longer, e)
    | inr (f, e) ↦ ground (arith, longer, e, cut_suffix-append s suffix f e)
  ]
]

-- the parts with the separator between them
abbrev pub join : ℕ → List Text → Text
join sep [] = []
join sep (p ∷ []) = p
join sep (p ∷ q ∷ ps) = p ++ sep ∷ join sep (q ∷ ps)

join-cons_first :
    (sep c : ℕ) (parts : List Text) → join sep (cons_first c parts) ≡ c ∷ join sep parts
join-cons_first sep c [] = refl
join-cons_first sep c (p ∷ []) = refl
join-cons_first sep c (p ∷ q ∷ ps) = refl

pub split-cons : (sep : ℕ) (s : Text) → (p : Text) × (ps : List Text) × (split sep s ≡ p ∷ ps)
unfolding split
split-cons sep [] = ([], [], refl)
split-cons sep (c ∷ s) =
    let (p, ps, e) = split-cons sep s in
    elim (Bool-cases (c == sep)) [
      | inl at ↦ rw at ([], split sep s, refl)
      | inr off ↦ rw (off, e) (c ∷ p, ps, refl)
    ]

pub join-split : (sep : ℕ) (s : Text) → join sep (split sep s) ≡ s
unfolding split
join-split sep [] = refl
join-split sep (c ∷ s) =
    let (p, ps, e) = split-cons sep s in
    let ih : join sep (p ∷ ps) ≡ s = rw e at (join-split sep s) in
    elim (Bool-cases (c == sep)) [
      | inl at ↦ let same : c ≡ sep = ground (arith, at) in rw (at, e) (rw (ih, same) refl)
      | inr off ↦ rw (off, e) (rw (join-cons_first sep c (p ∷ ps)) (ap (◌∷◌ c) ih))
    ]

longer : (c : ℕ) (a z : Text) → text_eq (c ∷ a ++ z) z ≡ false
longer c a z = text_eq_of_ne (c ∷ a ++ z) z (λ e. omega (arith, ap length e, length-append a z))

-- What stands in front of a suffix is cut free of it.
pub append-cut_suffix : (a z : Text) → cut_suffix (a ++ z) z ≡ some a
unfolding cut_suffix
append-cut_suffix [] [] = ground arith
append-cut_suffix [] (c ∷ z) = ground (arith, text_eq_of_eq (c ∷ z) (c ∷ z) refl)
append-cut_suffix (c ∷ a) z = rw (longer c a z, append-cut_suffix a z) refl

-- A part without the separator is split off.
pub split-append :
    (sep : ℕ) (a b : Text) → has_byte sep a ≡ false → split sep (a ++ sep ∷ b) ≡ a ∷ split sep b
unfolding split has_byte
split-append sep [] b h = ground arith
split-append sep (c ∷ a) b h = ground (arith, split-append sep a b)

pub split_whole : (sep : ℕ) (a : Text) → has_byte sep a ≡ false → split sep a ≡ a ∷ []
unfolding split has_byte
split_whole sep [] h = refl
split_whole sep (c ∷ a) h = ground (arith, split_whole sep a)

pub append-trim_suffix : (a z : Text) → trim_suffix (a ++ z) z ≡ a
unfolding trim_suffix
append-trim_suffix a z = ground (arith, append-cut_suffix a z)

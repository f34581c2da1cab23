-- ===== src/Prelude/Sort.antt =====
-- `sort.Strings`: the ascending order of texts by their bytes. The result of sorting does not depend
-- on the order of the input, which for the keys of a Go map is any order.
use mathlib.Core.Path.{◌≡◌, refl, ap, sym, ◌∙◌}
use mathlib.Core.Logic.{◌⊎◌, inl, inr}
use mathlib.Core.List.{List, [], ◌∷◌, foldr, Perm}
use mathlib.Core.List.Perm
use mathlib.Core.Bool.{Bool, true, false}
use native.Mathlib.Omega.{arith}
use p2p_gossip_lb.Prelude.Tests.{ltb, if◌then◌else◌}
use p2p_gossip_lb.Prelude.Text.{Text}

-- `a <= b` of Go strings
unfoldable pub text_le : Text → Text → Bool
text_le [] b = true
text_le (x ∷ a) [] = false
text_le (x ∷ a) (y ∷ b) =
    let rest = text_le a b in if ltb x y then true else if ltb y x then false else rest

text_le_total : (a b : Text) → (text_le a b ≡ true) ⊎ (text_le b a ≡ true)
unfolding text_le
text_le_total [] b = inl refl
text_le_total (x ∷ a) [] = inr refl
text_le_total (x ∷ a) (y ∷ b) = ground (arith, text_le_total a b)

text_le_antisymm : (a b : Text) → text_le a b ≡ true → text_le b a ≡ true → a ≡ b
unfolding text_le
text_le_antisymm [] [] h k = refl
text_le_antisymm [] (y ∷ b) h k = cc
text_le_antisymm (x ∷ a) [] h k = cc
text_le_antisymm (x ∷ a) (y ∷ b) h k = ground (arith, text_le_antisymm a b)

text_le_trans : (a b c : Text) → text_le a b ≡ true → text_le b c ≡ true → text_le a c ≡ true
unfolding text_le
text_le_trans [] b c h k = refl
text_le_trans (x ∷ a) [] c h k = cc
text_le_trans (x ∷ a) (y ∷ b) [] h k = cc
text_le_trans (x ∷ a) (y ∷ b) (z ∷ c) h k = ground (arith, text_le_trans a b c)

unfoldable pub insert : Text → List Text → List Text
insert x [] = x ∷ []
insert x (y ∷ ys) = let rest = insert x ys in if text_le x y then x ∷ y ∷ ys else y ∷ rest

unfoldable pub sort : List Text → List Text
unfolding insert
sort [] = []
sort (x ∷ xs) = insert x (sort xs)

insert_comm : (x y : Text) (l : List Text) → insert x (insert y l) ≡ insert y (insert x l)
unfolding insert
insert_comm x y [] = ground (arith, text_le_total x y, text_le_antisymm x y)
insert_comm x y (z ∷ l) = ground (
  arith,
  insert_comm x y l,
  text_le_total x y,
  text_le_antisymm x y,
  text_le_trans x y z,
  text_le_trans y x z,
  text_le_total x z,
  text_le_total y z,
  text_le_trans x z y,
  text_le_trans y z x,
)

sort-foldr : (l : List Text) → sort l ≡ foldr insert [] l
unfolding sort
sort-foldr [] = refl
sort-foldr (x ∷ l) = ap (insert x) (sort-foldr l)

-- Sorting forgets the order.
pub sort-perm : {xs ys : List Text} → Perm xs ys → sort xs ≡ sort ys
sort-perm {xs} {ys} p =
    sort-foldr xs ∙ Perm.foldr-eq (hlevel) insert insert_comm p [] ∙ sym (sort-foldr ys)

-- ===== src/Prelude/Lists.antt =====
-- Lists measured and indexed by native numbers, and predicates on their elements.
use Prim.Native.Nat.{ℕ, zero, suc, ◌+◌}
use mathlib.Core.Path.{ap, refl, ◌≡◌}
use mathlib.Core.List.{map, List, [], ◌∷◌, ◌++◌}
use mathlib.Core.Logic.{◌⊎◌, inl, inr}
use p2p_gossip_lb.Prelude.Tests.{Bool-cases}
use mathlib.Core.Bool.{Bool, true, false}
use mathlib.Core.Option.{Option, none, some}
use native.Mathlib.Omega.{arith}

module _ {ℓ} {A : Type ℓ} where
  abbrev pub length : List A → ℕ
  length [] = 0
  length (x ∷ xs) = suc (length xs)

  abbrev pub get_elem? : List A → ℕ → Option A
  get_elem? [] i = none
  get_elem? (x ∷ xs) zero = some x
  get_elem? (x ∷ xs) (suc i) = get_elem? xs i

  pub length-append : (xs ys : List A) → length (xs ++ ys) ≡ length xs + length ys
  length-append [] ys = omega arith
  length-append (x ∷ xs) ys = omega (arith, length-append xs ys)

  -- The elements that pass a test, in order: a Go loop that appends what it does not `continue` over.
  abbrev pub keep : (A → Bool) → List A → List A
  keep p [] = []
  keep p (x ∷ xs) = let rest = keep p xs in elim (p x) [ true ↦ x ∷ rest | false ↦ rest ]

  -- `x` stands in the list.
  abbrev pub In : A → List A → Type ℓ
  In x [] = ¬ Unit {ℓ}
  In x (y ∷ ys) = (x ≡ y) ⊎ In x ys

abbrev pub All {ℓ κ} : {A : Type ℓ} → (A → Type κ) → List A → Type κ
All P [] = Unit
All P (x ∷ xs) = P x × All P xs

pub length-map {ℓ ℓ'} :
    {A : Type ℓ} {B : Type ℓ'} (f : A → B) (xs : List A) → length (map f xs) ≡ length xs
length-map f [] = refl
length-map f (x ∷ xs) = ap suc (length-map f xs)

pub In-keep {ℓ} :
    {A : Type ℓ} (p : A → Bool) (xs : List A) (x : A) → In x (keep p xs) → In x xs × (p x ≡ true)
In-keep p [] x h = absurd (h tt)
In-keep p (y ∷ xs) x h = elim (Bool-cases (p y)) [
  | inl e ↦ grind (arith, In-keep p xs x)
  | inr e ↦ grind (arith, In-keep p xs x)
]

All-keep_first {ℓ κ} :
    {A : Type ℓ} (Q : A → Type κ) (b : Bool) (x : A) (rest : List A)
    → (b ≡ true → Q x)
    → All Q rest
    → All Q (elim b [ true ↦ x ∷ rest | false ↦ rest ])
All-keep_first Q true x rest h k = (h refl, k)
All-keep_first Q false x rest h k = k

pub All-keep {ℓ κ} :
    {A : Type ℓ} (P : A → Type κ) (p : A → Bool) (xs : List A)
    → All P xs
    → All (λ x. P x × (p x ≡ true)) (keep p xs)
All-keep P p [] h = tt
All-keep P p (x ∷ xs) h =
    All-keep_first (λ y. P y × (p y ≡ true)) (p x) x (keep p xs) (λ e. (h.0, e))
      (All-keep P p xs h.1)

pub All-weaken {ℓ κ μ} :
    {A : Type ℓ} (P : A → Type κ) (Q : A → Type μ)
    → ((x : A) → P x → Q x)
    → (xs : List A) → All P xs
    → All Q xs
All-weaken P Q sub [] h = tt
All-weaken P Q sub (x ∷ xs) h = (sub x h.0, All-weaken P Q sub xs h.1)

-- ===== src/GoMap.antt =====
-- Go's `map[K]V`, as an association list. A Go `range` visits the entries in any order: here it
-- is the order of the list, and the laws below say what does not depend on it.
use p2p_gossip_lb.Prelude.{◌≡◌, refl, Option, none, some, List, [], ◌∷◌, ◌++◌, arith, ite}

-- The entries of a map, in the order in which a `range` visits them.
abbrev pub GoMap {ℓ} : Type ℓ → Type ℓ → Type ℓ
GoMap K V = List (K × V)

module _ {ℓ} {K V : Type ℓ} (dec : Discrete K) where
  -- v, ok := m[k]
  unfoldable pub get : K → GoMap K V → Option V
  get k [] = none
  get k ((j, v) ∷ m) = ite (dec j k) (some v) (get k m)

  -- m[k] = v
  unfoldable pub put : K → V → GoMap K V → GoMap K V
  put k v [] = (k, v) ∷ []
  put k v ((j, w) ∷ m) = ite (dec j k) ((j, v) ∷ m) ((j, w) ∷ put k v m)

  -- delete(m, k)
  unfoldable pub delete : K → GoMap K V → GoMap K V
  delete k [] = []
  delete k ((j, w) ∷ m) = let rest = delete k m in ite (dec j k) rest ((j, w) ∷ rest)

  -- No key stands twice.
  abbrev pub IsMap : GoMap K V → Type ℓ
  IsMap [] = Unit {ℓ}
  IsMap ((k, v) ∷ m) = (get k m ≡ none) × IsMap m

  pub get-put :
      (k j : K) (v : V) (m : GoMap K V) → get j (put k v m) ≡ ite (dec k j) (some v) (get j m)
  unfolding get put
  get-put k j v [] = refl
  get-put k j v ((i, w) ∷ m) = ground (arith, get-put k j v m)

  pub get-delete : (k j : K) (m : GoMap K V) → get j (delete k m) ≡ ite (dec k j) none (get j m)
  unfolding get delete
  get-delete k j [] = ground arith
  get-delete k j ((i, w) ∷ m) = ground (arith, get-delete k j m)

  pub put-IsMap : (k : K) (v : V) (m : GoMap K V) → IsMap m → IsMap (put k v m)
  unfolding get put
  put-IsMap k v [] h = ground arith
  put-IsMap k v ((i, w) ∷ m) h = ground (arith, put-IsMap k v m h.1, get-put k i v m)

  delete-IsMap : (k : K) (m : GoMap K V) → IsMap m → IsMap (delete k m)
  unfolding get delete
  delete-IsMap k [] h = tt
  delete-IsMap k ((i, w) ∷ m) h = ground (arith, delete-IsMap k m h.1, get-delete k i m)

  pub get-delete_self : (k : K) (m : GoMap K V) → get k (delete k m) ≡ none
  get-delete_self k m = ground (arith, get-delete k k m)

  get-put_self : (k : K) (v : V) (m : GoMap K V) → get k (put k v m) ≡ some v
  get-put_self k v m = ground (arith, get-put k k v m)

  pub delete_absent : (k : K) (m : GoMap K V) → get k m ≡ none → delete k m ≡ m
  unfolding get delete
  delete_absent k [] h = refl
  delete_absent k ((j, w) ∷ m) h = ground (arith, delete_absent k m)

  pub get-append :
      (k : K) (xs ys : GoMap K V)
      → get k (xs ++ ys) ≡ elim (get k xs) [ none ↦ get k ys | some v ↦ some v ]
  unfolding get
  get-append k [] ys = refl
  get-append k ((j, w) ∷ xs) ys = ground (arith, get-append k xs ys)

  -- An entry that is taken out and appended is found as before.
  pub get-move :
      (k j : K) (v : V) (m : GoMap K V)
      → get k m ≡ some v
      → get j (delete k m ++ (k, v) ∷ []) ≡ get j m
  unfolding get
  get-move k j v m h = ground (arith, get-append j (delete k m) ((k, v) ∷ []), get-delete k j m)

-- ===== src/Cache/LruStore.antt =====
-- github.com/hashicorp/golang-lru/v2 is not part of the repository: what `ResponseCache` uses of it
-- is a parameter, with the behaviour that its documentation states.
use p2p_gossip_lb.Prelude.{
  ℕ, ◌≡◌, Option, none, some, List, [], ◌∷◌, ◌++◌, length, leb, if◌then◌else◌,
}
use p2p_gossip_lb.Prelude.Text.{Text, dec_text}
use p2p_gossip_lb.GoMap
use p2p_gossip_lb.GoMap.{GoMap, IsMap}

-- Past the capacity the oldest entry goes.
abbrev pub trim {ℓ} : {A : Type ℓ} → ℕ → List A → List A
trim capacity [] = []
trim capacity (x ∷ xs) = if leb (length (x ∷ xs)) capacity then x ∷ xs else xs

pub record Lru (V : Type 0) : Type 1 where
  pub Store : Type 0
  pub new : ℕ → Store
  pub peek : Store → Text → Option V
  pub get : Store → Text → Store × Option V
  pub add : Store → Text → V → Store
  pub remove : Store → Text → Store
  pub remove_oldest : Store → Store × Option (Text × V)
  pub purge : Store → Store
  -- the entries, the least recently used first, and the capacity
  pub entries : Store → GoMap Text V
  pub capacity : Store → ℕ
  pub entries-new : (n : ℕ) → entries (new n) ≡ []
  pub capacity-new : (n : ℕ) → capacity (new n) ≡ n
  pub peek_lem : (s : Store) (k : Text) → peek s k ≡ GoMap.get dec_text k (entries s)
  -- `Get` returns the value and makes the entry the most recent
  pub get-value : (s : Store) (k : Text) → (get s k).1 ≡ GoMap.get dec_text k (entries s)
  pub entries-get_miss :
      (s : Store) (k : Text)
      → GoMap.get dec_text k (entries s) ≡ none
      → entries (get s k).0 ≡ entries s
  pub entries-get_hit :
      (s : Store) (k : Text) (v : V)
      → GoMap.get dec_text k (entries s) ≡ some v
      → entries (get s k).0 ≡ GoMap.delete dec_text k (entries s) ++ (k, v) ∷ []
  -- `Add` puts the entry in as the most recent, and evicts the oldest past the capacity
  pub entries-add :
      (s : Store) (k : Text) (v : V)
      → entries (add s k v) ≡ trim (capacity s) (GoMap.delete dec_text k (entries s) ++ (k, v) ∷ [])
  pub entries-remove :
      (s : Store) (k : Text) → entries (remove s k) ≡ GoMap.delete dec_text k (entries s)
  pub remove_oldest_empty : (s : Store) → entries s ≡ [] → remove_oldest s ≡ (s, none)
  pub remove_oldest_value :
      (s : Store) (x : Text × V) (rest : GoMap Text V)
      → entries s ≡ x ∷ rest
      → (remove_oldest s).1 ≡ some x
  pub entries-remove_oldest :
      (s : Store) (x : Text × V) (rest : GoMap Text V)
      → entries s ≡ x ∷ rest
      → entries (remove_oldest s).0 ≡ rest
  pub entries-purge : (s : Store) → entries (purge s) ≡ []
  pub capacity-get : (s : Store) (k : Text) → capacity (get s k).0 ≡ capacity s
  pub capacity-add : (s : Store) (k : Text) (v : V) → capacity (add s k v) ≡ capacity s
  pub capacity-remove : (s : Store) (k : Text) → capacity (remove s k) ≡ capacity s
  pub capacity-remove_oldest : (s : Store) → capacity (remove_oldest s).0 ≡ capacity s
  pub capacity-purge : (s : Store) → capacity (purge s) ≡ capacity s

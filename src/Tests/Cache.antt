-- ===== src/Tests/Cache.antt =====
-- A concrete LRU store, and runs of pkg/cache/cache.go over it.
use p2p_gossip_lb.Prelude.{
  true, ℕ, ◌+◌, ◌≤◌, ◌≡◌, refl, Option, none, some, List, [], ◌∷◌, ◌++◌, arith, ite,
}
use p2p_gossip_lb.Prelude.Int.{pos}
use p2p_gossip_lb.Prelude.Text.{Text, codes, dec_text}
use p2p_gossip_lb.GoMap
use p2p_gossip_lb.GoMap.{GoMap}
use p2p_gossip_lb.Cache.LruStore.{Lru, trim}
use p2p_gossip_lb.Cache.Responses.{Entry}
use p2p_gossip_lb.Cache.{ResponseCache, evict_loop, store, lookup}
use p2p_gossip_lb.Cache.Termination.{evict_loop_enough}
use p2p_gossip_lb.Cache.Budget.{Accounts, total}
use p2p_gossip_lb.Cache.Storing.{store_within_budget}
use p2p_gossip_lb.Cache.Reads.{kept, get-lookup}
use p2p_gossip_lb.Cache.Drift.{IsDead, full_cache_drifts}

abbrev pub Slots : Type 0 → Type 0
Slots V = GoMap Text V × ℕ

abbrev pub touch : {V : Type 0} → GoMap Text V → Text → Option V → GoMap Text V
touch l k none = l
touch l k (some v) = GoMap.delete dec_text k l ++ (k, v) ∷ []

abbrev pub tail {ℓ} : {A : Type ℓ} → List A → List A
tail [] = []
tail (x ∷ xs) = xs

abbrev pub head {ℓ} : {A : Type ℓ} → List A → Option A
head [] = none
head (x ∷ xs) = some x

pub empty-removed :
    (s : Slots Entry)
    → s.0 ≡ []
    → ◌≡◌ {A = Slots Entry × Option (Text × Entry)} ((tail s.0, s.1), head s.0) (s, none)
empty-removed ([], n) e = refl
empty-removed (x ∷ xs, n) e = cc

pub oldest-removed :
    (l : GoMap Text Entry) (x : Text × Entry) (rest : GoMap Text Entry)
    → l ≡ x ∷ rest
    → head l ≡ some x
oldest-removed l x rest e = rw e refl

pub rest-removed :
    (l : GoMap Text Entry) (x : Text × Entry) (rest : GoMap Text Entry)
    → l ≡ x ∷ rest
    → tail l ≡ rest
rest-removed l x rest e = rw e refl

-- A list, the oldest entry first, with its capacity.
abbrev pub list_lru : Lru Entry
list_lru = record {
  Store = Slots Entry;
  new = λ n. ([], n);
  peek = λ s k. GoMap.get dec_text k s.0;
  get = λ s k. ((touch s.0 k (GoMap.get dec_text k s.0), s.1), GoMap.get dec_text k s.0);
  add = λ s k v. (trim s.1 (GoMap.delete dec_text k s.0 ++ (k, v) ∷ []), s.1);
  remove = λ s k. (GoMap.delete dec_text k s.0, s.1);
  remove_oldest = λ s. ((tail s.0, s.1), head s.0);
  purge = λ s. ([], s.1);
  entries = λ s. s.0;
  capacity = λ s. s.1;
  entries-new = λ n. refl;
  capacity-new = λ n. refl;
  peek_lem = λ s k. refl;
  get-value = λ s k. refl;
  entries-get_miss = λ s k e. rw e refl;
  entries-get_hit = λ s k v e. rw e refl;
  entries-add = λ s k v. refl;
  entries-remove = λ s k. refl;
  remove_oldest_empty = empty-removed;
  remove_oldest_value = λ s x rest e. oldest-removed s.0 x rest e;
  entries-remove_oldest = λ s x rest e. rest-removed s.0 x rest e;
  entries-purge = λ s. refl;
  capacity-get = λ s k. refl;
  capacity-add = λ s k v. refl;
  capacity-remove = λ s k. refl;
  capacity-remove_oldest = λ s. refl;
  capacity-purge = λ s. refl;
}

abbrev pub page : ℕ → Entry
page n = record {
  status = pos 200;
  header = none;
  body = [];
  stored_at = pos 1;
  expires_at = pos 9;
  size = n;
}

-- One entry of 6 bytes, with room for one, and a budget of 10.
abbrev pub full : ResponseCache list_lru
full = record { store = ((codes "a", page 6) ∷ [], 1); max_bytes = pos 10; current_bytes = pos 6 }

full-Accounts : Accounts list_lru full 6
full-Accounts = record { current = refl; covers = omega arith }

store_within_budget_example :
    ((bytes : ℕ) × Accounts list_lru (store list_lru full (codes "b") (some (page 7))) bytes)
    × (total (store list_lru full (codes "b") (some (page 7))).store.0 ≤ 10)
store_within_budget_example =
    store_within_budget list_lru full 6 10 (codes "b") (page 7) (omega arith) (omega arith) refl
      full-Accounts

get-lookup_example :
    GoMap.get dec_text (codes "a") (lookup list_lru full (codes "a") (pos 10)).0.store.0
    ≡ ite
        (dec_text (codes "a") (codes "a"))
        (kept (pos 10) (GoMap.get dec_text (codes "a") full.store.0))
        (GoMap.get dec_text (codes "a") full.store.0)
get-lookup_example = get-lookup list_lru full (codes "a") (codes "a") (pos 10)

missing : GoMap.get dec_text (codes "b") full.store.0 ≡ none
unfolding GoMap.get dec_text
missing = refl

full_cache_drifts_example :
    ((store list_lru full (codes "b") (some (page 2))).store.0 ≡ (codes "b", page 2) ∷ [])
    × ((store list_lru full (codes "b") (some (page 2))).current_bytes ≡ pos 8)
    × (total (store list_lru full (codes "b") (some (page 2))).store.0 + 6 ≡ 8)
full_cache_drifts_example =
    full_cache_drifts list_lru full 6 10 (codes "b") (codes "a") (page 2) (page 6) [] refl refl
      missing refl refl refl (omega arith) (omega arith) (omega arith)

abbrev dead : ResponseCache list_lru
dead = record { store = ([], 1); max_bytes = pos 10; current_bytes = pos 12 }

dead-IsDead : IsDead list_lru dead 12 10
dead-IsDead = record {
  empty = refl;
  counted = refl;
  limit = refl;
  over = omega arith;
  positive = omega arith;
  room = omega arith;
}

evict_loop_enough_example :
    ((evict_loop list_lru 2 (codes "b") full).1 ≡ true)
    × (evict_loop list_lru 2 (codes "b") full ≡ evict_loop list_lru 9 (codes "b") full)
evict_loop_enough_example =
    evict_loop_enough list_lru 2 9 (codes "b") full (omega arith) (omega arith)

-- ===== src/Cache.antt =====
-- pkg/cache/cache.go: the response cache of the proxy, over the LRU store of a library.
pub mod LruStore
pub mod Responses
pub mod Budget
pub mod Storing
pub mod Drift
pub mod Reads
pub mod Contents
pub mod Kept
pub mod Termination
use p2p_gossip_lb.Prelude.{
  ℕ, zero, suc, ◌+◌, Bool, true, false, not, ◌&&◌, Option, none, some, List, [], ◌∷◌, length,
  is_some, if◌then◌else◌,
}
use p2p_gossip_lb.Prelude.Int.{ℤ, pos, pos_part, ltb_ℤ, leb_ℤ, ◌+ℤ◌, ◌-ℤ◌, int64}
use p2p_gossip_lb.Prelude.Text.{Text, text_eq}
use p2p_gossip_lb.Prelude.Time.{Time, is_zero, before}
use p2p_gossip_lb.Cache.LruStore.{Lru}
use p2p_gossip_lb.Cache.Responses.{Entry, clone}

module _ (lru : Lru Entry) where
  pub record ResponseCache : Type 0 where
    pub store : lru.Store
    pub max_bytes : ℤ  -- int64
    pub current_bytes : ℤ  -- int64

  unfoldable pub new_response_cache : ℤ → ℤ → Option ResponseCache
  new_response_cache capacity max_bytes =
      if leb_ℤ capacity (pos 0)
      then none
      else some (record {
        store = lru.new (pos_part capacity);
        max_bytes = max_bytes;
        current_bytes = pos 0;
      })

  -- `currentBytes -= existing.Size`, where there is such an entry
  abbrev pub without : ResponseCache → Option Entry → ℤ
  without c none = c.current_bytes
  without c (some existing) = int64 (c.current_bytes -ℤ pos existing.size)

  -- The loop that evicts, on fuel: the cache, and whether the loop has ended by itself, which it has
  -- not where the fuel is used up.
  pub evict_loop : ℕ → Text → ResponseCache → ResponseCache × Bool
  evict_loop zero key c = (c, false)
  evict_loop (suc fuel) key c =
      let (s, oldest) = lru.remove_oldest c.store in
      elim (ltb_ℤ c.max_bytes c.current_bytes) [
        | false ↦ (c, true)
        | true ↦ elim oldest [
          | none ↦ (record c { store = s }, true)
          | some (k, evicted) ↦
              let c' = record c {
                store = s;
                current_bytes = int64 (c.current_bytes -ℤ pos evicted.size);
              } in
              elim (text_eq k key) [ true ↦ (c', true) | false ↦ evict_loop fuel key c' ]
        ]
      ]

  -- `Store`; a nil entry is ignored
  unfoldable pub store : ResponseCache → Text → Option Entry → ResponseCache
  store c key none = c
  store c key (some entry) =
      let added = record c {
        store = lru.add c.store key entry;
        current_bytes = int64 (without c (lru.peek c.store key) +ℤ pos entry.size);
      } in
      if ltb_ℤ (pos 0) added.max_bytes
      then (evict_loop (suc (length (lru.entries added.store))) key added).0
      else added

  unfoldable pub delete : ResponseCache → Text → ResponseCache
  delete c key = record c {
    store = lru.remove c.store key;
    current_bytes = without c (lru.peek c.store key);
  }

  abbrev pub has_expired : Entry → Time → Bool
  has_expired entry now = not (is_zero entry.expires_at) && before entry.expires_at now

  lookup_found : ResponseCache → Text → Time → Option Entry → ResponseCache × Option Entry
  lookup_found c key now none = (c, none)
  lookup_found c key now (some entry) =
      if has_expired entry now then (delete c key, none) else (c, some (clone entry))

  -- `Lookup`, which makes the entry the most recently used
  unfoldable pub lookup : ResponseCache → Text → Time → ResponseCache × Option Entry
  unfolding lookup_found delete clone
  lookup c key now =
      let (s, found) = lru.get c.store key in lookup_found (record c { store = s }) key now found

  pub purge : ResponseCache → ResponseCache
  purge c = record c { store = lru.purge c.store; current_bytes = pos 0 }

  abbrev byte_size : ResponseCache → ℤ
  byte_size c = c.current_bytes

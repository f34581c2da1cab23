-- ===== src/Cache/Drift.antt =====
-- `Add` evicts past the capacity without telling `currentBytes`: the counter drifts above what is
-- stored, and once it has drifted past the budget nothing is ever stored again.
use p2p_gossip_lb.Prelude.{
  ℕ, suc, ◌+◌, ◌^◌, ◌≤◌, ◌<◌, ◌≡◌, refl, sym, ap, ◌∙◌, true, false, none, some, List, [], ◌∷◌, ◌++◌,
  arith, All, length, length-append,
}
use p2p_gossip_lb.Prelude.Int.{pos, ltb_ℤ, int64_add, int64_sub}
use p2p_gossip_lb.Prelude.Text.{Text, dec_text, text_eq_of_eq}
use p2p_gossip_lb.GoMap
use p2p_gossip_lb.GoMap.{GoMap, delete_absent}
use p2p_gossip_lb.Cache.LruStore.{Lru, trim}
use p2p_gossip_lb.Cache.Responses.{Entry}
use p2p_gossip_lb.Cache.{ResponseCache, store}
use p2p_gossip_lb.Cache.Budget.{total, total-append, evict_next, evict_stop}
use p2p_gossip_lb.Cache.Storing.{added, store-evict_loop}

module _ (lru : Lru Entry) where
  -- Nothing is stored, and the counter is past the budget.
  pub record IsDead (c : ResponseCache lru) (n max : ℕ) : Type 0 where
    pub empty : lru.entries c.store ≡ []
    pub counted : c.current_bytes ≡ pos n
    pub limit : c.max_bytes ≡ pos max
    pub over : max < n
    pub positive : 0 < max
    pub room : 0 < lru.capacity c.store

  entries-added :
      (c : ResponseCache lru) (key : Text) (entry : Entry)
      → lru.entries c.store ≡ []
      → 0 < lru.capacity c.store
      → lru.entries (added lru c key entry).store ≡ (key, entry) ∷ []
  unfolding GoMap.delete
  entries-added c key entry empty room =
      rw (lru.entries-add c.store key entry, empty) (ground arith)

  current-added :
      (c : ResponseCache lru) (n : ℕ) (key : Text) (entry : Entry)
      → lru.entries c.store ≡ []
      → c.current_bytes ≡ pos n
      → n + entry.size < 2 ^ 63
      → (added lru c key entry).current_bytes ≡ pos (n + entry.size)
  unfolding GoMap.get
  current-added c n key entry empty counted small =
      rw (lru.peek_lem c.store key, empty, counted) (int64_add n entry.size small)

  -- A `Store` into a dead cache adds the entry, evicts it again, and leaves the cache dead.
  store-IsDead :
      (c : ResponseCache lru) (n max : ℕ) (key : Text) (entry : Entry)
      → n + entry.size < 2 ^ 63
      → IsDead c n max
      → IsDead (store lru c key (some entry)) n max
  store-IsDead c n max key entry small h =
      let one = entries-added c key entry h.empty h.room in
      let bytes = current-added c n key entry h.empty h.counted small in
      let past : ltb_ℤ (added lru c key entry).max_bytes (added lru c key entry).current_bytes
          ≡ true =
        ground (arith, bytes, h.limit, h.over) in
      rw
        (
          store-evict_loop lru c key entry (rw h.limit (ground (arith, h.positive))),
          evict_next lru _ key key entry [] (added lru c key entry) past one,
          text_eq_of_eq key key refl,
        )
        (record {
          empty = lru.entries-remove_oldest _ (key, entry) [] one;
          counted =
              rw bytes
                (int64_sub (n + entry.size) entry.size (omega arith) small ∙ ap pos (omega arith));
          limit = h.limit;
          over = h.over;
          positive = h.positive;
          room = rw (lru.capacity-remove_oldest, lru.capacity-add) h.room;
        })

  -- a run of calls of `Store`
  pub store_all : ResponseCache lru → List (Text × Entry) → ResponseCache lru
  store_all c [] = c
  store_all c ((key, entry) ∷ rest) = store_all (store lru c key (some entry)) rest

  -- Once the counter is past a positive budget with nothing stored and a capacity of one at least,
  -- whatever is stored is lost: after any run of calls of `Store` whose sizes do not overflow the
  -- counter, the cache is still empty and its counter has not come down.
  pub dead_cache_stays_dead :
      (c : ResponseCache lru) (n max : ℕ) (stores : List (Text × Entry))
      → All (λ s. n + s.1.size < 2 ^ 63) stores
      → IsDead c n max
      → (lru.entries (store_all c stores).store ≡ []) × ((store_all c stores).current_bytes ≡ pos n)
  unfolding store_all
  dead_cache_stays_dead c n max [] small h = (h.empty, h.counted)
  dead_cache_stays_dead c n max ((key, entry) ∷ rest) small h =
      dead_cache_stays_dead (store lru c key (some entry)) n max rest small.1
        (store-IsDead c n max key entry small.0 h)

  trim-full :
      (n : ℕ) (k : Text) (e : Entry) (l : GoMap Text Entry) (x : Text × Entry)
      → suc (length l) ≡ n
      → trim n (((k, e) ∷ l) ++ x ∷ []) ≡ l ++ x ∷ []
  trim-full n k e l x h = ground (arith, length-append l (x ∷ []))

  -- A `Store` of a new key into a full cache that counts its bytes exactly, with room left in the
  -- budget, evicts the oldest entry and no other, and leaves the counter too high by its size.
  pub full_cache_drifts :
      (c : ResponseCache lru) (n max : ℕ) (key k : Text) (entry oldest : Entry)
      (rest : GoMap Text Entry)
      → lru.entries c.store ≡ (k, oldest) ∷ rest
      → length (lru.entries c.store) ≡ lru.capacity c.store
      → GoMap.get dec_text key (lru.entries c.store) ≡ none
      → c.current_bytes ≡ pos n
      → total (lru.entries c.store) ≡ n
      → c.max_bytes ≡ pos max
      → 0 < max
      → n + entry.size ≤ max
      → max < 2 ^ 63
      → (lru.entries (store lru c key (some entry)).store ≡ rest ++ (key, entry) ∷ [])
        × ((store lru c key (some entry)).current_bytes ≡ pos (n + entry.size))
        × (total (lru.entries (store lru c key (some entry)).store) + oldest.size ≡ n + entry.size)
  full_cache_drifts c n max key k entry oldest rest e full absent counted exact m positive room
        small =
      let cache = added lru c key entry in
      let items : lru.entries cache.store ≡ rest ++ (key, entry) ∷ [] =
        lru.entries-add c.store key entry
        ∙ ap (λ l. trim (lru.capacity c.store) (l ++ (key, entry) ∷ []))
            (delete_absent dec_text key _ absent ∙ e)
        ∙ trim-full (lru.capacity c.store) k oldest rest (key, entry) (ap length (sym e) ∙ full) in
      let bytes : cache.current_bytes ≡ pos (n + entry.size) =
        rw (lru.peek_lem c.store key, absent, counted) (int64_add n entry.size (omega arith)) in
      let within : ltb_ℤ cache.max_bytes cache.current_bytes ≡ false = ground (arith, bytes, m) in
      rw
        (
          store-evict_loop lru c key entry (rw m (ground arith)),
          evict_stop lru (length (lru.entries cache.store)) key cache within,
        )
        (items, bytes, rw items (omega (arith, total-append rest ((key, entry) ∷ []), ap total e)))

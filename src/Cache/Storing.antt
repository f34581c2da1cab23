-- ===== src/Cache/Storing.antt =====
-- `Store` under a budget: what is accounted, and that the stored bytes stay within `maxBytes`.
use p2p_gossip_lb.Prelude.{
  ℕ, suc, ◌+◌, ◌-◌, ◌^◌, ◌≤◌, ◌<◌, ◌≡◌, inl, inr, true, false, Option, none, some, [], ◌∷◌, ◌++◌,
  arith, length,
}
use p2p_gossip_lb.Prelude.Int.{pos, ltb_ℤ, int64, int64_add, int64_sub, ◌+ℤ◌}
use p2p_gossip_lb.Prelude.Text.{Text, dec_text}
use p2p_gossip_lb.GoMap
use p2p_gossip_lb.GoMap.{GoMap, get-delete_self}
use p2p_gossip_lb.Cache.LruStore.{Lru}
use p2p_gossip_lb.Cache.Responses.{Entry}
use p2p_gossip_lb.Cache.{ResponseCache, evict_loop, store, without}
use p2p_gossip_lb.Cache.Budget.{
  total, size_of, total-append, total-delete, total-trim, EndsAt, EndsAt-trim, EndsAt-append,
  Accounts, Evicted, evict_loop-Evicted,
}

module _ (lru : Lru Entry) where
  -- the cache between `Add` and the eviction
  abbrev pub added : ResponseCache lru → Text → Entry → ResponseCache lru
  added c key entry = record c {
    store = lru.add c.store key entry;
    current_bytes = int64 (without lru c (lru.peek c.store key) +ℤ pos entry.size);
  }

  pub without-counted :
      (c : ResponseCache lru) (n : ℕ) (o : Option Entry)
      → n < 2 ^ 63
      → size_of o ≤ n
      → c.current_bytes ≡ pos n
      → without lru c o ≡ pos (n - size_of o)
  without-counted c n none small le h = ground arith
  without-counted c n (some e) small le h = rw h (int64_sub n e.size le small)

  -- `Add` replaces the entry of the key, counts the new one, and moves it to the end.
  Accounts-added :
      (c : ResponseCache lru) (n : ℕ) (key : Text) (entry : Entry)
      → n + entry.size < 2 ^ 63
      → Accounts lru c n
      → let old = size_of (GoMap.get dec_text key (lru.entries c.store)) in
        Accounts lru (added c key entry) (n - old + entry.size)
  Accounts-added c n key entry small h =
      let items = lru.entries c.store in
      let old = size_of (GoMap.get dec_text key items) in
      let kept = GoMap.delete dec_text key items in
      let fits = total-delete key items in
      record {
        current = rw (lru.peek_lem c.store key) (
            rw
              (without-counted c n (GoMap.get dec_text key items) (omega arith)
                (omega (arith, h.covers)) h.current)
              (int64_add (n - old) entry.size (omega arith)));
        covers = rw (lru.entries-add c.store key entry) (
            omega (
              arith,
              h.covers,
              total-trim (lru.capacity c.store) (kept ++ (key, entry) ∷ []),
              total-append kept ((key, entry) ∷ []),
            ));
      }

  EndsAt-added :
      (c : ResponseCache lru) (key : Text) (entry : Entry)
      → EndsAt key (lru.entries (added c key entry).store)
  EndsAt-added c key entry = rw (lru.entries-add c.store key entry) (
      EndsAt-trim key (lru.capacity c.store) _
        (EndsAt-append key entry _ (get-delete_self dec_text key (lru.entries c.store))))

  pub store-evict_loop :
      (c : ResponseCache lru) (key : Text) (entry : Entry)
      → ltb_ℤ (pos 0) c.max_bytes ≡ true
      → store lru c key (some entry)
        ≡ (evict_loop lru
            (suc (length (lru.entries (added c key entry).store)))
            key
            (added c key entry)).0
  unfolding store
  store-evict_loop c key entry h = rw h

  Evicted-total :
      (max : ℕ) (c : ResponseCache lru) → Evicted lru max c → total (lru.entries c.store) ≤ max
  Evicted-total max c h = elim h.done [
    | inl le ↦ omega (arith, h.accounts.covers)
    | inr empty ↦ rw empty (omega arith)
  ]

  -- After a `Store` under a positive budget, into a cache whose `currentBytes` is at least the bytes
  -- stored and does not overflow with the entry's size, `currentBytes` is still at least the bytes
  -- stored, and these are at most the budget.
  pub store_within_budget :
      (c : ResponseCache lru) (n max : ℕ) (key : Text) (entry : Entry)
      → n + entry.size < 2 ^ 63
      → 0 < max
      → c.max_bytes ≡ pos max
      → Accounts lru c n
      → ((bytes : ℕ) × Accounts lru (store lru c key (some entry)) bytes)
        × (total (lru.entries (store lru c key (some entry)).store) ≤ max)
  store_within_budget c n max key entry small positive m h =
      let cache = added c key entry in
      let old = size_of (GoMap.get dec_text key (lru.entries c.store)) in
      let done =
        evict_loop-Evicted lru max (suc (length (lru.entries cache.store))) (n - old + entry.size)
          key cache (omega arith) (omega arith) m (EndsAt-added c key entry)
          (Accounts-added c n key entry small h) in
      rw (store-evict_loop c key entry (rw m (ground arith)))
        ((done.bytes, done.accounts), Evicted-total max _ done)

  -- Without a budget nothing is evicted for its size.
  store_unlimited :
      (c : ResponseCache lru) (n : ℕ) (key : Text) (entry : Entry)
      → n + entry.size < 2 ^ 63
      → ltb_ℤ (pos 0) c.max_bytes ≡ false
      → Accounts lru c n
      → Accounts lru
          (store lru c key (some entry))
          (n - size_of (GoMap.get dec_text key (lru.entries c.store)) + entry.size)
  unfolding store
  store_unlimited c n key entry small m h = ground (arith, Accounts-added c n key entry small h)

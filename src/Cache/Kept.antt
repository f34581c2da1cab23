-- ===== src/Cache/Kept.antt =====
-- An entry that fits is found again after `Store`.
use p2p_gossip_lb.Prelude.{
  ap, ◌∙◌, ◌≡◌, ◌⊎◌, ◌<◌, inl, inr, refl, false, [], ◌∷◌, ◌++◌, some, none, arith, Bool-cases,
}
use p2p_gossip_lb.Prelude.Int.{pos, ltb_ℤ}
use p2p_gossip_lb.Prelude.Text.{Text, dec_text}
use p2p_gossip_lb.GoMap
use p2p_gossip_lb.GoMap.{GoMap, get-append, get-delete_self}
use p2p_gossip_lb.Cache.LruStore.{Lru, trim}
use p2p_gossip_lb.Cache.Responses.{Entry}
use p2p_gossip_lb.Cache.{ℕ, ResponseCache, store}
use p2p_gossip_lb.Cache.Budget.{evict_stop}
use p2p_gossip_lb.Cache.Storing.{added, store-evict_loop}

-- what is appended last is not trimmed
get-trim :
    (n : ℕ) (key : Text) (e : Entry) (l : GoMap Text Entry)
    → 0 < n
    → GoMap.get dec_text key l ≡ none
    → GoMap.get dec_text key (trim n (l ++ (key, e) ∷ [])) ≡ some e
unfolding GoMap.get
get-trim n key e [] h absent = ground arith
get-trim n key e (x ∷ l) h absent = ground (arith, get-append dec_text key l ((key, e) ∷ []))

module _ (lru : Lru Entry) where
  -- Nothing has to be evicted for the entry: the byte budget is off, or the entry fits in it.
  abbrev pub Fits : ResponseCache lru → Text → Entry → Type 0
  Fits c key e =
      (ltb_ℤ (pos 0) c.max_bytes ≡ false)
      ⊎ (ltb_ℤ c.max_bytes (added lru c key e).current_bytes ≡ false)

  get-added :
      (c : ResponseCache lru) (key : Text) (e : Entry)
      → 0 < lru.capacity c.store
      → GoMap.get dec_text key (lru.entries (added lru c key e).store) ≡ some e
  get-added c key e h = rw (lru.entries-add c.store key e) (
      get-trim (lru.capacity c.store) key e (GoMap.delete dec_text key (lru.entries c.store)) h
        (get-delete_self dec_text key (lru.entries c.store)))

  store-added :
      (c : ResponseCache lru) (key : Text) (e : Entry)
      → Fits c key e
      → store lru c key (some e) ≡ added lru c key e
  unfolding store
  store-added c key e (inl off) = rw off refl
  store-added c key e (inr fits) = elim (Bool-cases (ltb_ℤ (pos 0) c.max_bytes)) [
    | inr off ↦ rw off refl
    | inl on ↦
        store-evict_loop lru c key e on
        ∙ ap (λ x. x.0) (evict_stop lru _ key (added lru c key e) fits)
  ]

  -- An entry for which nothing has to be evicted is stored, if the store has room for an entry at all.
  pub get-store :
      (c : ResponseCache lru) (key : Text) (e : Entry)
      → 0 < lru.capacity c.store
      → Fits c key e
      → GoMap.get dec_text key (lru.entries (store lru c key (some e)).store) ≡ some e
  get-store c key e h fits = rw (store-added c key e fits) (get-added c key e h)

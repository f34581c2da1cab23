-- ===== src/Cache/Contents.antt =====
-- The operations of the cache keep what holds of each entry and its key.
use p2p_gossip_lb.Prelude.{
  ℕ, zero, suc, ◌≡◌, refl, Option, none, some, [], ◌∷◌, ◌++◌, arith, length, leb, All, Bool-cases,
  Option-cases, inl, inr,
}
use p2p_gossip_lb.Prelude.Int.{pos, ltb_ℤ}
use p2p_gossip_lb.Prelude.Text.{Text, dec_text, text_eq}
use p2p_gossip_lb.Prelude.Time.{Time}
use p2p_gossip_lb.GoMap
use p2p_gossip_lb.GoMap.{GoMap}
use p2p_gossip_lb.Cache.LruStore.{Lru, trim}
use p2p_gossip_lb.Cache.Responses.{Entry, clone}
use p2p_gossip_lb.Cache.{ResponseCache, evict_loop, store, lookup, has_expired}
use p2p_gossip_lb.Cache.Budget.{List-cases, evict_stop, evict_empty, evict_next, dropped}
use p2p_gossip_lb.Cache.Reads.{is_live, lookup_lem, kept, cloned}
use p2p_gossip_lb.Cache.Storing.{added, store-evict_loop}

module _ {ℓ} {V : Type 0} (P : Text × V → Type ℓ) where
  pub All-append : (xs : GoMap Text V) (x : Text × V) → All P xs → P x → All P (xs ++ x ∷ [])
  All-append [] x h p = (p, tt)
  All-append (y ∷ xs) x h p = (h.0, All-append xs x h.1 p)

  pub All-delete : (k : Text) (xs : GoMap Text V) → All P xs → All P (GoMap.delete dec_text k xs)
  unfolding GoMap.delete
  All-delete k [] h = tt
  All-delete k ((j, v) ∷ xs) h = ground (arith, All-delete k xs h.1)

  pub All-trim : (n : ℕ) (xs : GoMap Text V) → All P xs → All P (trim n xs)
  All-trim n [] h = tt
  All-trim n (x ∷ xs) h = elim (Bool-cases (leb (length (x ∷ xs)) n)) [
    | inl fits ↦ rw fits h
    | inr full ↦ rw full h.1
  ]

  pub All-get :
      (k : Text) (v : V) (xs : GoMap Text V)
      → All P xs
      → GoMap.get dec_text k xs ≡ some v
      → P (k, v)
  unfolding GoMap.get
  All-get k v [] h e = cc
  All-get k v ((j, w) ∷ xs) h e = ground (arith, All-get k v xs h.1, h.0)

cloned-some :
    (now : Time) (o : Option Entry) (found : Entry)
    → cloned (kept now o) ≡ some found
    → (e : Entry) × (o ≡ some e) × (found ≡ clone e)
cloned-some now none found h = cc
cloned-some now (some e) found h = elim (Bool-cases (is_live now e)) [
  | inl live ↦ (e, refl, ground (arith, live))
  | inr old ↦ ground (arith, old)
]

module _ {ℓ} (lru : Lru Entry) (P : Text × Entry → Type ℓ) where
  -- what holds of each entry that is stored
  abbrev pub Holds : ResponseCache lru → Type ℓ
  Holds c = All P (lru.entries c.store)

  evict_loop-Holds :
      (fuel : ℕ) (key : Text) (c : ResponseCache lru)
      → Holds c
      → Holds (evict_loop lru fuel key c).0
  unfolding evict_loop
  evict_loop-Holds zero key c h = h
  evict_loop-Holds (suc fuel) key c h = elim (Bool-cases (ltb_ℤ c.max_bytes c.current_bytes)) [
    | inr within ↦ rw (evict_stop lru fuel key c within) h
    | inl over ↦ elim (List-cases lru (lru.entries c.store)) [
      | inl e ↦ rw (evict_empty lru fuel key c over e) h
      | inr (k, x, rest, e) ↦
          let left = lru.entries-remove_oldest c.store (k, x) rest e in
          let h' : Holds (dropped lru c x) = rw left ((rw e at h).1) in
          rw (evict_next lru fuel key k x rest c over e) (elim (Bool-cases (text_eq k key)) [
            | inl same ↦ rw same h'
            | inr other ↦ rw other (evict_loop-Holds fuel key (dropped lru c x) h')
          ])
    ]
  ]

  added-Holds :
      (c : ResponseCache lru) (key : Text) (e : Entry)
      → Holds c
      → P (key, e)
      → Holds (added lru c key e)
  added-Holds c key e h p =
      rw (lru.entries-add c.store key e)
        (All-trim P _ _ (All-append P _ _ (All-delete P key (lru.entries c.store) h) p))

  pub store-Holds :
      (c : ResponseCache lru) (key : Text) (e : Entry)
      → Holds c
      → P (key, e)
      → Holds (store lru c key (some e))
  unfolding store
  store-Holds c key e h p = elim (Bool-cases (ltb_ℤ (pos 0) c.max_bytes)) [
    | inl limit ↦
        rw (store-evict_loop lru c key e limit)
          (evict_loop-Holds _ key (added lru c key e) (added-Holds c key e h p))
    | inr unlimited ↦ rw unlimited (added-Holds c key e h p)
  ]

  get-Holds :
      (s : lru.Store) (key : Text) → All P (lru.entries s) → All P (lru.entries (lru.get s key).0)
  get-Holds s key h = elim (Option-cases (GoMap.get dec_text key (lru.entries s))) [
    | inl miss ↦ rw (lru.entries-get_miss s key miss) h
    | inr (e, hit) ↦
        rw (lru.entries-get_hit s key e hit)
          (All-append P _ _ (All-delete P key (lru.entries s) h) (All-get P key e _ h hit))
  ]

  pub lookup-Holds :
      (c : ResponseCache lru) (key : Text) (now : Time) → Holds c → Holds (lookup lru c key now).0
  unfolding lookup
  lookup-Holds c key now h =
      let got = get-Holds c.store key h in
      elim (Option-cases (lru.get c.store key).1) [
        | inl miss ↦ rw miss got
        | inr (e, hit) ↦ elim (Bool-cases (has_expired lru e now)) [
          | inl old ↦
              rw (hit, old, lru.entries-remove (lru.get c.store key).0 key)
                (All-delete P key (lru.entries (lru.get c.store key).0) got)
          | inr fresh ↦ rw (hit, fresh) got
        ]
      ]

  -- What `Lookup` returns is a clone of an entry of its key.
  pub lookup_hit :
      (c : ResponseCache lru) (key : Text) (now : Time) (found : Entry)
      → Holds c
      → (lookup lru c key now).1 ≡ some found
      → (e : Entry) × (found ≡ clone e) × P (key, e)
  lookup_hit c key now found h e =
      let held : Option Entry = GoMap.get dec_text key (lru.entries c.store) in
      let (x, hit, same) = cloned-some now held found (cc (lookup_lem lru c key now)) in
      (x, same, All-get P key x (lru.entries c.store) h hit)

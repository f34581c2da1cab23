-- ===== src/Cache/Budget.antt =====
-- The byte budget: `currentBytes` is never below the bytes that are stored, and after a `Store`
-- the stored bytes are within `maxBytes`.
use p2p_gossip_lb.Prelude.{
  ℕ, zero, suc, ◌+◌, ◌-◌, ◌^◌, ◌≤◌, ◌<◌, ◌≡◌, ◌≢◌, ◌⊎◌, inl, inr, refl, ap, ◌∙◌, true, false,
  Option, none, some, [], ◌∷◌, ◌++◌, arith, length, leb, if◌then◌else◌, Bool-cases,
}
use p2p_gossip_lb.Prelude.Int.{pos, ltb_ℤ, int64, int64_sub, ◌-ℤ◌}
use p2p_gossip_lb.Prelude.Text.{Text, dec_text, text_eq, text_eq_of_eq, text_eq_of_ne}
use p2p_gossip_lb.GoMap
use p2p_gossip_lb.GoMap.{GoMap, IsMap, get-delete}
use p2p_gossip_lb.Cache.LruStore.{Lru, trim}
use p2p_gossip_lb.Cache.Responses.{Entry}
use p2p_gossip_lb.Cache.{ResponseCache, evict_loop}

-- the bytes that are stored
abbrev pub total : GoMap Text Entry → ℕ
total [] = 0
total ((k, e) ∷ l) = e.size + total l

abbrev pub size_of : Option Entry → ℕ
size_of none = 0
size_of (some e) = e.size

pub total-append : (xs ys : GoMap Text Entry) → total (xs ++ ys) ≡ total xs + total ys
total-append [] ys = omega arith
total-append ((k, e) ∷ xs) ys = omega (arith, total-append xs ys)

total-delete-le : (k : Text) (l : GoMap Text Entry) → total (GoMap.delete dec_text k l) ≤ total l
unfolding GoMap.delete
total-delete-le k [] = omega arith
total-delete-le k ((j, e) ∷ l) = ground (arith, total-delete-le k l)

pub total-delete :
    (k : Text) (l : GoMap Text Entry)
    → total (GoMap.delete dec_text k l) + size_of (GoMap.get dec_text k l) ≤ total l
unfolding GoMap.delete GoMap.get
total-delete k [] = omega arith
total-delete k ((j, e) ∷ l) = ground (arith, total-delete k l, total-delete-le k l)

pub total-trim : (n : ℕ) (l : GoMap Text Entry) → total (trim n l) ≤ total l
total-trim n [] = omega arith
total-trim n ((k, e) ∷ l) = ground arith

-- Only the last entry may have the key.
abbrev pub EndsAt : Text → GoMap Text Entry → Type 0
EndsAt key [] = Unit
EndsAt key ((k, e) ∷ []) = Unit
EndsAt key ((k, e) ∷ x ∷ l) = (k ≢ key) × EndsAt key (x ∷ l)

EndsAt-tail :
    (key : Text) (x : Text × Entry) (l : GoMap Text Entry) → EndsAt key (x ∷ l) → EndsAt key l
EndsAt-tail key x [] h = tt
EndsAt-tail key x (y ∷ l) h = h.1

EndsAt-last :
    (key k : Text) (e : Entry) (l : GoMap Text Entry) → k ≡ key → EndsAt key ((k, e) ∷ l) → l ≡ []
EndsAt-last key k e [] p h = refl
EndsAt-last key k e (x ∷ l) p h = absurd (h.0 p)

pub EndsAt-trim : (key : Text) (n : ℕ) (l : GoMap Text Entry) → EndsAt key l → EndsAt key (trim n l)
EndsAt-trim key n [] h = tt
EndsAt-trim key n (x ∷ l) h = elim (Bool-cases (leb (length (x ∷ l)) n)) [
  | inl fits ↦ rw fits h
  | inr full ↦ rw full (EndsAt-tail key x l h)
]

pub EndsAt-append :
    (key : Text) (e : Entry) (l : GoMap Text Entry)
    → GoMap.get dec_text key l ≡ none
    → EndsAt key (l ++ (key, e) ∷ [])
unfolding GoMap.get
EndsAt-append key e [] h = tt
EndsAt-append key e ((k, x) ∷ []) h = ground arith
EndsAt-append key e ((k, x) ∷ y ∷ l) h =
    ((λ p. ground arith), EndsAt-append key e (y ∷ l) (ground arith))

module _ (lru : Lru Entry) where
  -- The count `n` of `currentBytes` covers the stored bytes.
  pub record Accounts (c : ResponseCache lru) (n : ℕ) : Type 0 where
    pub current : c.current_bytes ≡ pos n
    pub covers : total (lru.entries c.store) ≤ n

  -- What the eviction leaves: within the budget, or an empty store.
  pub record Evicted (max : ℕ) (c : ResponseCache lru) : Type 0 where
    pub bytes : ℕ
    pub accounts : Accounts c bytes
    pub done : (bytes ≤ max) ⊎ (lru.entries c.store ≡ [])
    pub limit : c.max_bytes ≡ pos max

  pub evict_stop :
      (fuel : ℕ) (key : Text) (c : ResponseCache lru)
      → ltb_ℤ c.max_bytes c.current_bytes ≡ false
      → evict_loop lru (suc fuel) key c ≡ (c, true)
  unfolding evict_loop
  evict_stop fuel key c h = ground arith

  pub evict_empty :
      (fuel : ℕ) (key : Text) (c : ResponseCache lru)
      → ltb_ℤ c.max_bytes c.current_bytes ≡ true
      → lru.entries c.store ≡ []
      → evict_loop lru (suc fuel) key c ≡ (c, true)
  unfolding evict_loop
  evict_empty fuel key c h e = ground (arith, lru.remove_oldest_empty c.store e)

  -- the cache without its oldest entry
  abbrev pub dropped : ResponseCache lru → Entry → ResponseCache lru
  dropped c evicted = record c {
    store = (lru.remove_oldest c.store).0;
    current_bytes = int64 (c.current_bytes -ℤ pos evicted.size);
  }

  pub evict_next :
      (fuel : ℕ) (key k : Text) (evicted : Entry) (rest : GoMap Text Entry) (c : ResponseCache lru)
      → ltb_ℤ c.max_bytes c.current_bytes ≡ true
      → lru.entries c.store ≡ (k, evicted) ∷ rest
      → evict_loop lru (suc fuel) key c ≡ (
          if text_eq k key
          then (dropped c evicted, true)
          else evict_loop lru fuel key (dropped c evicted))
  unfolding evict_loop
  evict_next fuel key k evicted rest c h e =
      ground (arith, lru.remove_oldest_value c.store (k, evicted) rest e)

  Accounts-dropped :
      (c : ResponseCache lru) (n : ℕ) (k : Text) (evicted : Entry) (rest : GoMap Text Entry)
      → n < 2 ^ 63
      → lru.entries c.store ≡ (k, evicted) ∷ rest
      → Accounts c n
      → Accounts (dropped c evicted) (n - evicted.size)
  Accounts-dropped c n k evicted rest small e h =
      let room : evicted.size + total rest ≤ n = rw e at h.covers in
      record {
        current = rw h.current (int64_sub n evicted.size (omega arith) small);
        covers = rw (lru.entries-remove_oldest c.store (k, evicted) rest e) (omega arith);
      }

  pub List-cases :
      (l : GoMap Text Entry)
      → (l ≡ []) ⊎ ((k : Text) × (e : Entry) × (rest : GoMap Text Entry) × (l ≡ (k, e) ∷ rest))
  List-cases [] = inl refl
  List-cases ((k, e) ∷ rest) = inr (k, e, rest, refl)

  pub evict_loop-Evicted :
      (max fuel n : ℕ) (key : Text) (c : ResponseCache lru)
      → n < 2 ^ 63
      → length (lru.entries c.store) < fuel
      → c.max_bytes ≡ pos max
      → EndsAt key (lru.entries c.store)
      → Accounts c n
      → Evicted max (evict_loop lru fuel key c).0
  evict_loop-Evicted max zero n key c small enough m ends h = absurd (omega arith)
  evict_loop-Evicted max (suc fuel) n key c small enough m ends h =
      elim (Bool-cases (ltb_ℤ c.max_bytes c.current_bytes)) [
        | inr within ↦
            rw (evict_stop fuel key c within)
              (record { bytes = n; accounts = h; done = inl (ground arith); limit = m })
        | inl over ↦ elim (List-cases (lru.entries c.store)) [
          | inl e ↦
              rw (evict_empty fuel key c over e)
                (record { bytes = n; accounts = h; done = inr e; limit = m })
          | inr (k, x, rest, e) ↦
              let h' = Accounts-dropped c n k x rest small e h in
              let left = lru.entries-remove_oldest c.store (k, x) rest e in
              rw (evict_next fuel key k x rest c over e) (elim (dec_text k key) [
                | yes p ↦ rw (text_eq_of_eq k key p) (record {
                  bytes = n - x.size;
                  accounts = h';
                  done = inr (left ∙ EndsAt-last key k x rest p (rw e at ends));
                  limit = m;
                })
                | no p ↦ rw (text_eq_of_ne k key p) (
                    evict_loop-Evicted max fuel (n - x.size) key (dropped c x) (omega arith)
                      (rw left (omega (arith, ap length e))) m
                      (rw left (EndsAt-tail key (k, x) rest (rw e at ends))) h')
              ])
        ]
      ]

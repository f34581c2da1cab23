-- ===== src/Cache/Reads.antt =====
-- `Lookup`, `Delete` and `Purge`: what they return, what they leave, and that the counter covers it.
use p2p_gossip_lb.Prelude.{
  ℕ, ◌-◌, ◌^◌, ◌<◌, not, ◌||◌, ◌≡◌, refl, Bool, Option, none, some, [], arith, ite, if◌then◌else◌,
  Option-cases, inl, inr,
}
use p2p_gossip_lb.Prelude.Int.{pos, leb_ℤ, eq_ℤ}
use p2p_gossip_lb.Prelude.Text.{Text, dec_text}
use p2p_gossip_lb.Prelude.Time.{Time}
use p2p_gossip_lb.GoMap
use p2p_gossip_lb.GoMap.{GoMap, get-delete, get-move}
use p2p_gossip_lb.Cache.LruStore.{Lru}
use p2p_gossip_lb.Cache.Responses.{Entry, clone}
use p2p_gossip_lb.Cache.{ResponseCache, delete, lookup, purge, has_expired}
use p2p_gossip_lb.Cache.Storing.{without-counted}
use p2p_gossip_lb.Cache.Budget.{size_of, total-delete, Accounts}

-- An entry is live if it has no expiry, which the zero time stands for, or expires now or later.
abbrev pub is_live : Time → Entry → Bool
is_live now e = eq_ℤ e.expires_at (pos 0) || leb_ℤ now e.expires_at

-- what is left of an entry at a time, and what is returned of it
abbrev pub kept : Time → Option Entry → Option Entry
kept now none = none
kept now (some e) = if is_live now e then some e else none

abbrev pub cloned : Option Entry → Option Entry
cloned none = none
cloned (some e) = some (clone e)

module _ (lru : Lru Entry) where
  -- the guard of the code
  unfoldable pub not_expired : Time → Option Entry → Option Entry
  not_expired now none = none
  not_expired now (some e) = if has_expired lru e now then none else some e

  has_expired-is_live : (now : Time) (e : Entry) → has_expired lru e now ≡ not (is_live now e)
  has_expired-is_live now e = ground arith

  pub kept-not_expired : (now : Time) (o : Option Entry) → kept now o ≡ not_expired now o
  unfolding not_expired
  kept-not_expired now none = refl
  kept-not_expired now (some e) = rw (has_expired-is_live now e) (ground arith)

  -- `Lookup` returns a clone of the entry of its key, unless the entry has expired.
  pub lookup_lem :
      (c : ResponseCache lru) (key : Text) (now : Time)
      → (lookup lru c key now).1 ≡ cloned (kept now (GoMap.get dec_text key (lru.entries c.store)))
  unfolding lookup
  lookup_lem c key now = ground (
    arith,
    lru.get-value c.store key,
    kept-not_expired now (GoMap.get dec_text key (lru.entries c.store)),
  )

  entries-get :
      (s : lru.Store) (key j : Text)
      → GoMap.get dec_text j (lru.entries (lru.get s key).0) ≡ GoMap.get dec_text j (lru.entries s)
  entries-get s key j = elim (Option-cases (GoMap.get dec_text key (lru.entries s))) [
    | inl miss ↦ rw (lru.entries-get_miss s key miss)
    | inr (e, hit) ↦
        rw (lru.entries-get_hit s key e hit) (get-move dec_text key j e (lru.entries s) hit)
  ]

  get-delete_key :
      (c : ResponseCache lru) (key j : Text)
      → GoMap.get dec_text j (lru.entries (delete lru c key).store)
        ≡ ite (dec_text key j) none (GoMap.get dec_text j (lru.entries c.store))
  unfolding delete
  get-delete_key c key j = rw (lru.entries-remove c.store key) (get-delete dec_text key j _)

  -- After `Lookup` the entry of its key is left if it is live, that is it has no expiry or the expiry is
  -- not before now, and is gone if not; every other entry is as before.
  pub get-lookup :
      (c : ResponseCache lru) (key j : Text) (now : Time)
      → GoMap.get dec_text j (lru.entries (lookup lru c key now).0.store)
        ≡ ite
            (dec_text key j)
            (kept now (GoMap.get dec_text key (lru.entries c.store)))
            (GoMap.get dec_text j (lru.entries c.store))
  unfolding lookup
  get-lookup c key j now = ground (
    arith,
    lru.get-value c.store key,
    kept-not_expired now (GoMap.get dec_text key (lru.entries c.store)),
    entries-get c.store key j,
    lru.entries-remove (lru.get c.store key).0 key,
    get-delete dec_text key j (lru.entries (lru.get c.store key).0),
  )

  -- `Delete` subtracts the size of what it removes.
  Accounts-delete :
      (c : ResponseCache lru) (n : ℕ) (key : Text)
      → n < 2 ^ 63
      → Accounts lru c n
      → Accounts lru (delete lru c key) (n - size_of (GoMap.get dec_text key (lru.entries c.store)))
  unfolding delete
  Accounts-delete c n key small h =
      let items = lru.entries c.store in
      let fits = total-delete key items in
      record {
        current = rw (lru.peek_lem c.store key) (
            without-counted lru c n (GoMap.get dec_text key items) small (omega (arith, h.covers))
              h.current);
        covers = rw (lru.entries-remove c.store key) (omega (arith, h.covers));
      }

  -- `Purge` empties the store and the counter.
  purge_lem :
      (c : ResponseCache lru)
      → (lru.entries (purge lru c).store ≡ []) × Accounts lru (purge lru c) 0
  unfolding purge
  purge_lem c = (
    lru.entries-purge c.store,
    record { current = refl; covers = rw (lru.entries-purge c.store) (omega arith) },
  )

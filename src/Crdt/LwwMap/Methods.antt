-- ===== src/Crdt/LwwMap/Methods.antt =====
-- `Upsert`, `Delete`, `Get`, `Cleanup` and `FilterBy`: what each leaves at every key.
use p2p_gossip_lb.Prelude.{
  ℕ, ◌+◌, ◌≡◌, refl, true, false, ◌&&◌, Option, none, some, [], ◌∷◌, arith, ite, if◌then◌else◌,
  length, leb, keep,
}
use p2p_gossip_lb.Prelude.Int.{ℤ, pos, leb_ℤ, ◌-ℤ◌}
use p2p_gossip_lb.GoMap
use p2p_gossip_lb.GoMap.{GoMap, get-put, put-IsMap}
use p2p_gossip_lb.Crdt.Clock.{Clock, Entry}
use p2p_gossip_lb.Crdt.LwwMap.{
  LwwMap, accepts, upsert, delete, get, cleanup_loop, cleanup, filter_by,
}

module _ {ℓ} {K V : Type ℓ} (dec : Discrete K) where
  -- After `Upsert`, `Get` shows the value at its key if the clock dominated the entry there, and
  -- everything that it showed before otherwise.
  pub get-upsert :
      (m : LwwMap K V) (k j : K) (v : V) (c : Clock)
      → get dec (upsert dec m k v c).0 j ≡ (
          if accepts c (GoMap.get dec k m.items)
          then ite (dec k j) (some v) (get dec m j)
          else get dec m j)
  unfolding get upsert
  get-upsert m k j v c =
      ground (arith, get-put dec k j (record { value = v; clock = c; tombstone = false }) m.items)

  -- `Upsert` reports whether it wrote.
  pub upsert_reports :
      (m : LwwMap K V) (k : K) (v : V) (c : Clock)
      → (upsert dec m k v c).1 ≡ accepts c (GoMap.get dec k m.items)
  unfolding upsert
  upsert_reports m k v c = ground arith

  -- After `Delete`, `Get` misses its key if the clock dominated, and the other keys are as before.
  pub get-delete :
      (zero_value : V) (m : LwwMap K V) (k j : K) (c : Clock)
      → get dec (delete dec zero_value m k c).0 j ≡ (
          if accepts c (GoMap.get dec k m.items)
          then ite (dec k j) none (get dec m j)
          else get dec m j)
  unfolding get delete
  get-delete zero_value m k j c =
      ground (
        arith,
        get-put dec k j (record { value = zero_value; clock = c; tombstone = true }) m.items,
      )

  -- an entry that `Cleanup` leaves
  abbrev pub stays : ℤ → Option (Entry V) → Option (Entry V)
  stays threshold none = none
  stays threshold (some e) =
      if e.tombstone && leb_ℤ e.clock.unix_nano threshold then none else some e

  cleanup_loop-get :
      (threshold : ℤ) (items : GoMap K (Entry V)) (k : K)
      → GoMap.IsMap dec items
      → GoMap.get dec k (cleanup_loop dec threshold items).0
        ≡ stays threshold (GoMap.get dec k items)
  unfolding cleanup_loop GoMap.get
  cleanup_loop-get threshold [] k h = refl
  cleanup_loop-get threshold ((j, e) ∷ rest) k h =
      ground (arith, cleanup_loop-get threshold rest k h.1)

  cleanup_loop-length :
      (threshold : ℤ) (items : GoMap K (Entry V))
      → length (cleanup_loop dec threshold items).0 + (cleanup_loop dec threshold items).1
        ≡ length items
  unfolding cleanup_loop
  cleanup_loop-length threshold [] = refl
  cleanup_loop-length threshold ((j, e) ∷ rest) = ground (arith, cleanup_loop-length threshold rest)

  -- `Cleanup` with a positive TTL, on a map in which no key stands twice, drops exactly the tombstones
  -- whose time is at most `now - ttl`, returns how many entries it dropped, and changes nothing that
  -- `Get` shows.
  pub cleanup_lem :
      (now ttl : ℤ) (m : LwwMap K V) (k : K)
      → GoMap.IsMap dec m.items
      → leb_ℤ ttl (pos 0) ≡ false
      → (GoMap.get dec k (cleanup dec now m ttl).0.items
          ≡ stays (now -ℤ ttl) (GoMap.get dec k m.items))
        × (length (cleanup dec now m ttl).0.items + (cleanup dec now m ttl).1 ≡ length m.items)
        × (get dec (cleanup dec now m ttl).0 k ≡ get dec m k)
  unfolding cleanup get
  cleanup_lem now ttl m k h p = (
    ground (arith, cleanup_loop-get (now -ℤ ttl) m.items k h),
    ground (arith, cleanup_loop-length (now -ℤ ttl) m.items),
    ground (arith, cleanup_loop-get (now -ℤ ttl) m.items k h),
  )

  -- an entry that `FilterBy` returns
  abbrev recent : ℕ → Option (Entry V) → Option (Entry V)
  recent min_lamport none = none
  recent min_lamport (some e) = if leb min_lamport e.clock.lamport then some e else none

  filter-get :
      (min_lamport : ℕ) (items : GoMap K (Entry V)) (k : K)
      → GoMap.IsMap dec items
      → GoMap.get dec k (keep (λ (e : K × Entry V). leb min_lamport e.1.clock.lamport) items)
        ≡ recent min_lamport (GoMap.get dec k items)
  unfolding GoMap.get
  filter-get min_lamport [] k h = refl
  filter-get min_lamport ((j, e) ∷ rest) k h = ground (arith, filter-get min_lamport rest k h.1)

  -- `FilterBy`, on a map in which no key stands twice, returns the entries whose Lamport clock is at
  -- least the bound: equality included.
  get-filter_by :
      (m : LwwMap K V) (min_lamport : ℕ) (k : K)
      → GoMap.IsMap dec m.items
      → GoMap.get dec k (filter_by dec m min_lamport) ≡ recent min_lamport (GoMap.get dec k m.items)
  unfolding filter_by
  get-filter_by m min_lamport k h = filter-get min_lamport m.items k h

  -- What `Cleanup` leaves stood there before, whatever the TTL.
  pub cleanup_keeps :
      (now ttl : ℤ) (m : LwwMap K V) (k : K) (e : Entry V)
      → GoMap.IsMap dec m.items
      → GoMap.get dec k (cleanup dec now m ttl).0.items ≡ some e
      → GoMap.get dec k m.items ≡ some e
  unfolding cleanup
  cleanup_keeps now ttl m k e h found = ground (arith, cleanup_loop-get (now -ℤ ttl) m.items k h)

-- ===== src/Crdt/LwwMap.antt =====
-- pkg/crdt/lwwmap.go: `LWWMap`. Every method holds the mutex from its first line to its last, so
-- a method is one step from a map to a map. A deleted key keeps an entry with the zero value.

pub mod Join
pub mod Merge
pub mod Methods
pub mod Delivery
use p2p_gossip_lb.Prelude.{
  ℕ, ◌+◌, Bool, true, false, ◌&&◌, Option, none, some, [], ◌∷◌, leb, if◌then◌else◌, keep,
}
use p2p_gossip_lb.Prelude.Int.{ℤ, pos, leb_ℤ, ◌-ℤ◌}
use p2p_gossip_lb.GoMap
use p2p_gossip_lb.GoMap.{GoMap}
use p2p_gossip_lb.Crdt.Clock.{Clock, Entry, dominates}

pub record LwwMap {ℓ} (K V : Type ℓ) : Type ℓ where
  pub items : GoMap K (Entry V)

abbrev pub new_lww_map {ℓ} : {K V : Type ℓ} → LwwMap K V
new_lww_map = record { items = [] }

-- `!ok || dominates(clock, entry.Clock)`
abbrev pub accepts {ℓ} : {V : Type ℓ} → Clock → Option (Entry V) → Bool
accepts clock none = true
accepts clock (some entry) = dominates clock entry.clock

-- What `Get` shows of an entry.
abbrev pub visible {ℓ} : {V : Type ℓ} → Option (Entry V) → Option V
visible none = none
visible (some entry) = if entry.tombstone then none else some entry.value

module _ {ℓ} {K V : Type ℓ} (dec : Discrete K) where
  unfoldable pub upsert : LwwMap K V → K → V → Clock → LwwMap K V × Bool
  upsert m key value clock =
      if accepts clock (GoMap.get dec key m.items)
      then (
        record {
          items =
              GoMap.put dec key (record { value = value; clock = clock; tombstone = false })
                m.items;
        },
        true,
      )
      else (m, false)

  -- `Delete`, over the zero value of `V`
  unfoldable pub delete : V → LwwMap K V → K → Clock → LwwMap K V × Bool
  delete zero_value m key clock =
      if accepts clock (GoMap.get dec key m.items)
      then (
        record {
          items =
              GoMap.put dec key (record { value = zero_value; clock = clock; tombstone = true })
                m.items;
        },
        true,
      )
      else (m, false)

  -- `Get`: the zero value with `false` is `none`
  unfoldable pub get : LwwMap K V → K → Option V
  get m key = visible (GoMap.get dec key m.items)

  -- the `range entries` loop of `Merge`
  pub merge_loop : GoMap K (Entry V) → GoMap K (Entry V) → Bool → GoMap K (Entry V) × Bool
  merge_loop items [] changed = (items, changed)
  merge_loop items ((key, incoming) ∷ rest) changed =
      let took = accepts incoming.clock (GoMap.get dec key items) in
      merge_loop (if took then GoMap.put dec key incoming items else items) rest
        (if took then true else changed)

  pub merge : LwwMap K V → GoMap K (Entry V) → LwwMap K V × Bool
  unfolding merge_loop
  merge m entries =
      let (items, changed) = merge_loop m.items entries false in (record { items = items }, changed)

  -- the `range m.items` loop of `Cleanup`, with the entries that stay
  pub cleanup_loop : ℤ → GoMap K (Entry V) → GoMap K (Entry V) × ℕ
  cleanup_loop threshold [] = ([], 0)
  cleanup_loop threshold ((key, entry) ∷ rest) =
      let (kept, removed) = cleanup_loop threshold rest in
      if entry.tombstone && leb_ℤ entry.clock.unix_nano threshold
      then (kept, removed + 1)
      else ((key, entry) ∷ kept, removed)

  -- `Cleanup` at the time `now`, in nanoseconds
  pub cleanup : ℤ → LwwMap K V → ℤ → LwwMap K V × ℕ
  unfolding cleanup_loop
  cleanup now m ttl =
      if leb_ℤ ttl (pos 0)
      then (m, 0)
      else (let (kept, removed) = cleanup_loop (now -ℤ ttl) m.items in
          (record { items = kept }, removed))

  -- the loop of `FilterBy`
  pub filter_by : LwwMap K V → ℕ → GoMap K (Entry V)
  filter_by m min_lamport = keep (λ e. leb min_lamport e.1.clock.lamport) m.items

-- `Snapshot` copies the map.
abbrev pub snapshot {ℓ} : {K V : Type ℓ} → LwwMap K V → GoMap K (Entry V)
snapshot m = m.items

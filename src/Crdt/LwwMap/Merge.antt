-- ===== src/Crdt/LwwMap/Merge.antt =====
-- `Merge` refines the join at every key, whatever order the `range` takes.
use p2p_gossip_lb.Prelude.{◌≡◌, ◌≢◌, refl, ◌∙◌, sym, Bool, true, false, some, [], ◌∷◌, arith}
use p2p_gossip_lb.GoMap
use p2p_gossip_lb.GoMap.{GoMap, get-put, put-IsMap}
use p2p_gossip_lb.Crdt.Clock.{Entry, dominates_refl}
use p2p_gossip_lb.Crdt.LwwMap.{LwwMap, merge_loop, merge, snapshot}
use p2p_gossip_lb.Crdt.LwwMap.Join.{
  accepts-wins, dominates-at_least, join, Agree, join_idem, join_comm,
}

module _ {ℓ} {K V : Type ℓ} (dec : Discrete K) where
  merge_loop-join :
      (k : K) (items entries : GoMap K (Entry V)) (changed : Bool)
      → GoMap.IsMap dec entries
      → GoMap.get dec k (merge_loop dec items entries changed).0
        ≡ join (GoMap.get dec k items) (GoMap.get dec k entries)
  unfolding merge_loop join GoMap.get
  merge_loop-join k items [] changed h = refl
  merge_loop-join k items ((j, e) ∷ rest) changed h = ground (
    arith,
    merge_loop-join k (GoMap.put dec j e items) rest true h.1,
    merge_loop-join k items rest changed h.1,
    get-put dec j k e items,
    accepts-wins e (GoMap.get dec j items),
  )

  -- `Merge` of entries in which no key stands twice leaves at every key the join of the two entries
  -- there: the incoming one if there is no other or its clock is at least the other's, by the Lamport
  -- time and then the Unix time, and the old one if not.
  pub get-merge :
      (m : LwwMap K V) (entries : GoMap K (Entry V)) (k : K)
      → GoMap.IsMap dec entries
      → GoMap.get dec k (merge dec m entries).0.items
        ≡ join (GoMap.get dec k m.items) (GoMap.get dec k entries)
  unfolding merge
  get-merge m entries k h = merge_loop-join k m.items entries false h

  merge_loop-IsMap :
      (items entries : GoMap K (Entry V)) (changed : Bool)
      → GoMap.IsMap dec items
      → GoMap.IsMap dec (merge_loop dec items entries changed).0
  unfolding merge_loop
  merge_loop-IsMap items [] changed h = h
  merge_loop-IsMap items ((j, e) ∷ rest) changed h = ground (
    arith,
    put-IsMap dec j e items h,
    merge_loop-IsMap (GoMap.put dec j e items) rest true,
    merge_loop-IsMap items rest changed h,
  )

  -- A key stands once in the result too.
  merge-IsMap :
      (m : LwwMap K V) (entries : GoMap K (Entry V))
      → GoMap.IsMap dec m.items
      → GoMap.IsMap dec (merge dec m entries).0.items
  unfolding merge
  merge-IsMap m entries h = merge_loop-IsMap m.items entries false h

  -- The order in which `range` visits the entries does not show in the result.
  merge_any_order :
      (m : LwwMap K V) (xs ys : GoMap K (Entry V))
      → GoMap.IsMap dec xs
      → GoMap.IsMap dec ys
      → ((k : K) → GoMap.get dec k xs ≡ GoMap.get dec k ys)
      → (k : K)
      → GoMap.get dec k (merge dec m xs).0.items ≡ GoMap.get dec k (merge dec m ys).0.items
  merge_any_order m xs ys hx hy same k = rw (get-merge m xs k hx, get-merge m ys k hy, same k)

  -- Two replicas (maps, in which no key stands twice) that merge each other's snapshot agree at every
  -- key, if no clock stands for two different entries of a key.
  pub exchange_converges :
      (a b : LwwMap K V)
      → GoMap.IsMap dec a.items
      → GoMap.IsMap dec b.items
      → ((k : K) → Agree (GoMap.get dec k a.items) (GoMap.get dec k b.items))
      → (k : K)
      → GoMap.get dec k (merge dec a (snapshot b)).0.items
        ≡ GoMap.get dec k (merge dec b (snapshot a)).0.items
  exchange_converges a b ha hb agree k =
      get-merge a b.items k hb ∙ join_comm _ _ (agree k) ∙ sym (get-merge b a.items k ha)

  -- Where two replicas (maps, in which no key stands twice) hold entries of a key with one clock, the
  -- exchange of their snapshots swaps these two entries.
  pub exchange_swaps :
      (a b : LwwMap K V) (k : K) (x y : Entry V)
      → GoMap.IsMap dec a.items
      → GoMap.IsMap dec b.items
      → GoMap.get dec k a.items ≡ some x
      → GoMap.get dec k b.items ≡ some y
      → x.clock ≡ y.clock
      → (GoMap.get dec k (merge dec a (snapshot b)).0.items ≡ some y)
        × (GoMap.get dec k (merge dec b (snapshot a)).0.items ≡ some x)
  unfolding join
  exchange_swaps a b k x y ha hb px py same = ground (
    arith,
    get-merge a b.items k hb,
    get-merge b a.items k ha,
    dominates_refl x.clock,
    dominates_refl y.clock,
    dominates-at_least x.clock x.clock,
    dominates-at_least y.clock x.clock,
    dominates-at_least x.clock y.clock,
  )

  merge_loop_flag :
      (items entries : GoMap K (Entry V)) → (merge_loop dec items entries true).1 ≡ true
  unfolding merge_loop
  merge_loop_flag items [] = refl
  merge_loop_flag items ((j, e) ∷ rest) =
      ground (arith, merge_loop_flag (GoMap.put dec j e items) rest, merge_loop_flag items rest)

  merge_loop_unchanged :
      (items entries : GoMap K (Entry V))
      → (merge_loop dec items entries false).1 ≡ false
      → (merge_loop dec items entries false).0 ≡ items
  unfolding merge_loop
  merge_loop_unchanged items [] h = refl
  merge_loop_unchanged items ((j, e) ∷ rest) h =
      ground
        (arith, merge_loop_flag (GoMap.put dec j e items) rest, merge_loop_unchanged items rest)

  -- Where `Merge` returns false it has written nothing.
  pub merge-false_unchanged :
      (m : LwwMap K V) (entries : GoMap K (Entry V))
      → (merge dec m entries).1 ≡ false
      → (merge dec m entries).0 ≡ m
  unfolding merge
  merge-false_unchanged m entries h = ground (arith, merge_loop_unchanged m.items entries)

  merge_loop_own : (l : GoMap K (Entry V)) → l ≢ [] → (merge_loop dec l l false).1 ≡ true
  unfolding merge_loop GoMap.get
  merge_loop_own [] ne = absurd (ne refl)
  merge_loop_own ((j, e) ∷ rest) ne =
      ground
        (arith, dominates_refl e.clock, merge_loop_flag (GoMap.put dec j e ((j, e) ∷ rest)) rest)

  -- Merging the snapshot of the map itself (no key stands twice) changes no entry, and yet reports a
  -- change, where the map has an entry.
  merge_own_snapshot :
      (m : LwwMap K V) (k : K)
      → GoMap.IsMap dec m.items
      → m.items ≢ []
      → (GoMap.get dec k (merge dec m (snapshot m)).0.items ≡ GoMap.get dec k m.items)
        × ((merge dec m (snapshot m)).1 ≡ true)
  unfolding merge
  merge_own_snapshot m k h ne =
      (merge_loop-join k m.items m.items false h ∙ join_idem _, merge_loop_own m.items ne)

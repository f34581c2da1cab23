-- ===== src/Crdt/LwwMap/Delivery.antt =====
-- Strong convergence: replicas that have received the same updates, in any order and however
-- often, show the same entries.
use p2p_gossip_lb.Prelude.{
  ◌≡◌, ◌≢◌, ◌⊎◌, inl, inr, refl, ap, ◌∙◌, sym, true, false, Option, none, some, List, [], ◌∷◌,
  if_pos, if_neg, Bool-cases, arith, ite, In,
}
use p2p_gossip_lb.GoMap
use p2p_gossip_lb.GoMap.{get-put}
use p2p_gossip_lb.Crdt.Clock.{
  Clock, Entry, dominates, dominates_refl, dominates_total, dominates_trans, dominates_antisymm,
}
use p2p_gossip_lb.Crdt.LwwMap.{LwwMap, new_lww_map, upsert, delete}
use p2p_gossip_lb.Crdt.LwwMap.Join.{join, accepts-wins, dominates-at_least}

-- A call of `Upsert` or `Delete` that reaches a replica.
pub data Update {ℓ} (K V : Type ℓ) : Type ℓ where
  upserts : K → V → Clock → Update K V
  deletes : K → Clock → Update K V

module _ {ℓ} {K V : Type ℓ} (dec : Discrete K) (zero_value : V) where
  unfoldable receive : LwwMap K V → Update K V → LwwMap K V
  receive m (upserts k v c) = (upsert dec m k v c).0
  receive m (deletes k c) = (delete dec zero_value m k c).0

  pub receive_all : LwwMap K V → List (Update K V) → LwwMap K V
  receive_all m [] = m
  receive_all m (u ∷ us) = receive_all (receive m u) us

  -- the key that an update is for
  abbrev pub target : Update K V → K
  target (upserts k v c) = k
  target (deletes k c) = k

  -- the entry that an update writes
  abbrev pub written : Update K V → Entry V
  written (upserts k v c) = record { value = v; clock = c; tombstone = false }
  written (deletes k c) = record { value = zero_value; clock = c; tombstone = true }

  get-receive :
      (m : LwwMap K V) (u : Update K V) (k : K)
      → GoMap.get dec k (receive m u).items
        ≡ ite
            (dec (target u) k)
            (join (GoMap.get dec k m.items) (some (written u)))
            (GoMap.get dec k m.items)
  unfolding receive upsert delete join
  get-receive m (upserts j v c) k = ground (
    arith,
    get-put dec j k (written (upserts j v c)) m.items,
    accepts-wins (written (upserts j v c)) (GoMap.get dec j m.items),
  )
  get-receive m (deletes j c) k = ground (
    arith,
    get-put dec j k (written (deletes j c)) m.items,
    accepts-wins (written (deletes j c)) (GoMap.get dec j m.items),
  )

  -- The entry of `k` is one that a received update wrote, and dominates all that these wrote there.
  abbrev Wins : K → (Update K V → Type ℓ) → Option (Entry V) → Type ℓ
  Wins k Received none = (u : Update K V) → Received u → target u ≢ k
  Wins k Received (some e) =
      ((u : Update K V) × Received u × (target u ≡ k) × (written u ≡ e))
      × ((u : Update K V) → Received u → target u ≡ k → dominates e.clock (written u).clock ≡ true)

  Wins-iff :
      (k : K) (P Q : Update K V → Type ℓ) (o : Option (Entry V))
      → ((u : Update K V) → P u → Q u)
      → ((u : Update K V) → Q u → P u)
      → Wins k P o
      → Wins k Q o
  Wins-iff k P Q none to from w = λ u q. w u (from u q)
  Wins-iff k P Q (some e) to from (writer, top) =
      ((writer.0, to writer.0 writer.1, writer.2, writer.3), λ u q. top u (from u q))

  Wins-other :
      (k : K) (P : Update K V → Type ℓ) (o : Option (Entry V)) (u : Update K V)
      → target u ≢ k
      → Wins k P o
      → Wins k (λ w. P w ⊎ (w ≡ u)) o
  Wins-other k P none u ne w = λ v p. elim p [ inl q ↦ w v q | inr e ↦ rw e ne ]
  Wins-other k P (some x) u ne (writer, top) = (
    (writer.0, inl writer.1, writer.2, writer.3),
    λ v p same. elim p [
      | inl q ↦ top v q same
      | inr e ↦ absurd (ne (ap (λ y. target y) (sym e) ∙ same))
    ],
  )

  Wins-join :
      (k : K) (P : Update K V → Type ℓ) (o : Option (Entry V)) (u : Update K V)
      → target u ≡ k
      → Wins k P o
      → Wins k (λ w. P w ⊎ (w ≡ u)) (join o (some (written u)))
  unfolding join
  Wins-join k P none u hit w = (
    (u, inr refl, hit, refl),
    λ v p same. elim p [
      | inl q ↦ absurd (w v q same)
      | inr e ↦ rw e (dominates_refl (written u).clock)
    ],
  )
  Wins-join k P (some x) u hit (writer, top) =
      elim (Bool-cases (dominates (written u).clock x.clock)) [
        | inl newer ↦ rw (sym (dominates-at_least (written u).clock x.clock) ∙ newer) (
          (u, inr refl, hit, refl),
          λ v p same. elim p [
            | inl q ↦ dominates_trans _ x.clock _ newer (top v q same)
            | inr e ↦ rw e (dominates_refl (written u).clock)
          ],
        )
        | inr older ↦ rw (sym (dominates-at_least (written u).clock x.clock) ∙ older) (
          (writer.0, inl writer.1, writer.2, writer.3),
          λ v p same. elim p [
            | inl q ↦ top v q same
            | inr e ↦ rw e (ground (arith, older, dominates_total x.clock (written u).clock))
          ],
        )
      ]

  Wins-receive :
      (k : K) (P : Update K V → Type ℓ) (m : LwwMap K V) (u : Update K V)
      → Wins k P (GoMap.get dec k m.items)
      → Wins k (λ w. P w ⊎ (w ≡ u)) (GoMap.get dec k (receive m u).items)
  Wins-receive k P m u w = elim (dec (target u) k) [
    | yes hit ↦ rw (get-receive m u k, if_pos _ hit) (Wins-join k P _ u hit w)
    | no miss ↦ rw (get-receive m u k, if_neg _ miss) (Wins-other k P _ u miss w)
  ]

  Wins-receive_all :
      (k : K) (P : Update K V → Type ℓ) (m : LwwMap K V) (us : List (Update K V))
      → Wins k P (GoMap.get dec k m.items)
      → Wins k (λ w. P w ⊎ In w us) (GoMap.get dec k (receive_all m us).items)
  unfolding receive_all
  Wins-receive_all k P m [] w =
      Wins-iff k P _ _ (λ u p. inl p) (λ u p. elim p [ inl q ↦ q | inr e ↦ absurd (e tt) ]) w
  Wins-receive_all k P m (u ∷ us) w =
      Wins-iff k _ _ _
        (λ v p. elim p [ inl (inl q) ↦ inl q | inl (inr e) ↦ inr (inl e) | inr q ↦ inr (inr q) ])
        (λ v p. elim p [ inl q ↦ inl (inl q) | inr (inl e) ↦ inl (inr e) | inr (inr q) ↦ inr q ])
        (Wins-receive_all k (λ w. P w ⊎ (w ≡ u)) (receive m u) us (Wins-receive k P m u w))

  -- Two entries that win among the same updates are one, if no two updates of a key share a clock
  -- and differ.
  Wins-unique :
      (k : K) (P : Update K V → Type ℓ) (o p : Option (Entry V))
      → ((u w : Update K V)
          → P u
          → P w
          → target u ≡ target w
          → (written u).clock ≡ (written w).clock
          → written u ≡ written w)
      → Wins k P o
      → Wins k P p
      → o ≡ p
  Wins-unique k P none none alone v w = refl
  Wins-unique k P none (some y) alone v ((u, r, s, e), top) = absurd (v u r s)
  Wins-unique k P (some x) none alone ((u, r, s, e), top) w = absurd (w u r s)
  Wins-unique k P (some x) (some y) alone ((u, r, s, e), top) ((u', r', s', e'), top') = ap some (
      sym e
      ∙ alone u u' r r' (s ∙ sym s')
          (dominates_antisymm _ _ (rw e (top u' r' s')) (rw e' (top' u r s)))
      ∙ e')

  -- Replicas that start empty and receive the same set of updates, each in its own order and any
  -- number of times, hold the same entry at every key, if no two different updates of a key share
  -- a clock.
  pub same_updates_converge :
      (xs ys : List (Update K V))
      → ((u : Update K V) → In u xs → In u ys)
      → ((u : Update K V) → In u ys → In u xs)
      → ((u w : Update K V)
          → In u xs
          → In w xs
          → target u ≡ target w
          → (written u).clock ≡ (written w).clock
          → written u ≡ written w)
      → (k : K)
      → GoMap.get dec k (receive_all new_lww_map xs).items
        ≡ GoMap.get dec k (receive_all new_lww_map ys).items
  same_updates_converge xs ys to from alone k =
      Wins-unique k (λ u. In u xs) _ _ alone (wins xs) (Wins-iff k _ _ _ from to (wins ys))
    where
      wins :
          (us : List (Update K V))
          → Wins k (λ u. In u us) (GoMap.get dec k (receive_all new_lww_map us).items)
      wins us =
          Wins-iff k _ _ _ (λ u p. elim p [ inl e ↦ absurd (e tt) | inr q ↦ q ]) (λ u q. inr q)
            (Wins-receive_all k (λ u. ¬ Unit {ℓ}) new_lww_map us
              (unfold GoMap.get in λ u e. absurd (e tt)))

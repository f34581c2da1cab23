-- ===== src/Tests/Crdt.antt =====
-- Concrete replicas of pkg/crdt/lwwmap.go, over numbers as keys and values.
use p2p_gossip_lb.Prelude.{
  ℕ, ◌+◌, ◌≡◌, ◌↔◌, inl, inr, refl, true, false, none, some, List, [], ◌∷◌, ite, In, ℕ_discrete,
  length,
}
use p2p_gossip_lb.Prelude.Int.{pos, ◌-ℤ◌}
use p2p_gossip_lb.Prelude.Text.{codes}
use p2p_gossip_lb.GoMap
use p2p_gossip_lb.GoMap.{GoMap}
use p2p_gossip_lb.Crdt.Clock.{Clock, Entry}
use p2p_gossip_lb.Crdt.LwwMap.{LwwMap, new_lww_map, get, merge, cleanup}
use p2p_gossip_lb.Crdt.LwwMap.Join.{join, Agree}
use p2p_gossip_lb.Crdt.LwwMap.Merge.{get-merge}
use p2p_gossip_lb.Crdt.LwwMap.Methods.{cleanup_lem, stays}
use p2p_gossip_lb.Crdt.LwwMap.Delivery.{
  Update, upserts, deletes, receive_all, target, written, same_updates_converge,
}
use p2p_gossip_lb.Crdt.VersionVector.{VersionVector, compare, descendant}
use p2p_gossip_lb.Crdt.VersionVector.Order.{compare_iff, Means}

abbrev early : Clock
early = record { lamport = 1; unix_nano = pos 100 }

abbrev late : Clock
late = record { lamport = 2; unix_nano = pos 50 }

abbrev first : Update ℕ ℕ
first = upserts 1 10 early

abbrev second : Update ℕ ℕ
second = deletes 1 late

abbrev in_order : List (Update ℕ ℕ)
in_order = first ∷ second ∷ []

abbrev reordered : List (Update ℕ ℕ)
reordered = second ∷ first ∷ second ∷ []

in_order-reordered : (u : Update ℕ ℕ) → In u in_order → In u reordered
in_order-reordered u (inl e) = inr (inl e)
in_order-reordered u (inr (inl e)) = inl e
in_order-reordered u (inr (inr z)) = absurd (z tt)

reordered-in_order : (u : Update ℕ ℕ) → In u reordered → In u in_order
reordered-in_order u (inl e) = inr (inl e)
reordered-in_order u (inr (inl e)) = inl e
reordered-in_order u (inr (inr (inl e))) = inr (inl e)
reordered-in_order u (inr (inr (inr z))) = absurd (z tt)

alone :
    (u w : Update ℕ ℕ)
    → In u in_order
    → In w in_order
    → target ℕ_discrete 0 u ≡ target ℕ_discrete 0 w
    → (written ℕ_discrete 0 u).clock ≡ (written ℕ_discrete 0 w).clock
    → written ℕ_discrete 0 u ≡ written ℕ_discrete 0 w
alone u w (inl e) (inl f) same clock = rw (e, f) refl
alone u w (inl e) (inr (inl f)) same clock = absurd (cc)
alone u w (inr (inl e)) (inl f) same clock = absurd (cc)
alone u w (inr (inl e)) (inr (inl f)) same clock = rw (e, f) refl
alone u w (inr (inr z)) i same clock = absurd (z tt)
alone u w i (inr (inr z)) same clock = absurd (z tt)

same_updates_converge_example :
    GoMap.get ℕ_discrete 1 (receive_all ℕ_discrete 0 new_lww_map in_order).items
    ≡ GoMap.get ℕ_discrete 1 (receive_all ℕ_discrete 0 new_lww_map reordered).items
same_updates_converge_example =
    same_updates_converge ℕ_discrete 0 in_order reordered in_order-reordered reordered-in_order
      alone 1

abbrev old : Entry ℕ
old = record { value = 10; clock = early; tombstone = false }

abbrev new : Entry ℕ
new = record { value = 20; clock = late; tombstone = false }

abbrev rival : Entry ℕ
rival = record { value = 30; clock = early; tombstone = false }

abbrev buried : Entry ℕ
buried = record { value = 0; clock = late; tombstone = true }

abbrev holds : Entry ℕ → LwwMap ℕ ℕ
holds e = record { items = (1, e) ∷ [] }

one-IsMap : (e : Entry ℕ) → GoMap.IsMap ℕ_discrete (holds e).items
unfolding GoMap.get
one-IsMap e = (refl, tt)

get-merge_example :
    GoMap.get ℕ_discrete 1 (merge ℕ_discrete (holds old) ((1, new) ∷ [])).0.items
    ≡ join (GoMap.get ℕ_discrete 1 (holds old).items) (GoMap.get ℕ_discrete 1 ((1, new) ∷ []))
get-merge_example = get-merge ℕ_discrete (holds old) ((1, new) ∷ []) 1 (one-IsMap new)

holds-Agree :
    (k : ℕ)
    → Agree (GoMap.get ℕ_discrete k (holds old).items) (GoMap.get ℕ_discrete k (holds new).items)
unfolding GoMap.get
holds-Agree k =
    elim (ℕ_discrete 1 k) as (λ d. Agree (ite d (some old) none) (ite d (some new) none)) [
      | yes p ↦ (λ same. absurd (cc same))
      | no p ↦ tt
    ]

here : (e : Entry ℕ) → GoMap.get ℕ_discrete 1 (holds e).items ≡ some e
unfolding GoMap.get ℕ_discrete
here e = refl

cleanup_lem_example :
    (GoMap.get ℕ_discrete 1 (cleanup ℕ_discrete (pos 100) (holds buried) (pos 20)).0.items
      ≡ stays ℕ_discrete (pos 100 -ℤ pos 20) (GoMap.get ℕ_discrete 1 (holds buried).items))
    × (length (cleanup ℕ_discrete (pos 100) (holds buried) (pos 20)).0.items
          + (cleanup ℕ_discrete (pos 100) (holds buried) (pos 20)).1
        ≡ 1)
    × (get ℕ_discrete (cleanup ℕ_discrete (pos 100) (holds buried) (pos 20)).0 1
        ≡ get ℕ_discrete (holds buried) 1)
cleanup_lem_example =
    cleanup_lem ℕ_discrete (pos 100) (pos 20) (holds buried) 1 (one-IsMap buried) refl

abbrev ahead : VersionVector
ahead = record { vv = (codes "a", 3) ∷ (codes "b", 1) ∷ [] }

abbrev behind : VersionVector
behind = record { vv = (codes "a", 2) ∷ [] }

compare_iff_example : (compare ahead behind.vv ≡ descendant) ↔ Means descendant ahead.vv behind.vv
compare_iff_example = compare_iff ahead behind.vv descendant

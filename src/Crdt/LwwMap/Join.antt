-- ===== src/Crdt/LwwMap/Join.antt =====
-- What two replicas agree on at one key: the join of their entries under the order of the clocks.
-- The join is the specification of `Merge`.
use p2p_gossip_lb.Prelude.{
  ◌≡◌, refl, Bool, true, Option, none, some, arith, if◌then◌else◌, ltb, ◌||◌, ◌&&◌, ◌==◌,
}
use p2p_gossip_lb.Prelude.Int.{leb_ℤ}
use p2p_gossip_lb.Crdt.Clock.{
  Clock, Entry, dominates, dominates_refl, dominates_total, dominates_trans, dominates_antisymm,
}
use p2p_gossip_lb.Crdt.LwwMap.{accepts}

-- A clock is at least another: its Lamport time is greater, or they are equal and its Unix time is not
-- smaller.
pub at_least : Clock → Clock → Bool
at_least new old =
    ltb old.lamport new.lamport || (old.lamport == new.lamport && leb_ℤ old.unix_nano new.unix_nano)

pub dominates-at_least : (new old : Clock) → dominates new old ≡ at_least new old
unfolding dominates at_least
dominates-at_least new old = ground arith

module _ {ℓ} {V : Type ℓ} where
  -- The incoming entry wins where there is no other, and a tie, as in the code.
  abbrev pub wins : Entry V → Option (Entry V) → Bool
  wins incoming none = true
  wins incoming (some old) = at_least incoming.clock old.clock

  pub accepts-wins :
      (incoming : Entry V) (current : Option (Entry V))
      → accepts incoming.clock current ≡ wins incoming current
  accepts-wins incoming none = refl
  accepts-wins incoming (some old) = dominates-at_least incoming.clock old.clock

  unfoldable pub join : Option (Entry V) → Option (Entry V) → Option (Entry V)
  join current none = current
  join current (some incoming) = if wins incoming current then some incoming else current

  -- Entries with one clock are one entry: nobody reuses a clock for another value.
  abbrev pub Agree : Option (Entry V) → Option (Entry V) → Type ℓ
  Agree (some a) (some b) = a.clock ≡ b.clock → a ≡ b
  Agree _ _ = Unit {ℓ}

  none-join : (a : Option (Entry V)) → join none a ≡ a
  unfolding join
  none-join none = refl
  none-join (some a) = refl

  pub join_idem : (a : Option (Entry V)) → join a a ≡ a
  unfolding join
  join_idem none = refl
  join_idem (some a) = ground (arith, dominates_refl a.clock, dominates-at_least a.clock a.clock)

  join_assoc : (a b c : Option (Entry V)) → join (join a b) c ≡ join a (join b c)
  unfolding join
  join_assoc a b none = refl
  join_assoc a none (some c) = refl
  join_assoc none (some b) (some c) = ground arith
  join_assoc (some a) (some b) (some c) = ground (
    arith,
    dominates_trans c.clock b.clock a.clock,
    dominates_total a.clock b.clock,
    dominates_total b.clock c.clock,
    dominates_trans a.clock b.clock c.clock,
    dominates_trans c.clock a.clock b.clock,
    dominates_trans b.clock a.clock c.clock,
    dominates-at_least a.clock b.clock,
    dominates-at_least b.clock a.clock,
    dominates-at_least b.clock c.clock,
    dominates-at_least c.clock b.clock,
    dominates-at_least a.clock c.clock,
    dominates-at_least c.clock a.clock,
  )

  pub join_comm : (a b : Option (Entry V)) → Agree a b → join a b ≡ join b a
  unfolding join
  join_comm none none h = refl
  join_comm none (some b) h = refl
  join_comm (some a) none h = refl
  join_comm (some a) (some b) h = ground (
    arith,
    h,
    dominates_total a.clock b.clock,
    dominates_antisymm a.clock b.clock,
    dominates-at_least a.clock b.clock,
    dominates-at_least b.clock a.clock,
  )

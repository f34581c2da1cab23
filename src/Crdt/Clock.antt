-- ===== src/Crdt/Clock.antt =====
-- pkg/crdt/lwwmap.go: `Clock`, `Entry` and the order `dominates` that settles conflicts.
use p2p_gossip_lb.Prelude.{ℕ, ◌≡◌, ◌⊎◌, Bool, true, false, arith, ltb, if◌then◌else◌}
use p2p_gossip_lb.Prelude.Int.{ℤ, leb_ℤ, eq_of_parts}

-- `Lamport` is a `uint64`, `UnixNano` an `int64`.
pub record Clock : Type 0 where
  pub lamport : ℕ
  pub unix_nano : ℤ

pub record Entry {ℓ} (V : Type ℓ) : Type ℓ where
  pub value : V
  pub clock : Clock
  pub tombstone : Bool

unfoldable pub dominates : Clock → Clock → Bool
dominates lhs rhs =
    if ltb rhs.lamport lhs.lamport
    then true
    else if ltb lhs.lamport rhs.lamport
    then false
    else leb_ℤ rhs.unix_nano lhs.unix_nano

pub dominates_refl : (c : Clock) → dominates c c ≡ true
unfolding dominates
dominates_refl c = ground arith

pub dominates_total : (c d : Clock) → (dominates c d ≡ true) ⊎ (dominates d c ≡ true)
unfolding dominates
dominates_total c d = ground arith

pub dominates_trans :
    (c d e : Clock) → dominates c d ≡ true → dominates d e ≡ true → dominates c e ≡ true
unfolding dominates
dominates_trans c d e h k = ground arith

pub dominates_antisymm : (c d : Clock) → dominates c d ≡ true → dominates d c ≡ true → c ≡ d
unfolding dominates
dominates_antisymm c d h k = ground (arith, eq_of_parts c.unix_nano d.unix_nano)

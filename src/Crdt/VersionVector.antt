-- ===== src/Crdt/VersionVector.antt =====
-- pkg/crdt/lwwmap.go: `VersionVector`, the counters of anti-entropy, and their comparison.
pub mod Order
use p2p_gossip_lb.Prelude.{
  ℕ, Bool, true, false, ◌&&◌, Option, none, some, List, [], ◌∷◌, ◌++◌, map, ltb, if◌then◌else◌,
}
use p2p_gossip_lb.Prelude.Text.{Text, dec_text}
use p2p_gossip_lb.GoMap
use p2p_gossip_lb.GoMap.{GoMap}

-- The counters are `uint64`.
pub record VersionVector : Type 0 where
  pub vv : GoMap Text ℕ

abbrev pub new_version_vector : VersionVector
new_version_vector = record { vv = [] }

-- `current, ok := v.vv[nodeID]; !ok || counter > current`
abbrev raises : ℕ → Option ℕ → Bool
raises counter none = true
raises counter (some current) = ltb current counter

pub bump : VersionVector → Text → ℕ → VersionVector
bump v node_id counter =
    if raises counter (GoMap.get dec_text node_id v.vv)
    then record { vv = GoMap.put dec_text node_id counter v.vv }
    else v

-- `Snapshot` copies the counters.
abbrev pub snapshot : VersionVector → GoMap Text ℕ
snapshot v = v.vv

-- `m[k]`, which is 0 where the key is missing
abbrev or_zero : Option ℕ → ℕ
or_zero none = 0
or_zero (some n) = n

unfoldable pub count_at : GoMap Text ℕ → Text → ℕ
count_at m k = or_zero (GoMap.get dec_text k m)

pub data Comparison : Type 0 where
  concurrent descendant ancestor equal : Comparison

abbrev pub keys : GoMap Text ℕ → List Text
keys = map (λ e. e.0)

-- the `switch` after the loop of `Compare`
abbrev pub conclude : Bool → Bool → Comparison
conclude true other_greater = descendant
conclude false true = ancestor
conclude false false = equal

-- The loop of `Compare`, over the keys of both. A key that stands twice in the list is looked at
-- twice, which the flags do not show.
pub compare_loop : GoMap Text ℕ → GoMap Text ℕ → List Text → Bool → Bool → Comparison
compare_loop self other [] self_greater other_greater = conclude self_greater other_greater
compare_loop self other (k ∷ ks) self_greater other_greater =
    let s = count_at self k in
    let o = count_at other k in
    let self_greater' = if ltb o s then true else self_greater in
    let other_greater' =
      if ltb o s then other_greater else if ltb s o then true else other_greater in
    let rest = compare_loop self other ks self_greater' other_greater' in
    if self_greater' && other_greater' then concurrent else rest

pub compare : VersionVector → GoMap Text ℕ → Comparison
unfolding compare_loop
compare v other = compare_loop (snapshot v) other (keys (snapshot v) ++ keys other) false false

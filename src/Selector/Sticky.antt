-- ===== src/Selector/Sticky.antt =====
-- pkg/selector/selector.go: `stickyKey`, `ipBucket`, `stickyChoice` and `shouldStick`.
use p2p_gossip_lb.Prelude.{
  ℕ, zero, suc, ◌%◌, ◌<◌, ◌≡◌, Bool, true, false, not, Option, none, some, List, [], ◌∷◌, ◌++◌,
  length, ltb, if◌then◌else◌, arith,
}
use p2p_gossip_lb.Prelude.Int.{pos}
use p2p_gossip_lb.Prelude.Text.{Text, codes, text_eq}
use p2p_gossip_lb.Selector.Floats.{Floats}
use p2p_gossip_lb.Selector.Hash.{sip_hash24}
use p2p_gossip_lb.Selector.Request.{RequestContext}
use p2p_gossip_lb.Selector.Choice.{sum_from, first_above, or_last, or_last-lt}

-- `mask[i] = 0` from index `i` on
abbrev zero_from : ℕ → Text → Text
zero_from i [] = []
zero_from zero (b ∷ bs) = 0 ∷ zero_from zero bs
zero_from (suc i) (b ∷ bs) = b ∷ zero_from i bs

-- `ipBucket`; `to4`, `to16` and `ip_string` are the methods of `net.IP`.
unfoldable ip_bucket : (to4 to16 : Text → Option Text) → (ip_string : Text → Text) → Text → Text
ip_bucket to4 to16 ip_string ip = elim (to4 ip) [
  | some v4 ↦ ip_string (zero_from 3 v4)
  | none ↦ elim (to16 ip) [ none ↦ codes "unknown" | some v6 ↦ ip_string (zero_from 6 v6) ]
]

abbrev ip_key : Option Text → (Text → Text) → Text
ip_key none bucket = []
ip_key (some ip) bucket = codes "ip:" ++ bucket ip

-- `stickyKey`, with `ipBucket` as its argument
unfoldable pub sticky_key : (Text → Text) → RequestContext → Text
sticky_key bucket ctx =
    if not (text_eq ctx.api_key [])
    then codes "key:" ++ ctx.api_key
    else if not (text_eq ctx.jwt_sub [])
    then codes "jwt:" ++ ctx.jwt_sub
    else ip_key ctx.client_ip bucket

module _ (floats : Floats) where
  open floats use {Float, zero as zero_float, one, add, div, lt, le, eq, of_int}

  -- `stickyChoice`, on the weights of the candidates
  unfoldable pub sticky_choice : Text → List Float → ℕ × Bool
  unfolding first_above
  sticky_choice key weights =
      let total = sum_from floats zero_float weights in
      if eq total zero_float
      then (0, ltb 0 (length weights))
      else let r = div (of_int (pos (sip_hash24 key % 1000000))) (of_int (pos 1000000)) in
        (
          or_last floats (first_above floats r (λ cum. div cum total) zero_float 0 weights)
              (length weights),
          true,
        )

  -- `shouldStick`; `draw` is the result of `randFloat64`, with `none` for its error.
  unfoldable pub should_stick : Float → Option Float → Bool
  should_stick prob draw =
      if le prob zero_float
      then false
      else if le one prob
      then true
      else elim draw [ none ↦ true | some r ↦ lt r prob ]

  pub sticky_choice-lt :
      (key : Text) (weights : List Float)
      → 0 < length weights
      → (sticky_choice key weights).0 < length weights
  unfolding sticky_choice
  sticky_choice-lt key weights h = ground (
    arith,
    or_last-lt floats (div (of_int (pos (sip_hash24 key % 1000000))) (of_int (pos 1000000)))
        (λ cum. div cum (sum_from floats zero_float weights)) weights h,
  )

  pub sticky_choice-ok :
      (key : Text) (weights : List Float)
      → 0 < length weights
      → (sticky_choice key weights).1 ≡ true
  unfolding sticky_choice
  sticky_choice-ok key weights h = ground arith

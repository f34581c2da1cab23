-- ===== src/Selector/Pick.antt =====
-- pkg/selector/selector.go: `Pick`, with what it draws and reads on the way as an argument.
pub mod Outcome
use p2p_gossip_lb.Prelude.{
  ℕ, ◌+◌, ◌-◌, ◌%◌, ◌<◌, ◌≡◌, refl, Bool, true, false, not, ◌&&◌, ◌||◌, Option, none, some, List,
  [], ◌∷◌, ◌++◌, map, length, ltb, ◌==◌, if◌then◌else◌, is_some, get_elem?,
}
use p2p_gossip_lb.Prelude.Int.{ℤ, pos, ltb_ℤ, ◌-ℤ◌, int64}
use p2p_gossip_lb.Prelude.Text.{Text, codes, text_eq}
use p2p_gossip_lb.Registry.Models.{BackendMetrics}
use p2p_gossip_lb.Selector.Floats.{Floats}
use p2p_gossip_lb.Prelude.Strings.{to_lower}
use p2p_gossip_lb.Selector.Request.{RequestContext, is_hot_method, is_heavy_method}
use p2p_gossip_lb.Selector.Filter.{Candidate, Config, Environment, filter_candidates}
use p2p_gossip_lb.Selector.Choice.{softmax_weights, weighted_choice}
use p2p_gossip_lb.Selector.Sticky.{sticky_key, sticky_choice, should_stick}

-- `maxInt64`
abbrev max_int64 : ℤ → ℤ → ℤ
max_int64 a b = if ltb_ℤ b a then a else b

-- What `Pick` gets from outside: two results of `randFloat64`, `none` for its error, and the clock.
pub record Draws (Float : Type 0) : Type 0 where
  pub stick : Option Float
  pub choice : Option Float
  pub now_nano : ℕ

module _ (floats : Floats) where
  open floats use {Float, zero as zero_float, one, one_tenth, add, mul, le, of_int, widen}

  -- `ErrNoBackend`, an index out of range, or the candidate.
  pub data Picked : Type 0 where
    no_backend : Picked
    out_of_range : Picked
    picked : Candidate floats → Picked

  -- `methodBias`
  unfoldable pub method_bias : RequestContext → BackendMetrics floats.Float32 → Float
  unfolding to_lower is_hot_method is_heavy_method
  method_bias ctx metrics =
      let method = to_lower ctx.method in
      if is_hot_method method
      then mul one_tenth (widen metrics.rtt_ms)
      else if is_heavy_method method
      then mul one_tenth (widen metrics.cpu)
      else zero_float

  -- The body of the scoring loop.
  unfoldable pub scored :
      RequestContext → Environment → Config floats → Candidate floats → Candidate floats
  unfolding method_bias
  scored ctx env cfg c =
      let lag = of_int (max_int64 (pos 0) (int64 (env.best_height -ℤ c.metrics.height))) in
      let w = cfg.weights in
      let sum =
        add
          (add
            (add
              (add (add (mul w.rtt (widen c.metrics.rtt_ms)) (mul w.p95 (widen c.metrics.p95_ms)))
                (mul w.cpu (widen c.metrics.cpu)))
              (mul w.geo c.geo_penalty))
            (mul w.fail_rate (widen c.metrics.fail_rate)))
          (mul w.height_lag lag) in
      let biased = add sum (method_bias ctx c.metrics) in
      record {
        meta = c.meta;
        metrics = c.metrics;
        geo_penalty = c.geo_penalty;
        score = if is_some ctx.height then add biased cfg.cacheable_height_bias else biased;
        weight = c.weight;
      }

  abbrev with_weight : Candidate floats → Float → Candidate floats
  with_weight c w = record {
    meta = c.meta;
    metrics = c.metrics;
    geo_penalty = c.geo_penalty;
    score = c.score;
    weight = w;
  }

  -- `cand[i].Weight = weights[i]`
  pub set_weights : List (Candidate floats) → List Float → List (Candidate floats)
  set_weights [] ws = []
  set_weights (c ∷ cs) [] = c ∷ set_weights cs []
  set_weights (c ∷ cs) (w ∷ ws) = with_weight c w ∷ set_weights cs ws

  -- The index that `Pick` takes.
  pub pick_index :
      (Text → Text)
      → RequestContext
      → Config floats
      → Draws Float
      → List (Candidate floats)
      → List Float
      → ℕ
  unfolding sticky_key should_stick sticky_choice weighted_choice
  pick_index bucket ctx cfg draws cands weights =
      let sticky = sticky_key bucket ctx in
      let stuck = sticky_choice floats sticky (map (λ c. c.weight) cands) in
      if not (text_eq sticky [])
        && (le one cfg.stickiness_probability
            || should_stick floats cfg.stickiness_probability draws.stick)
        && stuck.1
      then stuck.0
      else weighted_choice floats weights draws.choice draws.now_nano

  abbrev pub at_index : List (Candidate floats) → ℕ → Picked
  at_index cands i = elim (get_elem? cands i) [ none ↦ out_of_range | some c ↦ picked c ]

  abbrev pub pick_from :
      (Text → Text)
      → RequestContext
      → Environment
      → Config floats
      → Draws Float
      → List (Candidate floats)
      → Picked
  pick_from bucket ctx env cfg draws [] = no_backend
  pick_from bucket ctx env cfg draws (c ∷ cs) =
      let cands = map (scored ctx env cfg) (c ∷ cs) in
      let weights = softmax_weights floats (map (λ c. c.score) cands) cfg.softmax_temperature in
      let weighted = set_weights cands weights in
      at_index weighted (pick_index bucket ctx cfg draws weighted weights)

  -- `Pick`; `bucket` is `ipBucket`.
  unfoldable pub pick :
      (Text → Text)
      → RequestContext
      → Environment
      → List (Candidate floats)
      → Config floats
      → Draws Float
      → Picked
  unfolding scored set_weights pick_index softmax_weights filter_candidates
  pick bucket ctx env pool cfg draws =
      pick_from bucket ctx env cfg draws (filter_candidates floats ctx env pool cfg)

-- ===== src/Selector/Filter.antt =====
-- pkg/selector/selector.go: `Candidate`, `Config` and `filterCandidates`.
pub mod Sound
use p2p_gossip_lb.Prelude.{
  ℕ, Bool, true, false, not, ◌&&◌, ◌||◌, Option, none, some, List, [], ◌∷◌, if◌then◌else◌, is_some,
}
use p2p_gossip_lb.Prelude.Int.{ℤ, ltb_ℤ, ◌-ℤ◌, int64}
use p2p_gossip_lb.Prelude.Text.{Text, codes, text_eq, dec_text}
use p2p_gossip_lb.GoMap
use p2p_gossip_lb.Registry.Models.{BackendMeta, BackendMetrics}
use p2p_gossip_lb.Selector.Floats.{Floats}
use p2p_gossip_lb.Prelude.Strings.{to_lower}
use p2p_gossip_lb.Selector.Request.{RequestContext, capability_for_request}

-- `m[k]` of a `map[string]bool`
abbrev pub flag : Option Bool → Bool
flag none = false
flag (some b) = b

-- `metrics.Height < minHeight && ctx.Height == nil`, and `ctx.Height != nil && metrics.Height < *ctx.Height`
abbrev pub too_low : Option ℤ → ℤ → ℤ → Bool
too_low none min_height height = ltb_ℤ height min_height
too_low (some wanted) min_height height = ltb_ℤ height wanted

pub record Environment : Type 0 where
  pub best_height : ℤ

module _ (floats : Floats) where
  pub record Candidate : Type 0 where
    pub meta : BackendMeta
    pub metrics : BackendMetrics floats.Float32
    pub geo_penalty : floats.Float
    pub score : floats.Float
    pub weight : floats.Float

  pub record ScoreWeights : Type 0 where
    pub rtt : floats.Float
    pub p95 : floats.Float
    pub cpu : floats.Float
    pub geo : floats.Float
    pub fail_rate : floats.Float
    pub height_lag : floats.Float

  pub record Config : Type 0 where
    pub weights : ScoreWeights
    pub height_delta : ℤ
    pub softmax_temperature : floats.Float
    pub stickiness_probability : floats.Float
    pub cacheable_height_bias : floats.Float
    pub sticky_fallback_randomize : Bool  -- nothing reads it

  -- The loop's body: whether the candidate gets past every `continue`. `capabilityForRequest` never
  -- returns the empty string, so that test is left in as the code has it.
  pub passes : RequestContext → Text → ℤ → Candidate → Bool
  passes ctx cap_needed min_height candidate =
      if not (text_eq candidate.meta.chain_id ctx.chain_id)
      then false
      else if not (text_eq cap_needed [])
          && not (flag (GoMap.get dec_text cap_needed candidate.meta.caps))
      then false
      else if not (text_eq (to_lower candidate.metrics.health) (codes "ok"))
      then false
      else if candidate.metrics.catching_up
      then false
      else not (too_low ctx.height min_height candidate.metrics.height)

  filter_loop : RequestContext → Text → ℤ → List Candidate → List Candidate
  unfolding passes
  filter_loop ctx cap_needed min_height [] = []
  filter_loop ctx cap_needed min_height (c ∷ pool) =
      let rest = filter_loop ctx cap_needed min_height pool in
      if passes ctx cap_needed min_height c then c ∷ rest else rest

  unfoldable pub filter_candidates :
      RequestContext → Environment → List Candidate → Config → List Candidate
  unfolding filter_loop capability_for_request
  filter_candidates ctx env pool cfg =
      filter_loop ctx (capability_for_request ctx) (int64 (env.best_height -ℤ cfg.height_delta))
        pool

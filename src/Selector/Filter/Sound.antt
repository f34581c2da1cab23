-- ===== src/Selector/Filter/Sound.antt =====
-- What `filterCandidates` lets through.
use p2p_gossip_lb.Prelude.{
  ◌≡◌, refl, ◌↔◌, inl, inr, Bool, true, false, Option, none, some, List, [], ◌∷◌, In, Bool-cases,
  ◌||◌, if◌then◌else◌, arith,
}
use p2p_gossip_lb.Prelude.Int.{ℤ, ◌-ℤ◌, int64, ◌≤ℤ◌}
use p2p_gossip_lb.Prelude.Text.{Text, codes, text_eq, dec_text, eq_of_text_eq, text_eq_of_eq}
use p2p_gossip_lb.GoMap
use p2p_gossip_lb.Selector.Floats.{Floats}
use p2p_gossip_lb.Prelude.Strings.{to_lower, contains, has_prefix}
use p2p_gossip_lb.Selector.Request.{RequestContext, capability_for_request}
use p2p_gossip_lb.Selector.Filter.{
  Candidate, Config, Environment, flag, passes, filter_loop, filter_candidates, too_low,
}

-- At least the height that the request names, or that the configured lag allows.
abbrev lowest : Option ℤ → ℤ → ℤ
lowest none min_height = min_height
lowest (some wanted) min_height = wanted

high_of_not-too_low :
    (wanted : Option ℤ) (min_height height : ℤ)
    → too_low wanted min_height height ≡ false
    → lowest wanted min_height ≤ℤ height
high_of_not-too_low none min_height height h = ground arith
high_of_not-too_low (some w) min_height height h = ground arith

not-too_low_of_high :
    (wanted : Option ℤ) (min_height height : ℤ)
    → lowest wanted min_height ≤ℤ height
    → too_low wanted min_height height ≡ false
not-too_low_of_high none min_height height h = ground arith
not-too_low_of_high (some w) min_height height h = ground arith

class-nonempty :
    (ws grpc lcd : Bool)
    → text_eq
        (if ws
          then codes "ws"
          else if grpc
          then codes "grpc"
          else if lcd
          then codes "lcd"
          else codes "rpc")
        []
      ≡ false
unfolding dec_text
class-nonempty true grpc lcd = refl
class-nonempty false true lcd = refl
class-nonempty false false true = refl
class-nonempty false false false = refl

capability-nonempty : (ctx : RequestContext) → text_eq (capability_for_request ctx) [] ≡ false
unfolding capability_for_request
capability-nonempty ctx =
    let path = to_lower ctx.path in
    class-nonempty ctx.need_ws (contains path (codes "grpc"))
      (has_prefix path (codes "/cosmos") || contains path (codes "/lcd"))

module _ (floats : Floats) where
  -- A backend that can take the request.
  pub record Eligible (ctx : RequestContext) (env : Environment) (cfg : Config floats)
      (c : Candidate floats) : Type 0 where
    pub right_chain : c.meta.chain_id ≡ ctx.chain_id
    pub has_capability : flag (GoMap.get dec_text (capability_for_request ctx) c.meta.caps) ≡ true
    pub healthy : to_lower c.metrics.health ≡ codes "ok"
    pub caught_up : c.metrics.catching_up ≡ false
    pub high_enough :
        lowest ctx.height (int64 (env.best_height -ℤ cfg.height_delta)) ≤ℤ c.metrics.height

  In-filter_loop :
      (ctx : RequestContext) (need : Text) (min_height : ℤ) (pool : List (Candidate floats))
      (c : Candidate floats)
      → In c (filter_loop floats ctx need min_height pool)
      → In c pool × (passes floats ctx need min_height c ≡ true)
  unfolding filter_loop
  In-filter_loop ctx need min_height [] c h = grind arith
  In-filter_loop ctx need min_height (x ∷ pool) c h =
      elim (Bool-cases (passes floats ctx need min_height x)) [
        | inl e ↦ grind (arith, In-filter_loop ctx need min_height pool c)
        | inr e ↦ grind (arith, In-filter_loop ctx need min_height pool c)
      ]

  filter_loop-In :
      (ctx : RequestContext) (need : Text) (min_height : ℤ) (pool : List (Candidate floats))
      (c : Candidate floats)
      → In c pool
      → passes floats ctx need min_height c ≡ true
      → In c (filter_loop floats ctx need min_height pool)
  unfolding filter_loop
  filter_loop-In ctx need min_height [] c h k = grind arith
  filter_loop-In ctx need min_height (x ∷ pool) c h k =
      elim (Bool-cases (passes floats ctx need min_height x)) [
        | inl e ↦ grind (arith, filter_loop-In ctx need min_height pool c)
        | inr e ↦ grind (arith, filter_loop-In ctx need min_height pool c)
      ]

  passes-Eligible :
      (ctx : RequestContext) (env : Environment) (cfg : Config floats) (c : Candidate floats)
      → passes floats ctx
          (capability_for_request ctx)
          (int64 (env.best_height -ℤ cfg.height_delta))
          c
        ≡ true
      → Eligible ctx env cfg c
  unfolding passes
  passes-Eligible ctx env cfg c h = record {
    right_chain = eq_of_text_eq c.meta.chain_id ctx.chain_id (grind arith);
    has_capability = grind (arith, capability-nonempty ctx);
    healthy = eq_of_text_eq (to_lower c.metrics.health) (codes "ok") (grind arith);
    caught_up = grind arith;
    high_enough = high_of_not-too_low ctx.height _ _ (grind arith);
  }

  Eligible-passes :
      (ctx : RequestContext) (env : Environment) (cfg : Config floats) (c : Candidate floats)
      → Eligible ctx env cfg c
      → passes floats ctx
          (capability_for_request ctx)
          (int64 (env.best_height -ℤ cfg.height_delta))
          c
        ≡ true
  unfolding passes
  Eligible-passes ctx env cfg c e =
      let chain = text_eq_of_eq c.meta.chain_id ctx.chain_id e.right_chain in
      let health = text_eq_of_eq (to_lower c.metrics.health) (codes "ok") e.healthy in
      let cap = e.has_capability in
      let caught = e.caught_up in
      let high = not-too_low_of_high ctx.height _ c.metrics.height e.high_enough in grind arith

  -- A candidate is left by `filterCandidates` just when it stands in the pool and can take the
  -- request: it serves the chain and has the capability that the request needs, reports "ok" in any
  -- case of letters, is not catching up, and is at the height that the request names or, if it names
  -- none, at most `HeightDelta` (in 64-bit arithmetic) below the best one.
  pub filter_candidates_lem :
      (ctx : RequestContext) (env : Environment) (pool : List (Candidate floats))
      (cfg : Config floats) (c : Candidate floats)
      → In c (filter_candidates floats ctx env pool cfg) ↔ (In c pool × Eligible ctx env cfg c)
  unfolding filter_candidates
  filter_candidates_lem ctx env pool cfg c = (
    λ h. let k = In-filter_loop ctx _ _ pool c h in (k.0, passes-Eligible ctx env cfg c k.1),
    λ k. filter_loop-In ctx _ _ pool c k.0 (Eligible-passes ctx env cfg c k.1),
  )

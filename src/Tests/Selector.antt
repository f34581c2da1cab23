-- ===== src/Tests/Selector.antt =====
-- A concrete pool for pkg/selector/selector.go, with numbers in place of `float64`.
use p2p_gossip_lb.Prelude.{
  true, ℕ, suc, ◌+◌, ◌-◌, ◌*◌, ◌/◌, ◌≡◌, ◌⊎◌, ◌↔◌, false, none, some, [], ◌∷◌, In, ltb, leb, ◌==◌,
}
use p2p_gossip_lb.Prelude.Int.{pos, pos_part}
use p2p_gossip_lb.Prelude.Text.{codes, dec_text}
use p2p_gossip_lb.Selector.Floats.{Floats}
use p2p_gossip_lb.Selector.Request.{RequestContext}
use p2p_gossip_lb.Selector.Filter.{Candidate, Config, Environment, filter_candidates}
use p2p_gossip_lb.Selector.Filter.Sound.{Eligible, filter_candidates_lem}
use p2p_gossip_lb.Selector.Sticky.{sticky_key}
use p2p_gossip_lb.Selector.Pick.{Draws, no_backend, picked, pick}
use p2p_gossip_lb.Selector.Pick.Outcome.{pick_lem}
use p2p_gossip_lb.Tests.Registry.{good, measured}

abbrev pub counts : Floats
counts = record {
  Float = ℕ;
  Float32 = ℕ;
  widen = λ x. x;
  of_int = λ z. pos_part z;
  zero = 0;
  one = 1;
  one_tenth = 0;
  add = λ x y. x + y;
  sub = λ x y. x - y;
  mul = λ x y. x * y;
  div = λ x y. x / suc (y - 1);
  neg = λ x. x;
  exp = λ x. 1;
  lt = ltb;
  le = leb;
  eq = λ x y. x == y;
}

abbrev pub ctx : RequestContext
ctx = record {
  chain_id = codes "c";
  method = codes "status";
  path = codes "/";
  need_ws = false;
  height = none;
  client_ip = none;
  api_key = codes "k";
  jwt_sub = [];
}

abbrev pub env : Environment
env = record { best_height = pos 8 }

abbrev pub cfg : Config counts
cfg = record {
  weights = record { rtt = 1; p95 = 1; cpu = 1; geo = 1; fail_rate = 1; height_lag = 1 };
  height_delta = pos 2;
  softmax_temperature = 1;
  stickiness_probability = 1;
  cacheable_height_bias = 0;
  sticky_fallback_randomize = true;
}

abbrev pub candidate : Candidate counts
candidate = record { meta = good; metrics = measured; geo_penalty = 0; score = 0; weight = 0 }

abbrev lucky : Draws ℕ
lucky = record { stick = some 0; choice = some 0; now_nano = 5 }

abbrev pub broken : Draws ℕ
broken = record { stick = none; choice = none; now_nano = 7 }

filter_candidates_lem_example :
    In candidate (filter_candidates counts ctx env (candidate ∷ []) cfg)
    ↔ (In candidate (candidate ∷ []) × Eligible counts ctx env cfg candidate)
filter_candidates_lem_example = filter_candidates_lem counts ctx env (candidate ∷ []) cfg candidate

pick_lem_example :
    ((pick counts (λ ip. ip) ctx env (candidate ∷ []) cfg broken ≡ no_backend)
      × (filter_candidates counts ctx env (candidate ∷ []) cfg ≡ []))
    ⊎ ((c : Candidate counts) × (c0 : Candidate counts) × (pick counts
            (λ ip. ip)
            ctx
            env
            (candidate ∷ [])
            cfg
            broken
          ≡ picked c)
        × (In c0 (candidate ∷ []))
        × Eligible counts ctx env cfg c0
        × (c.meta ≡ c0.meta)
        × (c.metrics ≡ c0.metrics))
pick_lem_example = pick_lem counts (λ ip. ip) ctx env (candidate ∷ []) cfg broken

keyed : ¬ (sticky_key (λ ip. ip) ctx ≡ [])
unfolding sticky_key dec_text
keyed = λ e. cc

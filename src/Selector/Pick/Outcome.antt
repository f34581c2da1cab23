-- ===== src/Selector/Pick/Outcome.antt =====
-- What `Pick` returns, and when it is deterministic.
use p2p_gossip_lb.Prelude.{
  ℕ, zero, suc, ◌<◌, ◌≡◌, refl, ap, ◌⊎◌, inl, inr, true, List, [], ◌∷◌, map, length, In, length-map,
  arith,
}
use p2p_gossip_lb.Prelude.Text.{Text, text_eq_of_ne}
use p2p_gossip_lb.Selector.Floats.{Floats}
use p2p_gossip_lb.Selector.Request.{RequestContext}
use p2p_gossip_lb.Selector.Filter.{Candidate, Config, Environment, filter_candidates}
use p2p_gossip_lb.Selector.Filter.Sound.{Eligible, filter_candidates_lem}
use p2p_gossip_lb.Selector.Choice.{softmax_weights, weighted_choice-lt, length-softmax_weights}
use p2p_gossip_lb.Selector.Sticky.{sticky_key, sticky_choice-lt, sticky_choice-ok}
use p2p_gossip_lb.Selector.Pick.{
  Draws, Picked, no_backend, picked, scored, set_weights, pick_index, at_index, pick_from, pick,
}

module _ (floats : Floats) where
  open floats use {Float, one, le}

  length-set_weights :
      (cs : List (Candidate floats)) (ws : List Float)
      → length (set_weights floats cs ws) ≡ length cs
  unfolding set_weights
  length-set_weights [] ws = refl
  length-set_weights (c ∷ cs) [] = ground (arith, length-set_weights cs [])
  length-set_weights (c ∷ cs) (w ∷ ws) = ground (arith, length-set_weights cs ws)

  -- `Pick` returned a candidate with the backend and the measurements of one in the list.
  abbrev TakenFrom : List (Candidate floats) → Picked floats → Type 0
  TakenFrom cs out =
      (c : Candidate floats) × (c0 : Candidate floats) × (out ≡ picked c)
      × In c0 cs
      × (c.meta ≡ c0.meta)
      × (c.metrics ≡ c0.metrics)

  later :
      (x : Candidate floats) (cs : List (Candidate floats)) (out : Picked floats)
      → TakenFrom cs out
      → TakenFrom (x ∷ cs) out
  later x cs out (c, c0, e, h, m, n) = (c, c0, e, inr h, m, n)

  at_index-TakenFrom :
      (ctx : RequestContext) (env : Environment) (cfg : Config floats)
      (cs : List (Candidate floats)) (ws : List Float) (i : ℕ)
      → i < length cs
      → TakenFrom cs
          (at_index floats (set_weights floats (map (scored floats ctx env cfg) cs) ws) i)
  unfolding set_weights scored
  at_index-TakenFrom ctx env cfg [] ws i h = ground arith
  at_index-TakenFrom ctx env cfg (c ∷ cs) [] zero h = (_, c, refl, inl refl, refl, refl)
  at_index-TakenFrom ctx env cfg (c ∷ cs) [] (suc i) h =
      later c cs _ (at_index-TakenFrom ctx env cfg cs [] i (ground arith))
  at_index-TakenFrom ctx env cfg (c ∷ cs) (w ∷ ws) zero h = (_, c, refl, inl refl, refl, refl)
  at_index-TakenFrom ctx env cfg (c ∷ cs) (w ∷ ws) (suc i) h =
      later c cs _ (at_index-TakenFrom ctx env cfg cs ws i (ground arith))

  pick_index-lt :
      (bucket : Text → Text) (ctx : RequestContext) (cfg : Config floats) (draws : Draws Float)
      (cs : List (Candidate floats)) (ws : List Float)
      → 0 < length cs
      → length ws ≡ length cs
      → pick_index floats bucket ctx cfg draws cs ws < length cs
  unfolding pick_index
  pick_index-lt bucket ctx cfg draws cs ws h e =
      let by_weight = weighted_choice-lt floats ws draws.choice draws.now_nano (ground arith) in
      let lengths = length-map (λ c. c.weight) cs in
      let by_key =
        sticky_choice-lt floats (sticky_key bucket ctx) (map (λ c. c.weight) cs) (ground arith) in
      ground arith

  pick_from-TakenFrom :
      (bucket : Text → Text) (ctx : RequestContext) (env : Environment) (cfg : Config floats)
      (draws : Draws Float) (c : Candidate floats) (cs : List (Candidate floats))
      → TakenFrom (c ∷ cs) (pick_from floats bucket ctx env cfg draws (c ∷ cs))
  pick_from-TakenFrom bucket ctx env cfg draws c cs =
      let cands = map (scored floats ctx env cfg) (c ∷ cs) in
      let scores = map (λ x. x.score) cands in
      let ws = softmax_weights floats scores cfg.softmax_temperature in
      let weighted = set_weights floats cands ws in
      let n_cands = length-map (scored floats ctx env cfg) (c ∷ cs) in
      let n_scores = length-map (λ x. x.score) cands in
      let n_ws = length-softmax_weights floats scores cfg.softmax_temperature in
      let n_weighted = length-set_weights cands ws in
      at_index-TakenFrom ctx env cfg (c ∷ cs) ws
        (pick_index floats bucket ctx cfg draws weighted ws)
        (omega (
          arith,
          pick_index-lt bucket ctx cfg draws weighted ws (omega arith) (omega arith),
          n_weighted,
          n_cands,
        ))

  pick_from_cases :
      (bucket : Text → Text) (ctx : RequestContext) (env : Environment) (cfg : Config floats)
      (draws : Draws Float) (cs : List (Candidate floats))
      → ((cs ≡ []) × (pick_from floats bucket ctx env cfg draws cs ≡ no_backend))
        ⊎ TakenFrom cs (pick_from floats bucket ctx env cfg draws cs)
  pick_from_cases bucket ctx env cfg draws [] = inl (refl, refl)
  pick_from_cases bucket ctx env cfg draws (c ∷ cs) =
      inr (pick_from-TakenFrom bucket ctx env cfg draws c cs)

  -- Whatever is drawn, `Pick` fails with `ErrNoBackend` and `filterCandidates` leaves nothing, or it returns the backend and the measurements of a candidate of the pool that can
  -- take the request. Its indices never leave the list.
  pub pick_lem :
      (bucket : Text → Text) (ctx : RequestContext) (env : Environment)
      (pool : List (Candidate floats)) (cfg : Config floats) (draws : Draws Float)
      → ((pick floats bucket ctx env pool cfg draws ≡ no_backend)
          × (filter_candidates floats ctx env pool cfg ≡ []))
        ⊎ ((c : Candidate floats) × (c0 : Candidate floats) × (pick floats bucket ctx env pool cfg
                draws
              ≡ picked c)
            × (In c0 pool)
            × Eligible floats ctx env cfg c0
            × (c.meta ≡ c0.meta)
            × (c.metrics ≡ c0.metrics))
  unfolding pick
  pick_lem bucket ctx env pool cfg draws =
      elim (pick_from_cases bucket ctx env cfg draws (filter_candidates floats ctx env pool cfg)) [
        | inl (e, h) ↦ inl (h, e)
        | inr (c, c0, e, h, m, n) ↦
            let there = (filter_candidates_lem floats ctx env pool cfg c0).0 h in
            inr (c, c0, e, there.0, there.1, m, n)
      ]

  pick_index_sticky :
      (bucket : Text → Text) (ctx : RequestContext) (cfg : Config floats) (d1 d2 : Draws Float)
      (cs : List (Candidate floats)) (ws : List Float)
      → 0 < length cs
      → ¬ (sticky_key bucket ctx ≡ [])
      → le one cfg.stickiness_probability ≡ true
      → pick_index floats bucket ctx cfg d1 cs ws ≡ pick_index floats bucket ctx cfg d2 cs ws
  unfolding pick_index
  pick_index_sticky bucket ctx cfg d1 d2 cs ws h k p =
      let ok =
        sticky_choice-ok floats (sticky_key bucket ctx) (map (λ c. c.weight) cs)
          (omega (arith, h, length-map (λ c. c.weight) cs)) in
      let keyed = text_eq_of_ne (sticky_key bucket ctx) [] k in rw (ok, keyed, p) refl

  pick_from_sticky :
      (bucket : Text → Text) (ctx : RequestContext) (env : Environment) (cfg : Config floats)
      (d1 d2 : Draws Float) (cs : List (Candidate floats))
      → ¬ (sticky_key bucket ctx ≡ [])
      → le one cfg.stickiness_probability ≡ true
      → pick_from floats bucket ctx env cfg d1 cs ≡ pick_from floats bucket ctx env cfg d2 cs
  pick_from_sticky bucket ctx env cfg d1 d2 [] k p = refl
  pick_from_sticky bucket ctx env cfg d1 d2 (c ∷ cs) k p =
      let cands = map (scored floats ctx env cfg) (c ∷ cs) in
      let ws = softmax_weights floats (map (λ x. x.score) cands) cfg.softmax_temperature in
      let weighted = set_weights floats cands ws in
      let n_cands = length-map (scored floats ctx env cfg) (c ∷ cs) in
      ap (at_index floats weighted) (
        pick_index_sticky bucket ctx cfg d1 d2 weighted ws
          (omega (arith, length-set_weights cands ws, n_cands)) k p)

  -- With a stickiness of 1 or more, a request that has a sticky key (an API key, a JWT subject or a
  -- client address) goes to the same backend whatever is drawn and whatever the clock says.
  pub pick_sticky :
      (bucket : Text → Text) (ctx : RequestContext) (env : Environment)
      (pool : List (Candidate floats)) (cfg : Config floats) (d1 d2 : Draws Float)
      → ¬ (sticky_key bucket ctx ≡ [])
      → le one cfg.stickiness_probability ≡ true
      → pick floats bucket ctx env pool cfg d1 ≡ pick floats bucket ctx env pool cfg d2
  unfolding pick
  pick_sticky bucket ctx env pool cfg d1 d2 k p =
      pick_from_sticky bucket ctx env cfg d1 d2 (filter_candidates floats ctx env pool cfg) k p

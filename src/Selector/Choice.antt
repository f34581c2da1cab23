-- ===== src/Selector/Choice.antt =====
-- pkg/selector/selector.go: `softmaxWeights`, `weightedChoice`, and the loops over weights.
use p2p_gossip_lb.Prelude.{
  ℕ, ◌+◌, ◌-◌, ◌%◌, ◌≤◌, ◌<◌, ◌≡◌, Option, none, some, List, [], ◌∷◌, map, length, length-map,
  Option-cases, inl, inr, mod-lt, ◌==◌, if◌then◌else◌, arith,
}
use p2p_gossip_lb.Prelude.Int.{pos}
use p2p_gossip_lb.Selector.Floats.{Floats}

module _ (floats : Floats) where
  open floats use {Float, zero as zero_float, one, add, sub, div, neg, exp, lt, le, eq, of_int}

  -- `sum += x` over a list
  abbrev pub sum_from : Float → List Float → Float
  sum_from acc [] = acc
  sum_from acc (x ∷ xs) = sum_from (add acc x) xs

  abbrev min_from : Float → List Float → Float
  min_from least [] = least
  min_from least (x ∷ xs) = min_from (if lt x least then x else least) xs

  abbrev min_score : List Float → Float
  min_score [] = zero_float
  min_score (x ∷ xs) = min_from x xs

  -- `softmaxWeights`, from the scores of the candidates, of which there is one at least
  unfoldable pub softmax_weights : List Float → Float → List Float
  softmax_weights scores temperature =
      let t = if le temperature zero_float then one else temperature in
      let least = min_score scores in
      let exps = map (λ score. exp (div (neg (sub score least)) t)) scores in
      let total = sum_from zero_float exps in
      if eq total zero_float
      then map (λ _. div one (of_int (pos (length scores)))) scores
      else map (λ e. div e total) exps

  -- the loop `cum += w; if r <= cum/scale { return i }`: `none` if it runs to its end
  unfoldable pub first_above : Float → (Float → Float) → Float → ℕ → List Float → Option ℕ
  first_above r scale cum i [] = none
  first_above r scale cum i (w ∷ ws) =
      let rest = first_above r scale (add cum w) (i + 1) ws in
      if le r (scale (add cum w)) then some i else rest

  abbrev pub or_last : Option ℕ → ℕ → ℕ
  or_last none n = n - 1
  or_last (some i) n = i

  -- `weightedChoice`; `draw` is the result of `randFloat64`, with `none` for its error, and
  -- `now_nano` the clock that is read then, at a time after 1970
  unfoldable pub weighted_choice : List Float → Option Float → ℕ → ℕ
  unfolding first_above
  weighted_choice weights none now_nano =
      if length weights == 1 then 0 else now_nano % length weights
  weighted_choice weights (some r) now_nano =
      if length weights == 1
      then 0
      else or_last (first_above r (λ c. c) zero_float 0 weights) (length weights)

  first_above-lt :
      (r : Float) (scale : Float → Float) (cum : Float) (i j : ℕ) (ws : List Float)
      → first_above r scale cum i ws ≡ some j
      → (i ≤ j) × (j < i + length ws)
  unfolding first_above
  first_above-lt r scale cum i j [] h = cc
  first_above-lt r scale cum i j (w ∷ ws) h =
      ground (arith, first_above-lt r scale (add cum w) (i + 1) j ws)

  pub or_last-lt :
      (r : Float) (scale : Float → Float) (ws : List Float)
      → 0 < length ws
      → or_last (first_above r scale zero_float 0 ws) (length ws) < length ws
  or_last-lt r scale ws h = elim (Option-cases (first_above r scale zero_float 0 ws)) [
    | inl e ↦ rw (e) (ground arith)
    | inr (j, e) ↦ rw (e) (ground (arith, (first_above-lt r scale zero_float 0 j ws e).1))
  ]

  -- The index stands in the list, whatever is drawn.
  pub weighted_choice-lt :
      (weights : List Float) (draw : Option Float) (now_nano : ℕ)
      → 0 < length weights
      → weighted_choice weights draw now_nano < length weights
  unfolding weighted_choice
  weighted_choice-lt weights none now_nano h = ground (arith, mod-lt now_nano h)
  weighted_choice-lt weights (some r) now_nano h = ground (arith, or_last-lt r (λ c. c) weights h)

  pub length-softmax_weights :
      (scores : List Float) (temperature : Float)
      → length (softmax_weights scores temperature) ≡ length scores
  unfolding softmax_weights
  length-softmax_weights scores temperature = grind (arith, length-map)

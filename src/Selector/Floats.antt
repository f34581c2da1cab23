-- ===== src/Selector/Floats.antt =====
-- `float64` and `float32` as the selector uses them: the types, their operations and tests, with no
-- law. The operations are those of IEEE 754, which this library does not define.
use p2p_gossip_lb.Prelude.{Bool}
use p2p_gossip_lb.Prelude.Int.{ℤ}

pub record Floats : Type 1 where
  pub Float : Type 0
  pub Float32 : Type 0
  pub widen : Float32 → Float
  pub of_int : ℤ → Float
  pub zero : Float
  pub one : Float
  pub one_tenth : Float
  pub add : Float → Float → Float
  pub sub : Float → Float → Float
  pub mul : Float → Float → Float
  pub div : Float → Float → Float
  pub neg : Float → Float
  pub exp : Float → Float
  pub lt : Float → Float → Bool
  pub le : Float → Float → Bool
  pub eq : Float → Float → Bool

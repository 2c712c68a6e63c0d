-- ===== src/Prelude/FloatingPoint.antt =====
-- Binary floating point, which the language does not have: the carrier and the operations that the
-- source applies are a parameter of the modules that use them.
use Prim.Native.Nat.{ℕ}
use mathlib.Core.Bool.{Bool}
use sentinel_edge.Prelude.Tests.{if◌then◌else◌}

pub record Floats : Type 1 where
  pub Float : Type 0
  -- `a < b` and `a <= b`
  pub float_lt : Float → Float → Bool
  pub float_le : Float → Float → Bool
  pub float_add : Float → Float → Float
  pub float_sub : Float → Float → Float
  pub float_div : Float → Float → Float
  -- The value of a decimal literal: `hundredths 85` is `0.85`.
  pub hundredths : ℕ → Float
  pub of_nat : ℕ → Float

module _ (fl : Floats) where
  open fl use {Float, float_lt}

  -- Python's `min(a, b)` and `max(a, b)`: the first argument unless the second is beyond it.
  abbrev pub float_min : Float → Float → Float
  float_min a b = if float_lt b a then b else a

  abbrev pub float_max : Float → Float → Float
  float_max a b = if float_lt a b then b else a

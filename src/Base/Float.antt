-- ===== src/Base/Float.antt =====
-- Python's `float`. A value is its binary64 pattern; most of the program only stores floats. Where
-- it computes with them, the operations are a parameter, with the laws that the code relies on.
use Prim.Native.Nat.{ℕ}

pub record Float : Type 0 where
  pub bits : ℕ

-- 0.0
abbrev pub float_zero : Float
float_zero = record { bits = 0 }

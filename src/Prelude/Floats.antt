-- ===== src/Prelude/Floats.antt =====
-- Go's float64 is not part of the program: its operations are a parameter, and what a theorem
-- needs of them is a named hypothesis.
use Prim.Native.Nat.{ℕ, ◌+◌, ◌-◌, ◌*◌, ◌/◌}
use mathlib.Core.Bool.{Bool}
use mxsentinel.Prelude.Tests.{leb}

-- `leb a b` is `a <= b`; `a < b` is written `ltb a b`.
pub record FloatOps (F : Type 0) : Type 0 where
  pub of_nat : ℕ → F
  pub add : F → F → F
  pub sub : F → F → F
  pub mul : F → F → F
  pub div : F → F → F
  pub leb : F → F → Bool
  pub ltb : F → F → Bool

-- Numbers that stand for thousandths: a concrete instance, on which the code can be run.
abbrev pub milli : FloatOps ℕ
milli = record {
  of_nat = λ n. n * 1000;
  add = λ a b. a + b;
  sub = λ a b. a - b;
  mul = λ a b. a * b / 1000;
  div = λ a b. a * 1000 / b;
  leb = leb;
  ltb = λ a b. leb (a + 1) b;
}

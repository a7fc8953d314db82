-- ===== src/Loadgen/Numbers.antt =====
-- The numbers of the scripts: any type with the operations that the code uses, which are those of
-- JavaScript and, for `random_between`, of the package @demoability/loadgen-core.
use easytrade.Base.{ℕ, String, Bool}

pub record Floats (N : Type 0) : Type 0 where
  -- the literal `m / 10 ^ k`
  pub decimal : ℕ → ℕ → N
  pub le : N → N → Bool
  pub mul : N → N → N
  pub div : N → N → N
  pub max : N → N → N
  pub floor : N → N
  pub ceil : N → N
  pub random_between : N → N → N
  pub show : N → String
  pub parse_float : String → N
  pub parse_int : String → N

-- ===== src/Dsp/FixedPoint.antt =====
-- An arithmetic on which tests run: numbers counted in the `unit_size`-th part of 1.
use tanh_lib.Base.{ℕ, ◌*◌, ◌/◌, ◌+◌, ◌-◌, ◌^◌, ltb, leb, ◌==◌}
use tanh_lib.Dsp.Float.{FloatOps}

abbrev pub fixed_point : ℕ → FloatOps ℕ
fixed_point unit_size = record {
  decimal = λ m k. m * unit_size / 10 ^ k;
  from_size = λ n. n * unit_size;
  add = λ a b. a + b;
  sub = λ a b. a - b;
  mul = λ a b. a * b / unit_size;
  div = λ a b. a * unit_size / b;
  neg = λ a. 0;
  abs = λ a. a;
  exp = λ a. 0;
  lt = ltb;
  le = leb;
  eq = λ a b. a == b;
}

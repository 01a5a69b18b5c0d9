-- ===== src/Floats/FixedPoint.antt =====
-- Fixed-point numbers with nine decimals as one reading of `Floats`, for the examples.
use Prim.Native.Nat.{max}
use polymarket_cpp_client.Prelude.{ℕ, ◌+◌, ◌-◌, ◌*◌, ◌/◌, ◌%◌, ◌^◌, true, false, ltb, leb, ◌==◌}
use polymarket_cpp_client.Floats.{Floats}

abbrev pub unit : ℕ
unit = 1_000_000_000

abbrev pub fixed_point : Floats
fixed_point = record {
  Double = ℕ;
  Extended = ℕ;
  is_finite = λ x. true;
  is_negative = λ x. false;
  is_not_positive = λ x. x == 0;
  at_least_one = λ x. leb unit x;
  below = ltb;
  next_up = λ x. x + 1;
  next_down = λ x. x - 1;
  times = λ x y. x * y / unit;
  minus = ◌-◌;
  zero_double = 0;
  from_uint64 = λ n. n * unit;
  divide = λ x y. x * unit / y;
  widen = λ x. x;
  narrow = λ x. x;
  whole = λ n. n * unit;
  half = unit / 2;
  power_of_two = λ n. 2 ^ n * unit;
  add = ◌+◌;
  sub = ◌-◌;
  mul = λ x y. x * y / unit;
  floor = λ x. x / unit * unit;
  absolute = λ x. x;
  maximum = max;
  fmod = ◌%◌;
  ext_finite = λ x. true;
  lt = ltb;
  le = leb;
  eq = ◌==◌;
  to_uint64 = λ x. x / unit;
}

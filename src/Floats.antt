-- ===== src/Floats.antt =====
-- The floating point of the C++ implementation: `double`, `long double`, and the operations of the
-- language and of <cmath> that the library calls. It is a parameter of the modules that use it.
pub mod FixedPoint
use polymarket_cpp_client.Prelude.{ℕ, Bool}

pub record Floats : Type 1 where
  pub Double : Type 0
  pub Extended : Type 0
  -- std::isfinite, `x < 0.0`, `x <= 0.0`, `x >= 1.0`
  pub is_finite : Double → Bool
  pub is_negative : Double → Bool
  pub is_not_positive : Double → Bool
  pub at_least_one : Double → Bool
  -- `x < y`
  pub below : Double → Double → Bool
  -- std::nextafter towards +infinity and -infinity
  pub next_up : Double → Double
  pub next_down : Double → Double
  -- `x * y` and `x - y` in double
  pub times : Double → Double → Double
  pub minus : Double → Double → Double
  pub zero_double : Double
  -- static_cast<double>(n) of an uint64, and `x / y`
  pub from_uint64 : ℕ → Double
  pub divide : Double → Double → Double
  -- the conversions between double and long double
  pub widen : Double → Extended
  pub narrow : Extended → Double
  -- the literals n.0L and 0.5L, and std::ldexp(1.0L, n)
  pub whole : ℕ → Extended
  pub half : Extended
  pub power_of_two : ℕ → Extended
  -- long double arithmetic
  pub add : Extended → Extended → Extended
  pub sub : Extended → Extended → Extended
  pub mul : Extended → Extended → Extended
  pub floor : Extended → Extended
  pub absolute : Extended → Extended
  pub maximum : Extended → Extended → Extended
  pub fmod : Extended → Extended → Extended
  pub ext_finite : Extended → Bool
  -- `x < y`, `x <= y`, `x == y`
  pub lt : Extended → Extended → Bool
  pub le : Extended → Extended → Bool
  pub eq : Extended → Extended → Bool
  -- static_cast<std::uint64_t>
  pub to_uint64 : Extended → ℕ

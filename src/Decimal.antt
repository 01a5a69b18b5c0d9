-- ===== src/Decimal.antt =====
-- Scaling of doubles to integers: src/decimal_math.cpp, over the floating point of `Floats`.
use polymarket_cpp_client.Prelude.{ℕ, zero, suc, not, ◌||◌, if◌then◌else◌}
use polymarket_cpp_client.Prelude.Int.{ℤ, pos, ltb_ℤ, pos_part}
use polymarket_cpp_client.Prelude.Except.{
  Except, ok, invalid_argument, out_of_range, ◌>>=◌, ◌>>◌, throw_if,
}
use polymarket_cpp_client.Floats.{Floats}

pub data RoundingMode : Type 0 where
  nearest half_even down : RoundingMode

module _ (F : Floats) where
  open F use {
    Double, Extended, is_finite, is_negative, next_up, next_down, times, minus, widen, narrow,
    whole, half, power_of_two, add, sub, mul, floor, absolute, maximum, fmod, ext_finite, lt, le,
    eq, to_uint64,
  }

  -- `for (i = 0; i < decimals; ++i) scale *= 10.0L;`
  unfoldable pub scale_loop : ℕ → Extended → Extended
  scale_loop zero scale = scale
  scale_loop (suc rounds) scale = scale_loop rounds (mul scale (whole 10))

  unfoldable pub decimal_scale : ℤ → Except Extended
  decimal_scale decimals = do
    throw_if (ltb_ℤ decimals (pos 0) || ltb_ℤ (pos 18) decimals)
        (invalid_argument "decimals must be between 0 and 18")
    ok (scale_loop (pos_part decimals) (whole 1))

  unfoldable pub round_down_with_ulp_correction : Double → Extended → Extended → Extended
  round_down_with_ulp_correction amount scaled scale =
      let lower = floor scaled in
      let next = next_up amount in
      let next_scaled = widen (times next (narrow scale)) in
      if eq scaled lower
      then lower
      else if not (is_finite next)
      then lower
      else if le (add lower (whole 1)) next_scaled
      then add lower (whole 1)
      else lower

  unfoldable pub scaled_input_ulp : Double → Extended → Extended
  scaled_input_ulp amount scale =
      let above = next_up amount in
      let below = next_down amount in
      let above_distance = if is_finite above then widen (minus above amount) else whole 0 in
      let below_distance = if is_finite below then widen (minus amount below) else whole 0 in
      mul (maximum above_distance below_distance) scale

  unfoldable pub round_half_even : Double → Extended → Extended → Extended
  round_half_even amount scaled scale =
      let lower = floor scaled in
      let fraction = sub scaled lower in
      let tolerance = scaled_input_ulp amount scale in
      if le (absolute (sub fraction half)) tolerance
      then (if eq (fmod lower (whole 2)) (whole 0) then lower else add lower (whole 1))
      else if lt fraction half
      then lower
      else add lower (whole 1)

  unfoldable pub checked_uint64 : Extended → Except ℕ
  checked_uint64 integer_value = do
    throw_if
        (not (ext_finite integer_value)
          || lt integer_value (whole 0)
          || le (power_of_two 64) integer_value)
        (out_of_range "scaled amount exceeds uint64 range")
    ok (to_uint64 integer_value)

  unfoldable pub rounded : RoundingMode → Double → Extended → Extended → Extended
  rounded nearest amount scaled scale = floor (add scaled half)
  rounded half_even amount scaled scale = round_half_even amount scaled scale
  rounded down amount scaled scale = round_down_with_ulp_correction amount scaled scale

  unfoldable pub decimal_to_scaled_uint64 : Double → ℤ → RoundingMode → Except ℕ
  decimal_to_scaled_uint64 amount decimals mode = do
    throw_if (not (is_finite amount) || is_negative amount)
        (invalid_argument "amount must be finite and non-negative")
    scale ← decimal_scale decimals
    let scaled = widen (times amount (narrow scale))
    checked_uint64 (rounded mode amount scaled scale)

  unfoldable pub exact_decimal_to_scaled_uint64 : Double → ℤ → Except ℕ
  exact_decimal_to_scaled_uint64 amount decimals = do
    throw_if (not (is_finite amount) || is_negative amount)
        (invalid_argument "amount must be finite and non-negative")
    scale ← decimal_scale decimals
    let scaled = widen (times amount (narrow scale))
    let nearest_value = floor (add scaled half)
    throw_if
        (not (ext_finite scaled)
          || lt (mul (whole 2) (scaled_input_ulp amount scale))
              (absolute (sub scaled nearest_value)))
        (invalid_argument "amount has excess decimal precision")
    checked_uint64 nearest_value

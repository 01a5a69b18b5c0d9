-- ===== src/Amounts/OnTick.antt =====
-- What a validated price says of the double and of the tick size that it was made from.
use text.Mathlib.Text.{◌==◌ as str_eq}
use polymarket_cpp_client.Prelude.{
  ℕ, ◌==◌, ◌≡◌, Bool, true, false, not, ◌||◌, arith, String, Bytes, codes, length, ◌∷◌,
}
use polymarket_cpp_client.Prelude.Int.{pos_part}
use polymarket_cpp_client.Prelude.Except.{Except}
use polymarket_cpp_client.Floats.{Floats}
use polymarket_cpp_client.Decimal.{scale_loop, scaled_input_ulp}
use polymarket_cpp_client.Uint.Decimal.{decimal_from}
use polymarket_cpp_client.Amounts.{OrderRoundingConfig, ValidatedOrderPrice}
use polymarket_cpp_client.Amounts.Price.{IsValidPrice}

-- The tick size is the decimal fraction of `tick_units` with `price_decimals` digits.
pub record IsTickSize (tick_size : String) (r : OrderRoundingConfig) : Type 0 where
  pub digits : Bytes
  pub text : codes tick_size ≡ b'0' ∷ b'.' ∷ digits
  pub precision : length digits ≡ pos_part r.price_decimals
  pub tick : decimal_from 0 digits ≡ r.tick_units

module _ (F : Floats) where
  open F use {Double}

  -- The scaled price as the floating point computes it, and the integer nearest to it.
  abbrev pub scaled_price : Double → F.Extended → F.Extended
  scaled_price price scale = F.widen (F.times price (F.narrow scale))

  abbrev pub nearest_units : Double → F.Extended → F.Extended
  nearest_units price scale = F.floor (F.add (scaled_price price scale) F.half)

  -- The units are the nearest integer, which is off by two units in the last place of the price at most.
  pub record Represents (price : Double) (scale : F.Extended) (units : ℕ) : Type 0 where
    pub finite : F.is_finite price ≡ true
    pub not_negative : F.is_negative price ≡ false
    pub nearest : F.to_uint64 (nearest_units price scale) ≡ units
    pub no_excess :
        F.lt
          (F.mul (F.whole 2) (scaled_input_ulp F price scale))
          (F.absolute (F.sub (scaled_price price scale) (nearest_units price scale)))
        ≡ false
    pub fits : F.le (F.power_of_two 64) (nearest_units price scale) ≡ false

  -- 10 ^ d.
  abbrev pub scale_of : ℕ → F.Extended
  scale_of d = scale_loop F d (F.whole 1)

  not_excess : (finite excess : Bool) → (not finite || excess) ≡ false → excess ≡ false
  not_excess finite excess h = ground arith

  -- What validation says of the price and of the market's tick size.
  pub record IsOnTick (price : Double) (tick_size : String) (p : ValidatedOrderPrice) : Type 0 where
    pub valid : IsValidPrice p
    pub tick : IsTickSize tick_size p.rounding
    pub represents : Represents price (scale_of (pos_part p.rounding.price_decimals)) p.units

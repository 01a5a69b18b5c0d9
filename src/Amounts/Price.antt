-- ===== src/Amounts/Price.antt =====
-- Validated prices: on the tick grid and inside the open range of the market.
use polymarket_cpp_client.Prelude.{
  ℕ, zero, suc, ◌+◌, ◌-◌, ◌*◌, ◌%◌, ◌^◌, ◌<◌, ◌≤◌, ◌≡◌, refl, sym, ap, ◌∙◌, Bool, true, false,
  if◌then◌else◌, ltb, ◌==◌, not, ◌||◌, arith, String, subst,
}
use text.Mathlib.Text.{◌==◌ as str_eq}
use Prim.Native.String.{◌++◌ as str_append}
use native.Mathlib.Nat.{pow-zero, pow-suc, pow-le-pow_right}
use polymarket_cpp_client.Prelude.Int.{pos, pos_part}
use polymarket_cpp_client.Prelude.Except.{
  Except, ok, throw, Exception, invalid_argument, on_bind, on_guard, ok-injective,
}
use polymarket_cpp_client.Floats.{Floats}
use polymarket_cpp_client.Decimal.{exact_decimal_to_scaled_uint64}
use polymarket_cpp_client.Amounts.{
  OrderRoundingConfig, ValidatedOrderPrice, power_loop, power_of_ten, rounding_config_for_tick_size,
  validate_order_price, config,
}

-- A rounding of the tick table: prices have at most four decimals and sizes two, and the tick divides
-- the scale of the prices at least twice.
pub record IsTickConfig (r : OrderRoundingConfig) : Type 0 where
  pub prices : r.price_decimals ≡ pos (pos_part r.price_decimals)
  pub few : pos_part r.price_decimals ≤ 4
  pub sizes : r.size_decimals ≡ pos 2
  pub tick_pos : 0 < r.tick_units
  pub tick_small : r.tick_units * 2 ≤ 10 ^ pos_part r.price_decimals
  pub tick_divides : 10 ^ pos_part r.price_decimals % r.tick_units ≡ 0

config_or :
    (b : Bool) (c r : OrderRoundingConfig) (rest : Except OrderRoundingConfig)
    → IsTickConfig c
    → (rest ≡ ok r → IsTickConfig r)
    → (if b then ok c else rest) ≡ ok r
    → IsTickConfig r
config_or true c r rest here later e = subst IsTickConfig (cc) here
config_or false c r rest here later e = later e

table_entry :
    (price tick : ℕ) (amount : ℕ)
    → price ≤ 4
    → 0 < tick
    → tick * 2 ≤ 10 ^ price
    → 10 ^ price % tick ≡ 0
    → IsTickConfig (config price 2 amount tick)
table_entry price tick amount few tick_pos tick_small divides = record {
  prices = refl;
  few = few;
  sizes = refl;
  tick_pos = tick_pos;
  tick_small = tick_small;
  tick_divides = divides;
}

unsupported : (x : Exception) (r : OrderRoundingConfig) → throw x ≡ ok r → ⊥
unsupported x r e = cc

-- Every tick size that the table knows gives such a rounding.
pub rounding_config-IsTickConfig :
    (tick_size : String) (r : OrderRoundingConfig)
    → rounding_config_for_tick_size tick_size ≡ ok r
    → IsTickConfig r
unfolding rounding_config_for_tick_size
rounding_config-IsTickConfig tick_size r =
    config_or (is "0.1") _ r _ (table_entry 1 1 3 (omega arith) (omega arith) (omega arith) refl) (
      config_or (is "0.01") _ r _ (table_entry 2 1 4 (omega arith) (omega arith) (omega arith) refl)
        (config_or (is "0.005") _ r _
          (table_entry 3 5 5 (omega arith) (omega arith) (omega arith) refl)
          (config_or (is "0.0025") _ r _
            (table_entry 4 25 6 (omega arith) (omega arith) (omega arith) refl)
            (config_or (is "0.001") _ r _
              (table_entry 3 1 5 (omega arith) (omega arith) (omega arith) refl)
              (config_or (is "0.0001") _ r
                (throw (invalid_argument (str_append "unsupported tick size: " tick_size)))
                (table_entry 4 1 6 (omega arith) (omega arith) (omega arith) refl)
                (λ e. absurd (unsupported _ r e)))))))
  where
    is : String → Bool
    is text = str_eq tick_size text

power_loop-pow : (rounds scale : ℕ) → power_loop rounds scale ≡ scale * 10 ^ rounds
unfolding power_loop
power_loop-pow zero scale = omega (arith, pow-zero 10)
power_loop-pow (suc rounds) scale =
    rw (power_loop-pow rounds (scale * 10), pow-suc 10 rounds) (omega arith)

pub power_of_ten-pos : (d : ℕ) → d ≤ 18 → power_of_ten (pos d) ≡ ok (10 ^ d)
unfolding power_of_ten
power_of_ten-pos d h = ground (arith, power_loop-pow d 1)

-- What a validated price promises to the amounts that are computed from it.
pub record IsValidPrice (p : ValidatedOrderPrice) : Type 0 where
  pub tick_config : IsTickConfig p.rounding
  pub scale_pow : p.scale ≡ 10 ^ pos_part p.rounding.price_decimals
  pub units_low : p.rounding.tick_units ≤ p.units
  pub units_high : p.units + p.rounding.tick_units ≤ p.scale
  pub on_grid : p.units % p.rounding.tick_units ≡ 0

accepted :
    (r : OrderRoundingConfig) (scale units : ℕ)
    → IsTickConfig r
    → power_of_ten r.price_decimals ≡ ok scale
    → (ltb units r.tick_units || ltb ((scale + 2 ^ 64 - r.tick_units) % 2 ^ 64) units) ≡ false
    → not (units % r.tick_units == 0) ≡ false
    → IsValidPrice (record { units = units; scale = scale; rounding = r })
accepted r scale units t e in_range on_grid =
    let d : ℕ = pos_part r.price_decimals in
    let scale-eq : scale ≡ 10 ^ d =
      ok-injective (sym e ∙ ap power_of_ten t.prices ∙ power_of_ten-pos d (omega arith)) in
    let bound : 10 ^ d ≤ 10 ^ 4 = pow-le-pow_right (omega arith) t.few in
    record {
      tick_config = t;
      scale_pow = scale-eq;
      units_low = ground arith;
      units_high = ground arith;
      on_grid = ground arith;
    }

module _ (F : Floats) where
  open F use {Double}

  pub validate_order_price-IsValidPrice :
      (price : Double) (tick_size : String) (p : ValidatedOrderPrice)
      → validate_order_price F price tick_size ≡ ok p
      → IsValidPrice p
  unfolding validate_order_price
  validate_order_price-IsValidPrice price tick_size p e =
      on_bind (rounding_config_for_tick_size tick_size) _ e λ r e1 f1.
        on_bind (power_of_ten r.price_decimals) _ f1 λ scale e2 f2.
          on_bind (exact_decimal_to_scaled_uint64 F price r.price_decimals) _ f2 λ units e3 f3.
            on_guard _ _ _ f3 λ in_range f4. on_guard _ _ _ f4 λ on_grid f5.
              subst IsValidPrice (ok-injective f5) (
                accepted r scale units (rounding_config-IsTickConfig tick_size r e1) e2 in_range
                  on_grid)

-- ===== src/Amounts/Grain.antt =====
-- Sizes and prices of a validated order in whole units: which errors their conversion raises, and the
-- grain of 10^4 micro units that every price scale divides.
use Prim.Native.Nat.{◌∣◌}
use native.Mathlib.Nat
use polymarket_cpp_client.Prelude.{
  ℕ, ◌-◌, ◌*◌, ◌/◌, ◌%◌, ◌^◌, ◌<◌, ◌≤◌, ◌≡◌, refl, sym, ap, subst, ◌∙◌, false, ◌==◌, Bool-cases,
  arith, inl, inr, ==_iff, pow-add,
}
use native.Mathlib.Nat.{le_trans, add-sub_of_le}
use polymarket_cpp_client.Prelude.Int.{ℤ, pos, pos_part}
use polymarket_cpp_client.Prelude.Except.{ok, throw-ne-ok, is_logic_error}
use polymarket_cpp_client.Floats.{Floats}
use polymarket_cpp_client.Decimal.{
  RoundingMode, down, decimal_to_scaled_uint64, decimal_scale, checked_uint64,
}
use polymarket_cpp_client.Amounts.{
  OrderSide, buy, sell, OrderAmounts, ValidatedOrderPrice, checked_multiply, exact_multiply_divide,
  power_of_ten, power_loop, amount_to_micro_units, sided, uint64_max,
}
use polymarket_cpp_client.Amounts.Exact.{
  in_range, quotient, checked_multiply-in_range, exact_multiply_divide-quotient,
}
use polymarket_cpp_client.Amounts.Price.{IsValidPrice}

in_range-ok : (n r : ℕ) → in_range n ≡ ok r → (r ≡ n) × (r ≤ uint64_max)
in_range-ok n r e = ground arith

pub checked_multiply_ok : (a b r : ℕ) → checked_multiply a b ≡ ok r → (r ≡ a * b) × (r ≤ uint64_max)
checked_multiply_ok a b r e = in_range-ok (a * b) r (sym (checked_multiply-in_range a b) ∙ e)

checked_multiply_errors : (a b : ℕ) → is_logic_error (checked_multiply a b) ≡ false
checked_multiply_errors a b = rw checked_multiply-in_range (ground arith)

-- A quotient that comes out is the exact one.
quotient-ok :
    (value num den r : ℕ)
    → quotient value num den ≡ ok r
    → (r * den ≡ value * num) × (r ≤ uint64_max)
quotient-ok value num den r e = elim (Bool-cases (value * num % den == 0)) [
  | inl whole ↦
      let (same, fits) = in_range-ok (value * num / den) r (rw whole at e) in
      let product : r * den ≡ value * num =
        ap (λ (t : ℕ). t * den) same
        ∙ Nat.div-mul_cancel den (Nat.dvd_of_mod-eq-zero den ((==_iff _ 0).0 whole)) in
      (product, fits)
  | inr rest ↦ absurd (throw-ne-ok (rw rest at e))
]

pub exact_ok :
    (value num den r : ℕ)
    → 0 < den
    → exact_multiply_divide value num den ≡ ok r
    → (r * den ≡ value * num) × (r ≤ uint64_max)
exact_ok value num den r h e =
    quotient-ok value num den r (sym (exact_multiply_divide-quotient value num den h) ∙ e)

quotient_errors :
    (value num den : ℕ) → value * num % den ≡ 0 → is_logic_error (quotient value num den) ≡ false
quotient_errors value num den whole = ground arith

pub exact_errors :
    (value num den : ℕ)
    → 0 < den
    → value * num % den ≡ 0
    → is_logic_error (exact_multiply_divide value num den) ≡ false
exact_errors value num den h whole =
    rw (exact_multiply_divide-quotient value num den h) (quotient_errors value num den whole)

module _ (F : Floats) where
  open F use {Double}

  decimal_to_scaled_errors :
      (amount : Double) (decimals : ℤ) (mode : RoundingMode)
      → is_logic_error (decimal_to_scaled_uint64 F amount decimals mode) ≡ false
  unfolding decimal_to_scaled_uint64 decimal_scale checked_uint64
  decimal_to_scaled_errors amount decimals mode = ground arith

  pub micro_units_errors :
      (amount : Double) (decimals : ℤ)
      → is_logic_error (amount_to_micro_units F amount decimals) ≡ false
  unfolding amount_to_micro_units power_of_ten
  micro_units_errors amount decimals =
      grind (arith, decimal_to_scaled_errors amount decimals down, checked_multiply_errors)

  -- A size of two decimals becomes a positive multiple of 10^4 micro units.
  pub micro_units_lem :
      (amount : Double) (micro : ℕ)
      → amount_to_micro_units F amount (pos 2) ≡ ok micro
      → (micro % 10000 ≡ 0) × (0 < micro) × (micro ≤ uint64_max)
  unfolding amount_to_micro_units power_of_ten power_loop
  micro_units_lem amount micro e = grind (arith, checked_multiply_ok)

-- What an order trades, and what it pays or receives.
abbrev pub shares_of : OrderSide → OrderAmounts → ℕ
shares_of buy a = a.taker
shares_of sell a = a.maker

abbrev pub cost_of : OrderSide → OrderAmounts → ℕ
cost_of buy a = a.maker
cost_of sell a = a.taker

pub shares_of-sided :
    (side : OrderSide) (shares cost : ℕ) → shares_of side (sided side shares cost) ≡ shares
unfolding sided
shares_of-sided buy shares cost = refl
shares_of-sided sell shares cost = refl

pub cost_of-sided :
    (side : OrderSide) (shares cost : ℕ) → cost_of side (sided side shares cost) ≡ cost
unfolding sided
cost_of-sided buy shares cost = refl
cost_of-sided sell shares cost = refl

module _ {p : ValidatedOrderPrice} (v : IsValidPrice p) where
  pub units_pos : 0 < p.units
  units_pos = le_trans v.tick_config.tick_pos v.units_low

  pub scale_pos : 0 < p.scale
  scale_pos = omega (arith, units_pos, v.units_high)

  -- The scale of every tick size divides 10^4, the grain of the sizes.
  scale-dvd : p.scale ∣ 10000
  scale-dvd =
      let d : ℕ = pos_part p.rounding.price_decimals in
      let split : 10 ^ d * 10 ^ (4 - d) ≡ 10000 =
        sym (pow-add 10 d (4 - d)) ∙ ap (λ k. 10 ^ k) (add-sub_of_le v.tick_config.few) in
      subst (λ t. t ∣ 10000) (sym v.scale_pow) (∣ (10 ^ (4 - d), sym split) ∣₁)

  pub shares_divide : (shares : ℕ) → shares % 10000 ≡ 0 → shares * p.units % p.scale ≡ 0
  shares_divide shares grain = Nat.mod-eq-zero_of_dvd p.scale (
      Nat.dvd-mul_right_of_dvd p.scale
        (Nat.dvd_trans p.scale scale-dvd (Nat.dvd_of_mod-eq-zero 10000 grain)) p.units)

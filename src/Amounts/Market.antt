-- ===== src/Amounts/Market.antt =====
-- Market orders at a validated price.
use Prim.Native.Nat.{◌∣◌}
use native.Mathlib.Nat
use native.Mathlib.Nat.{le_trans}
use polymarket_cpp_client.Prelude.{
  ℕ, zero, suc, ◌-◌, ◌*◌, ◌/◌, ◌%◌, ◌<◌, ◌≤◌, ◌≡◌, sym, false, arith, subst,
}
use polymarket_cpp_client.Prelude.Gcd.{gcd, gcd-dvd, dvd-gcd-mul, gcd_pos_right}
use polymarket_cpp_client.Prelude.Except.{ok, on_bind, is_logic_error}
use polymarket_cpp_client.Floats.{Floats}
use polymarket_cpp_client.Amounts.{
  OrderSide, buy, sell, OrderAmounts, ValidatedOrderPrice, amount_to_micro_units, uint64_max,
  market_buy_amounts, buy_with_budget, calculate_market_order_amounts,
  calculate_limit_order_amounts,
}
use polymarket_cpp_client.Amounts.Price.{IsValidPrice}
use polymarket_cpp_client.Amounts.Grain.{
  exact_ok, exact_errors, micro_units_errors, units_pos, scale_pos,
}
use polymarket_cpp_client.Amounts.Limit.{calculate_limit_order_amounts_exact_price}

div_mono : (m n s : ℕ) → m ≤ n → m / s ≤ n / s
div_mono m n zero h = omega arith
div_mono m n (suc s) h =
    (Nat.le-div_iff_mul-le (omega arith)).1 (le_trans (Nat.div-mul-le_self m (suc s)) h)

-- The least budget that buys a whole number of micro shares.
abbrev step : ℕ → ℕ → ℕ
step units scale = units / gcd units scale

-- The largest multiple of the step within a budget.
abbrev spent : ℕ → ℕ → ℕ → ℕ
spent units scale budget = budget - budget % step units scale

module _ (units scale : ℕ) (scale_pos : 0 < scale) where
  g_pos : 0 < gcd units scale
  g_pos = gcd_pos_right units scale scale_pos

  step-eq : step units scale * gcd units scale ≡ units
  step-eq = Nat.div-mul_cancel (gcd units scale) (gcd-dvd units scale).0

  -- A budget has an exact counterpart in shares only if it is a multiple of the step.
  step-dvd : (m : ℕ) → units ∣ m * scale → step units scale ∣ m
  step-dvd m h =
      let g : ℕ = gcd units scale in
      let common : units ∣ g * m =
        dvd-gcd-mul units m units scale (Nat.dvd-mul_right units m)
          (subst (λ t. units ∣ t) (Nat.mul_comm m scale) h) in
      Nat.dvd_of_mul-dvd-mul_right (step units scale) g_pos
        (subst (λ t. t ∣ m * g) (sym step-eq) (subst (λ t. units ∣ t) (Nat.mul_comm g m) common))

  -- Every multiple of the step has one.
  dvd-step : (m : ℕ) → step units scale ∣ m → units ∣ m * scale
  dvd-step m h =
      subst (λ t. t ∣ m * scale) step-eq
        (Nat.mul-dvd-mul (step units scale) (gcd units scale) h (gcd-dvd units scale).1)

  spent-dvd : (budget : ℕ) → step units scale ∣ spent units scale budget
  spent-dvd budget =
      ∣ (budget / step units scale, omega (arith, Nat.div-add-mod budget (step units scale))) ∣₁

  spent-ge : (budget m : ℕ) → m ≤ budget → step units scale ∣ m → m ≤ spent units scale budget
  spent-ge budget m small h =
      let s : ℕ = step units scale in
      let q : m / s ≤ budget / s = div_mono m budget s small in
      let below : s * (m / s) ≤ s * (budget / s) = Nat.mul-le-mul_left s q in
      omega (arith, below, Nat.mul-div_cancel' s h, Nat.div-add-mod budget s)

module _ {p : ValidatedOrderPrice} (v : IsValidPrice p) (budget : ℕ) where
  -- The budget and the two amounts of a BUY.
  buy_with_budget_exact :
      (a : OrderAmounts)
      → buy_with_budget budget p ≡ ok a
      → (a.maker ≡ spent p.units p.scale budget)
        × (0 < a.maker)
        × (a.maker ≤ budget)
        × (a.taker * p.units ≡ a.maker * p.scale)
        × (a.taker ≤ uint64_max)
  unfolding buy_with_budget
  buy_with_budget_exact a e =
      ground (arith, exact_ok (spent p.units p.scale budget) p.scale p.units a.taker (units_pos v))

  buy_with_budget_errors : is_logic_error (buy_with_budget budget p) ≡ false
  unfolding buy_with_budget
  buy_with_budget_errors = ground (
    arith,
    exact_errors (spent p.units p.scale budget) p.scale p.units (units_pos v) (
        Nat.mod-eq-zero_of_dvd p.units (
          dvd-step p.units p.scale (scale_pos v) _
            (spent-dvd p.units p.scale (scale_pos v) budget))),
  )

module _ (F : Floats) {p : ValidatedOrderPrice} (v : IsValidPrice p) where
  open F use {Double}

  -- A market BUY that is made at a validated price spends a positive part of its budget, and asks for
  -- exactly the shares that this part buys at the price, with no rounding and within uint64.
  pub market_buy_exact :
      (amount : Double) (a : OrderAmounts)
      → calculate_market_order_amounts F buy amount p ≡ ok a
      → (budget : ℕ) × (amount_to_micro_units F amount p.rounding.size_decimals ≡ ok budget)
        × (0 < a.maker)
        × (a.maker ≤ budget)
        × (a.taker * p.units ≡ a.maker * p.scale)
        × (a.taker ≤ uint64_max)
  unfolding calculate_market_order_amounts market_buy_amounts
  market_buy_exact amount a e =
      on_bind (amount_to_micro_units F amount p.rounding.size_decimals) _ e λ budget e1 f1.
        let (_, some_maker, within, exact, fits) = buy_with_budget_exact v budget a f1 in
        (budget, e1, some_maker, within, exact, fits)

  -- No larger part of the budget has an exact counterpart in shares, so a market BUY leaves as little
  -- of its budget unspent as an exact order can.
  pub market_buy_maximal :
      (amount : Double) (a : OrderAmounts) (budget m : ℕ)
      → calculate_market_order_amounts F buy amount p ≡ ok a
      → amount_to_micro_units F amount p.rounding.size_decimals ≡ ok budget
      → m ≤ budget
      → m * p.scale % p.units ≡ 0
      → m ≤ a.maker
  unfolding calculate_market_order_amounts market_buy_amounts
  market_buy_maximal amount a budget m e e1 small exact =
      let f1 : buy_with_budget budget p ≡ ok a = rw e1 at e in
      subst (λ t. m ≤ t) (sym (buy_with_budget_exact v budget a f1).0)
        (spent-ge p.units p.scale (scale_pos v) budget m small
          (step-dvd p.units p.scale (scale_pos v) m (Nat.dvd_of_mod-eq-zero p.units exact)))

  -- At a validated price a market order of either side never raises "order amount cannot represent
  -- the price exactly".
  pub market_order_exact_price :
      (side : OrderSide) (amount : Double)
      → is_logic_error (calculate_market_order_amounts F side amount p) ≡ false
  unfolding calculate_market_order_amounts market_buy_amounts
  market_order_exact_price buy amount =
      grind (arith, micro_units_errors F amount p.rounding.size_decimals, buy_with_budget_errors v)
  market_order_exact_price sell amount =
      unfold calculate_limit_order_amounts in
      calculate_limit_order_amounts_exact_price F sell amount p v

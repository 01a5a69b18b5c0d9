-- ===== src/Amounts/Limit.antt =====
-- Limit orders at a validated price.
use polymarket_cpp_client.Prelude.{ℕ, ◌*◌, ◌%◌, ◌<◌, ◌≤◌, ◌≡◌, false, arith, subst}
use polymarket_cpp_client.Prelude.Int.{pos}
use polymarket_cpp_client.Prelude.Except.{ok, on_bind, ok-injective, is_logic_error}
use polymarket_cpp_client.Floats.{Floats}
use polymarket_cpp_client.Amounts.{
  OrderSide, OrderAmounts, ValidatedOrderPrice, exact_multiply_divide, amount_to_micro_units, sided,
  amounts_for_shares, uint64_max, calculate_limit_order_amounts,
}
use polymarket_cpp_client.Amounts.Price.{IsValidPrice}
use polymarket_cpp_client.Amounts.Grain.{
  exact_ok, exact_errors, micro_units_errors, micro_units_lem, shares_of, cost_of, shares_of-sided,
  cost_of-sided, scale_pos, shares_divide,
}

-- An order at a price: whole sizes of two decimals, traded for exactly shares * price, in uint64.
pub record IsExactOrder (side : OrderSide) (a : OrderAmounts) (p : ValidatedOrderPrice)
    : Type 0 where
  pub exact : cost_of side a * p.scale ≡ shares_of side a * p.units
  pub grain : shares_of side a % 10000 ≡ 0
  pub some_shares : 0 < shares_of side a
  pub shares_fit : shares_of side a ≤ uint64_max
  pub cost_fits : cost_of side a ≤ uint64_max

module _ (F : Floats) where
  open F use {Double}

  sided-IsExactOrder :
      (side : OrderSide) (size : Double) (p : ValidatedOrderPrice) (shares cost : ℕ)
      → IsValidPrice p
      → amount_to_micro_units F size (pos 2) ≡ ok shares
      → exact_multiply_divide shares p.units p.scale ≡ ok cost
      → IsExactOrder side (sided side shares cost) p
  sided-IsExactOrder side size p shares cost v e1 e2 =
      let (grain, some_shares, fit) = micro_units_lem F size shares e1 in
      let (exact, cost_fits) = exact_ok shares p.units p.scale cost (scale_pos v) e2 in
      let s = shares_of-sided side shares cost in
      let c = cost_of-sided side shares cost in
      record {
        exact = rw (s, c) exact;
        grain = rw s grain;
        some_shares = rw s some_shares;
        shares_fit = rw s fit;
        cost_fits = rw c cost_fits;
      }

  -- At a validated price a limit order that is made trades a positive whole size of two decimals for
  -- exactly size * price, with no rounding, and both amounts fit in uint64.
  pub calculate_limit_order_amounts-IsExactOrder :
      (side : OrderSide) (size : Double) (p : ValidatedOrderPrice) (a : OrderAmounts)
      → IsValidPrice p
      → calculate_limit_order_amounts F side size p ≡ ok a
      → IsExactOrder side a p
  unfolding calculate_limit_order_amounts amounts_for_shares
  calculate_limit_order_amounts-IsExactOrder side size p a v e =
      on_bind (amount_to_micro_units F size p.rounding.size_decimals) _ e λ shares e1 f1.
        on_bind (exact_multiply_divide shares p.units p.scale) _ f1 λ cost e2 f2.
          let e1' : amount_to_micro_units F size (pos 2) ≡ ok shares =
            subst (λ d. amount_to_micro_units F size d ≡ ok shares) v.tick_config.sizes e1 in
          subst (λ b. IsExactOrder side b p) (ok-injective f2)
            (sided-IsExactOrder side size p shares cost v e1' e2)

  exact_at_grain :
      (p : ValidatedOrderPrice) (size : Double) (shares : ℕ)
      → IsValidPrice p
      → amount_to_micro_units F size (pos 2) ≡ ok shares
      → is_logic_error (exact_multiply_divide shares p.units p.scale) ≡ false
  exact_at_grain p size shares v e =
      exact_errors shares p.units p.scale (scale_pos v)
        (shares_divide v shares (micro_units_lem F size shares e).0)

  -- At a validated price the error "order amount cannot represent the price exactly" is never raised.
  pub calculate_limit_order_amounts_exact_price :
      (side : OrderSide) (size : Double) (p : ValidatedOrderPrice)
      → IsValidPrice p
      → is_logic_error (calculate_limit_order_amounts F side size p) ≡ false
  unfolding calculate_limit_order_amounts amounts_for_shares
  calculate_limit_order_amounts_exact_price side size p v =
      rw v.tick_config.sizes
        (grind (arith, micro_units_errors F size (pos 2), exact_at_grain p size))

-- ===== src/Depth/Fill.antt =====
-- Collateral and shares of one level of a simulated fill, against exact arithmetic.
use native.Mathlib.Nat
use polymarket_cpp_client.Prelude.{ℕ, ◌+◌, ◌*◌, ◌/◌, ◌%◌, ◌<◌, ◌≤◌, ◌≡◌, ap, true, false, arith}
use polymarket_cpp_client.Prelude.Except.{ok}
use polymarket_cpp_client.Depth.{depth_scale, collateral_for, shares_for}

-- The quotient and remainder of a product by millionths, split as the code splits it.
product_split :
    (shares price : ℕ)
    → (shares / depth_scale * price + shares % depth_scale * price / depth_scale) * depth_scale
        + shares % depth_scale * price % depth_scale
      ≡ shares * price
product_split shares price =
    let split : shares / depth_scale * depth_scale + shares % depth_scale ≡ shares = omega arith in
    omega (arith, ap (λ (t : ℕ). t * price) split)

-- A SELL receives the floor of shares * price in whole units.
pub collateral_for_down :
    (shares price c : ℕ)
    → collateral_for shares price false ≡ ok c
    → (c * depth_scale ≤ shares * price) × (shares * price < c * depth_scale + depth_scale)
unfolding collateral_for
collateral_for_down shares price c e = ground (arith, product_split shares price)

-- A BUY pays the ceiling.
pub collateral_for_up :
    (shares price c : ℕ)
    → collateral_for shares price true ≡ ok c
    → (shares * price ≤ c * depth_scale) × (c * depth_scale < shares * price + depth_scale)
unfolding collateral_for
collateral_for_up shares price c e = ground (arith, product_split shares price)

-- The shares that collateral buys are the floor of collateral / price.
pub shares_for_lem :
    (collateral price s : ℕ)
    → 0 < price
    → shares_for collateral price ≡ ok s
    → (s * price ≤ collateral * depth_scale) × (collateral * depth_scale < s * price + price)
unfolding shares_for
shares_for_lem collateral price s h e = ground (arith, quotient_split)
  where
    q : ℕ
    q = collateral / price

    r : ℕ
    r = collateral % price

    split : q * price + r ≡ collateral
    split = Nat.div-add-mod' collateral price

    split' : r * depth_scale / price * price + r * depth_scale % price ≡ r * depth_scale
    split' = Nat.div-add-mod' (r * depth_scale) price

    small : r * depth_scale % price < price
    small = Nat.mod-lt (r * depth_scale) h

    quotient_split :
        ((q * depth_scale + r * depth_scale / price) * price ≤ collateral * depth_scale)
        × (collateral * depth_scale < (q * depth_scale + r * depth_scale / price) * price + price)
    quotient_split = (
      omega (arith, ap (λ (t : ℕ). t * depth_scale) split, split', small),
      omega (arith, ap (λ (t : ℕ). t * depth_scale) split, split', small),
    )

-- What the shares cost is covered by the collateral that bought them, so the budget that remains
-- never wraps below zero.
pub collateral_for-shares_for :
    (collateral price s c : ℕ)
    → 0 < price
    → shares_for collateral price ≡ ok s
    → collateral_for s price true ≡ ok c
    → c ≤ collateral
collateral_for-shares_for collateral price s c h e1 e2 =
    omega (arith, shares_for_lem collateral price s h e1, collateral_for_up s price c e2)

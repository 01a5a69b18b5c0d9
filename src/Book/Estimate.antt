-- ===== src/Book/Estimate.antt =====
-- A simulated fill never uses more than the order holds.
use polymarket_cpp_client.Prelude.{
  ℕ, ◌+◌, ◌*◌, ◌<◌, ◌≤◌, ◌≡◌, Bool, true, false, Bool-cases, inl, inr, List, [], arith, subst,
  String, ap,
}
use polymarket_cpp_client.Prelude.Int.{ℤ}
use polymarket_cpp_client.Prelude.Except.{Except, ok, ok-injective, on_bind}
use polymarket_cpp_client.Floats.{Floats}
use polymarket_cpp_client.Amounts.{
  OrderSide, buy, sell, OrderAmounts, ValidatedOrderPrice, uint64_max,
  calculate_market_order_amounts, validate_order_price, sided, amounts_for_shares,
  market_buy_amounts, buy_with_budget, amount_to_micro_units,
}
use polymarket_cpp_client.Amounts.Grain.{checked_multiply_ok}
use polymarket_cpp_client.Depth.{depth_scale, checked_add, collateral_for, shares_for}
use polymarket_cpp_client.Depth.Fill.{
  collateral_for-shares_for, collateral_for_up, collateral_for_down,
}
use polymarket_cpp_client.Book.{
  LevelUnits, PriceLevel, Orderbook, DepthLimit, level_units, find_depth_limit, visit_best_first,
  visit_levels, book_side, best_first,
}
use polymarket_cpp_client.Book.Walk.{visit_levels_rule}
use polymarket_cpp_client.Book.Simulation.{
  partial_fill, level_fill, reduce, MarketPriceEstimate, FillState, add_fill, beyond, fill_level,
  fill_visit, with_average, estimate_market_depth,
}

-- What a fill of a level takes from the order: collateral of a BUY, shares of a SELL.
abbrev taken : OrderSide → ℕ → ℕ → ℕ
taken buy shares collateral = collateral
taken sell shares collateral = shares

partial_fill-le :
    (remaining price sh c : ℕ) (part : Bool)
    → 0 < price
    → partial_fill remaining price ≡ ok (sh, c, part)
    → (c ≤ remaining) × (c * depth_scale < sh * price + depth_scale)
unfolding partial_fill
partial_fill-le remaining price sh c part h e = on_bind (shares_for remaining price) _ e λ s e1 f1.
    on_bind (collateral_for s price true) _ f1 λ c' e2 f2.
      let fits = collateral_for-shares_for remaining price s c' h e1 e2 in
      let up = collateral_for_up s price c' e2 in
      let same = ok-injective f2 in
      let same_shares : s ≡ sh = ap (λ t. t.0) same in
      let same_cost : c' ≡ c = ap (λ t. t.1) same in
      (rw same_cost at fits, rw (same_cost, same_shares) at up.1)

level_fill-le :
    (side : OrderSide) (remaining sh c : ℕ) (part : Bool) (u : LevelUnits)
    → 0 < u.price_units
    → level_fill side remaining u ≡ ok (sh, c, part)
    → (taken side sh c ≤ remaining) × (c * depth_scale < sh * u.price_units + depth_scale)
unfolding level_fill
level_fill-le buy remaining sh c part u h e = ground (
  arith,
  partial_fill-le remaining u.price_units sh c part h,
  collateral_for_up u.level_size u.price_units c,
)
level_fill-le sell remaining sh c part u h e =
    ground (arith, collateral_for_down sh u.price_units c)

module _ (F : Floats) where
  level_units_pos :
      (level : PriceLevel F) (u : LevelUnits) → level_units F level ≡ ok u → 0 < u.price_units
  unfolding level_units
  level_units_pos level u e = ground arith

  micro_units-le :
      (amount : F.Double) (decimals : ℤ) (m : ℕ)
      → amount_to_micro_units F amount decimals ≡ ok m
      → m ≤ uint64_max
  unfolding amount_to_micro_units
  micro_units-le amount decimals m e = grind (arith, checked_multiply_ok)

  market_order-le :
      (side : OrderSide) (amount : F.Double) (p : ValidatedOrderPrice) (a : OrderAmounts)
      → calculate_market_order_amounts F side amount p ≡ ok a
      → a.maker ≤ uint64_max
  unfolding calculate_market_order_amounts market_buy_amounts buy_with_budget amounts_for_shares
      sided
  market_order-le buy amount p a e = grind (arith, micro_units-le amount)
  market_order-le sell amount p a e = grind (arith, micro_units-le amount)

  -- What an estimate uses of its order: collateral of a BUY, shares of a SELL.
  abbrev pub used : OrderSide → MarketPriceEstimate F → ℕ
  used buy e = e.collateral_units
  used sell e = e.share_units

  add_fill-used :
      (side : OrderSide) (e e' : MarketPriceEstimate F) (sh c : ℕ)
      → (sh ≡ 0 → c ≡ 0)
      → add_fill F e sh c ≡ ok e'
      → used side e' ≡ used side e + taken side sh c
  unfolding add_fill checked_add
  add_fill-used buy e e' sh c free h = ground arith
  add_fill-used sell e e' sh c free h = ground arith

  no_shares_free : (sh c price : ℕ) → c * depth_scale < sh * price + depth_scale → sh ≡ 0 → c ≡ 0
  no_shares_free sh c price h e = omega (arith, ap (λ (t : ℕ). t * price) e)

  reduce_lem :
      (side : OrderSide) (remaining sh c : ℕ)
      → taken side sh c ≤ remaining
      → remaining ≤ uint64_max
      → reduce side remaining sh c + taken side sh c ≡ remaining
  unfolding reduce
  reduce_lem buy remaining sh c h small = omega arith
  reduce_lem sell remaining sh c h small = omega arith

  -- What is used and what remains of the order add up to the order.
  Balanced : OrderSide → ℕ → FillState F → Type 0
  Balanced side maker s = used side s.estimate + s.remaining ≡ maker

  fill_level-Balanced :
      (side : OrderSide) (maker : ℕ) (s s' : FillState F) (level : PriceLevel F) (stop : Bool)
      → maker ≤ uint64_max
      → Balanced side maker s
      → fill_level F side s level ≡ ok (s', stop)
      → Balanced side maker s'
  unfolding fill_level Balanced
  fill_level-Balanced side maker s s' level stop small h e =
      on_bind (level_units F level) _ e λ u e1 f1.
        on_bind (level_fill side s.remaining u) _ f1 λ fill e2 f2.
          on_bind (add_fill F s.estimate fill.0 fill.1) _ f2 λ est e3 f3.
            let u_pos = level_units_pos level u e1 in
            let (within, paid) = level_fill-le side s.remaining fill.0 fill.1 fill.2 u u_pos e2 in
            let free = no_shares_free fill.0 fill.1 u.price_units paid in
            let more = add_fill-used side s.estimate est fill.0 fill.1 free e3 in
            let less = reduce_lem side s.remaining fill.0 fill.1 within (omega arith) in
            let same = ap (λ t. t.0) (ok-injective f3) in
            subst (Balanced side maker) same (omega (arith, more, less))

  fill_visit-Balanced :
      (side : OrderSide) (limit : F.Double) (maker : ℕ) (s s' : FillState F) (level : PriceLevel F)
      (stop : Bool)
      → maker ≤ uint64_max
      → Balanced side maker s
      → fill_visit F side limit s level ≡ ok (s', stop)
      → Balanced side maker s'
  unfolding fill_visit
  fill_visit-Balanced side limit maker s s' level stop small h e =
      elim (Bool-cases (beyond F side level limit)) [
        | inl t ↦ subst (Balanced side maker) (ap (λ r. r.0) (ok-injective (rw t at e))) h
        | inr t ↦ fill_level-Balanced side maker s s' level stop small h (rw t at e)
      ]

  start :
      (side : OrderSide) (maker : ℕ) (price average : F.Double) (fillable : Bool)
      → Balanced side maker (record {
        remaining = maker;
        estimate = record {
          estimate_price = price;
          average_price = average;
          share_units = 0;
          collateral_units = 0;
          levels = 0;
          fully_fillable = fillable;
        };
      })
  unfolding Balanced
  start buy maker price average fillable = omega arith
  start sell maker price average fillable = omega arith

  with_average-used :
      (side : OrderSide) (e : MarketPriceEstimate F) → used side (with_average F e) ≡ used side e
  unfolding with_average
  with_average-used buy e = ground arith
  with_average-used sell e = ground arith

  visit_best_first-visit :
      {S : Type 0} (levels : List (PriceLevel F)) (side : OrderSide)
      (visit : S → PriceLevel F → Except (S × Bool)) (s r : S)
      → visit_best_first F levels side visit s ≡ ok r
      → visit_levels visit s (best_first F side levels) ≡ ok r
  unfolding visit_best_first
  visit_best_first-visit levels side visit s r e = ground arith

  -- A BUY estimate never pays more collateral than the order that would be signed at the limit price
  -- of the walk, and a SELL estimate never sells more shares than that order.
  pub estimate_market_depth-le :
      (book : Orderbook F) (side : OrderSide) (amount : F.Double) (tick_size : String)
      (e : MarketPriceEstimate F)
      → estimate_market_depth F book side amount tick_size ≡ ok e
      → (limit : DepthLimit F.Double) × (p : ValidatedOrderPrice) × (order : OrderAmounts)
        × (find_depth_limit F book side amount tick_size ≡ ok limit)
        × (validate_order_price F limit.limit_price tick_size ≡ ok p)
        × (calculate_market_order_amounts F side amount p ≡ ok order)
        × (used side e ≤ order.maker)
  unfolding estimate_market_depth Balanced
  estimate_market_depth-le book side amount tick_size e h =
      on_bind (find_depth_limit F book side amount tick_size) _ h λ limit e1 f1.
        on_bind (validate_order_price F limit.limit_price tick_size) _ f1 λ p e2 f2.
          on_bind (calculate_market_order_amounts F side amount p) _ f2 λ order e3 f3.
            on_bind
              (visit_best_first F (book_side F side book) side (fill_visit F side limit.limit_price)
                _)
              _ f3
              λ filled e4 f4.
                let small = market_order-le side amount p order e3 in
                let within : used side filled.estimate ≤ order.maker =
                  visit_levels_rule (fill_visit F side limit.limit_price)
                    (λ seen s. Balanced side order.maker s)
                    (λ s. used side s.estimate ≤ order.maker)
                    (λ seen s l s' b v.
                      fill_visit-Balanced side _ order.maker s s' l false small b v)
                    (λ seen s l s' b v.
                      let b' = fill_visit-Balanced side _ order.maker s s' l true small b v in
                      omega arith)
                    (λ seen s b. omega arith) [] _ _ filled
                    (start side order.maker limit.limit_price F.zero_double limit.limit_fillable)
                    (visit_best_first-visit (book_side F side book) side _ _ filled e4) in
                (
                  limit,
                  p,
                  order,
                  e1,
                  e2,
                  e3,
                  subst (λ r. used side r ≤ order.maker) (ok-injective f4)
                      (rw with_average-used within),
                )

-- ===== src/Depth/Notional.antt =====
-- The running totals of a book walk are exact until they leave uint64, and then they stay saturated.
use native.Mathlib.Nat
use polymarket_cpp_client.Prelude.{
  ℕ, ◌+◌, ◌-◌, ◌*◌, ◌/◌, ◌%◌, ◌^◌, ◌<◌, ◌≤◌, ◌≡◌, refl, ap, ◌⊎◌, inl, inr, Bool, true, false, ltb,
  leb, ◌==◌, not, ◌&&◌, if◌then◌else◌, arith, subst, Bool-cases,
}
use polymarket_cpp_client.Amounts.{uint64_max}
use polymarket_cpp_client.Depth.{
  depth_scale, AccumulatedNotional, notional_covers, carry_fraction, add_contribution, add_notional,
}

-- The total stands for a sum of products in millionths: exactly, or, once saturated, only as a sum
-- that no uint64 holds.
abbrev pub Tracks : AccumulatedNotional → ℕ → Type 0
Tracks t sum =
    ((t.saturated ≡ false)
      × (t.units * depth_scale + t.fractional_units ≡ sum)
      × (t.fractional_units < depth_scale)
      × (t.units ≤ uint64_max))
    ⊎ ((t.saturated ≡ true) × (2 ^ 64 * depth_scale ≤ sum))

-- A size times a price, split as the code splits it.
true-ne-false : true ≡ false → ⊥
true-ne-false e = cc

contribution :
    (size price : ℕ)
    → (size / depth_scale * price + size % depth_scale * price / depth_scale) * depth_scale
        + size % depth_scale * price % depth_scale
      ≡ size * price
contribution size price =
    let split : size / depth_scale * depth_scale + size % depth_scale ≡ size = omega arith in
    omega (arith, ap (λ (t : ℕ). t * price) split)

carry_fraction-Tracks :
    (t : AccumulatedNotional)
    → t.saturated ≡ false
    → t.fractional_units < 2 * depth_scale
    → t.units ≤ uint64_max
    → Tracks (carry_fraction t) (t.units * depth_scale + t.fractional_units)
unfolding carry_fraction
carry_fraction-Tracks t fresh small fits = ground arith

add_contribution-Tracks :
    (t : AccumulatedNotional) (units fraction : ℕ)
    → t.saturated ≡ false
    → t.fractional_units < depth_scale
    → t.units ≤ uint64_max
    → fraction < depth_scale
    → Tracks
        (add_contribution t units fraction)
        (t.units * depth_scale + t.fractional_units + (units * depth_scale + fraction))
unfolding add_contribution
add_contribution-Tracks t units fraction fresh small fits proper =
    let next : AccumulatedNotional = record t {
      units = t.units + units;
      fractional_units = t.fractional_units + fraction;
    } in
    elim (Bool-cases (ltb (uint64_max - t.units) units)) [
      | inl over ↦ rw over (inr (refl, ground arith))
      | inr within ↦
          let same : (t.units + units) * depth_scale + (t.fractional_units + fraction)
              ≡ t.units * depth_scale + t.fractional_units + (units * depth_scale + fraction) =
            omega arith in
          rw within (
            subst (λ s. Tracks (carry_fraction next) s) same
              (carry_fraction-Tracks next fresh (omega arith) (ground arith)))
    ]

-- The test by division asks whether the whole part of the product fits in uint64.
fits_test :
    (price whole part : ℕ)
    → 0 < price
    → part ≤ uint64_max
    → ltb ((uint64_max - part) / price) whole ≡ ltb uint64_max (whole * price + part)
fits_test price whole part h small =
    ground (arith, Nat.div-lt_iff_lt-mul {k = price} {x = uint64_max - part} {y = whole} h)

second_branch {ℓ κ} :
    {A : Type ℓ} (P : A → Type κ) (b c : Bool) (x y z : A)
    → b ≡ false
    → (c ≡ true → P y)
    → (c ≡ false → P z)
    → P (if b then x else if c then y else z)
second_branch P true c x y z e f g = absurd (true-ne-false e)
second_branch P false true x y z e f g = f refl
second_branch P false false x y z e f g = g refl

-- One level of the book: the total goes on to stand for the sum with size * price added.
pub add_notional-Tracks :
    (t : AccumulatedNotional) (sum size price : ℕ)
    → Tracks t sum
    → price < depth_scale
    → Tracks (add_notional t size price) (sum + size * price)
unfolding add_notional
add_notional-Tracks t sum size price (inr (full, big)) low = rw full (inr (refl, omega arith))
add_notional-Tracks t sum size price (inl (fresh, same, small, fits)) low =
    second_branch (λ r. Tracks r (sum + size * price)) _ _ _ _ _ fresh
      (λ over. let big = over_units over in inr (refl, omega (arith, contribution size price, big)))
      (λ _. core)
  where
    part : ℕ
    part = size % depth_scale * price / depth_scale

    units : ℕ
    units = size / depth_scale * price + part

    part_small : part ≤ uint64_max
    part_small =
        let product : size % depth_scale * price ≤ depth_scale * depth_scale =
          Nat.mul-le-mul {n₂ = depth_scale} {m₂ = depth_scale} (omega arith) (omega arith) in
        omega (arith, product)

    over_units :
        (not (price == 0) && ltb ((uint64_max - part) / price) (size / depth_scale)) ≡ true
        → uint64_max < units
    over_units over = ground (arith, fits_test price (size / depth_scale) part)

    core :
        Tracks
          (add_contribution t units (size % depth_scale * price % depth_scale))
          (sum + size * price)
    core =
        subst (Tracks (add_contribution t units (size % depth_scale * price % depth_scale)))
          (omega (arith, contribution size price))
          (add_contribution-Tracks t units (size % depth_scale * price % depth_scale) fresh small
            fits (omega arith))

-- Whether the total covers a uint64 target is answered exactly, saturated or not.
pub notional_covers-sum :
    (t : AccumulatedNotional) (sum target : ℕ)
    → Tracks t sum
    → target ≤ uint64_max
    → notional_covers t target ≡ leb (target * depth_scale) sum
unfolding notional_covers
notional_covers-sum t sum target h small = ground arith

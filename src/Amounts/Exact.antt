-- ===== src/Amounts/Exact.antt =====
-- `exact_multiply_divide` against exact arithmetic on unbounded numbers.
use Prim.Native.Nat.{◌∣◌}
use native.Mathlib.Nat
use polymarket_cpp_client.Prelude.{
  ℕ, zero, suc, ◌*◌, ◌/◌, ◌%◌, ◌<◌, ◌≡◌, sym, ap, ap₂, subst, ◌∙◌, inl, inr, if◌then◌else◌, leb,
  ◌==◌, Bool-cases, arith, ==_iff,
}
use polymarket_cpp_client.Prelude.Gcd.{gcd, gcd-dvd, dvd-gcd, dvd-gcd-mul, gcd_pos_right}
use polymarket_cpp_client.Prelude.Except.{Except, ok, throw, out_of_range, logic_error}
use polymarket_cpp_client.Amounts.{checked_multiply, exact_multiply_divide, uint64_max}

-- The product, or an error where it leaves uint64.
abbrev pub in_range : ℕ → Except ℕ
in_range n =
    if leb n uint64_max then ok n else throw (out_of_range "order amount exceeds uint64 range")

-- The overflow test by division is exact.
pub checked_multiply-in_range :
    (left right : ℕ) → checked_multiply left right ≡ in_range (left * right)
unfolding checked_multiply
checked_multiply-in_range left zero = ground arith
checked_multiply-in_range left (suc right) =
    ground (arith, Nat.div-lt_iff_lt-mul {k = suc right} {x = uint64_max} {y = left})

-- The denominator that is left when both reductions are made.
abbrev left_over : ℕ → ℕ → ℕ → ℕ
left_over value num den = let d = den / gcd value den in d / gcd num d

abbrev reduced_product : ℕ → ℕ → ℕ → ℕ
reduced_product value num den =
    let d = den / gcd value den in (value / gcd value den) * (num / gcd num d)

regroup : (v n h g : ℕ) → v * n * (h * g) ≡ v * g * (n * h)
regroup v n h g = omega arith

module _ (value num den : ℕ) (den_pos : 0 < den) where
  den-eq : den / gcd value den * gcd value den ≡ den
  den-eq = Nat.div-mul_cancel (gcd value den) (gcd-dvd value den).1

  reduced_den_pos : 0 < den / gcd value den
  reduced_den_pos = Nat.pos_of_dvd_of_pos (∣ (gcd value den, sym den-eq) ∣₁) den_pos

  -- With nothing left over the reduced product is the quotient.
  reduced_product-mul :
      left_over value num den ≡ 1 → reduced_product value num den * den ≡ value * num
  reduced_product-mul e =
      let g = gcd value den in
      let d = den / g in
      let h = gcd num d in
      let d-eq : d / h * h ≡ d = Nat.div-mul_cancel h (gcd-dvd num d).1 in
      let same : h ≡ d = omega (arith, d-eq, ap (λ (t : ℕ). t * h) e) in
      let den-eq' : h * g ≡ den = ap (λ (t : ℕ). t * g) same ∙ den-eq in
      let value-eq : value / g * g ≡ value = Nat.div-mul_cancel g (gcd-dvd value den).0 in
      let num-eq : num / h * h ≡ num = Nat.div-mul_cancel h (gcd-dvd num d).0 in
      ap (λ (t : ℕ). value / g * (num / h) * t) (sym den-eq')
      ∙ regroup (value / g) (num / h) h g
      ∙ ap₂ ◌*◌ value-eq num-eq

  left_over-one : den ∣ value * num → left_over value num den ≡ 1
  left_over-one divides =
      let g = gcd value den in
      let d = den / g in
      let h = gcd num d in
      let common : den ∣ g * num =
        dvd-gcd-mul den num value den divides (Nat.dvd-mul_right den num) in
      let g_pos : 0 < g = gcd_pos_right value den den_pos in
      let common' : d * g ∣ num * g =
        subst (λ t. t ∣ num * g) (sym den-eq) (subst (λ t. den ∣ t) (Nat.mul_comm g num) common) in
      let d-dvd : d ∣ num = Nat.dvd_of_mul-dvd-mul_right d g_pos common' in
      let same : h ≡ d =
        Nat.dvd_antisymm (gcd-dvd num d).1 (dvd-gcd d num d d-dvd (Nat.dvd_refl d)) in
      rw same (Nat.div_self reduced_den_pos)

-- The quotient value * numerator / denominator where it is a whole number that fits in uint64, and
-- otherwise the error that applies.
abbrev pub quotient : ℕ → ℕ → ℕ → Except ℕ
quotient value num den =
    if value * num % den == 0
    then in_range (value * num / den)
    else throw (logic_error "order amount cannot represent the price exactly")

-- With the factors taken out before the product, no intermediate overflow and no rounding changes the
-- result: the routine computes the exact quotient for every denominator that is not zero.
pub exact_multiply_divide-quotient :
    (value num den : ℕ) → 0 < den → exact_multiply_divide value num den ≡ quotient value num den
unfolding exact_multiply_divide
exact_multiply_divide-quotient value num den den_pos =
    elim (Bool-cases (left_over value num den == 1)) [
      | inl exact ↦
          let product = reduced_product-mul value num den den_pos ((==_iff _ _).0 exact) in
          let whole : value * num % den ≡ 0 =
            rw (← product) (Nat.mod-eq-zero_of_dvd den (Nat.dvd-mul_left den _)) in
          let same : value * num / den ≡ reduced_product value num den =
            rw (← product) (Nat.mul-div_cancel _ den_pos) in
          rw exact (
            ground (
              arith,
              whole,
              same,
              checked_multiply-in_range (value / gcd value den)
                  (num / gcd num (den / gcd value den)),
            ))
      | inr inexact ↦
          ground (
            arith,
            left_over-one value num den den_pos,
            Nat.dvd_of_mod-eq-zero den {n = value * num},
          )
    ]

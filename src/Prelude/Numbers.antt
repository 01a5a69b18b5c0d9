-- ===== src/Prelude/Numbers.antt =====
-- Powers, and digits in a mixed product.
use Prim.Native.Nat.{ℕ, zero, suc, ◌+◌, ◌*◌, ◌^◌, ◌≤◌, ◌<◌}
use mathlib.Core.Path.{◌≡◌, refl, sym, ap}
use native.Mathlib.Nat.{pow-suc, pow-zero}
use native.Mathlib.Omega.{arith}

pub pow-add : (b m n : ℕ) → b ^ (m + n) ≡ b ^ m * b ^ n
pow-add b zero n =
    let e : b ^ (0 + n) ≡ b ^ n = ap (λ k. b ^ k) (omega arith) in grind (arith, e, pow-zero b)
pow-add b (suc m) n =
    let e : b ^ (suc m + n) ≡ b ^ suc (m + n) = ap (λ k. b ^ k) (omega arith) in
    rw (e, pow-suc b (m + n), pow-suc b m, pow-add b m n) (omega arith)

pub pow_pos : (b n : ℕ) → 0 < b → 0 < b ^ n
pow_pos b zero h = omega (arith, pow-zero b)
pow_pos b (suc n) h = grind (arith, pow_pos b n h, pow-suc b n)

-- The leading digit of a number is determined.
pub digit-le : (x y v w p : ℕ) → w < p → x * p + v ≡ y * p + w → x ≤ y
digit-le x y v w p hw e = grind arith

pub digit_unique : (x y v w p : ℕ) → v < p → w < p → x * p + v ≡ y * p + w → (x ≡ y) × (v ≡ w)
digit_unique x y v w p hv hw e =
    let up : x ≤ y = digit-le x y v w p hw e in
    let down : y ≤ x = digit-le y x w v p hv (sym e) in
    let same : x ≡ y = omega arith in (same, grind (arith, ap (λ (t : ℕ). t * p) same))

pub quotient-zero : (c v p : ℕ) → c * p + v < p → c ≡ 0
quotient-zero zero v p h = refl
quotient-zero (suc c) v p h = absurd (omega arith)

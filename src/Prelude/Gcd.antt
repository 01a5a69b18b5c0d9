-- ===== src/Prelude/Gcd.antt =====
-- std::gcd, by Euclid's algorithm, and what divides what.
use Prim.Native.Nat.{ℕ, zero, suc, ◌+◌, ◌*◌, ◌/◌, ◌%◌, ◌<◌, ◌∣◌}
use mathlib.Core.Path.{◌≡◌, sym, ap, subst}
use mathlib.Core.Logic.{inl, inr}
use mathlib.Core.Bool.{true, false}
use native.Mathlib.Omega.{arith}
use native.Mathlib.Nat
use polymarket_cpp_client.Prelude.Tests.{◌==◌, Bool-cases}

gcd_rounds : ℕ → ℕ → ℕ → ℕ
gcd_rounds zero a b = a
gcd_rounds (suc rounds) a b = elim (b == 0) [ true ↦ a | false ↦ gcd_rounds rounds b (a % b) ]

-- The second number falls in each round, so b + 1 rounds are enough.
unfoldable pub gcd : ℕ → ℕ → ℕ
unfolding gcd_rounds
gcd a b = gcd_rounds (b + 1) a b

-- A property that holds of the last remainder 0 and is passed back by a round holds of the gcd.
gcd_rounds_induction {ℓ} :
    (P : ℕ → ℕ → ℕ → Type ℓ)
    → ((a : ℕ) → P a 0 a)
    → ((a b g : ℕ) → P b (a % b) g → P a b g)
    → (rounds a b : ℕ) → b < rounds
    → P a b (gcd_rounds rounds a b)
unfolding gcd_rounds
gcd_rounds_induction P last round zero a b h = absurd (omega arith)
gcd_rounds_induction P last round (suc rounds) a b h = elim (Bool-cases (b == 0)) [
  | inl done ↦
      let none_left : b ≡ 0 = ground arith in
      rw (done, gcd_rounds) (subst (λ k. P a k a) (sym none_left) (last a))
  | inr more ↦
      let smaller : a % b < rounds = ground arith in
      rw (more, gcd_rounds)
        (round a b _ (gcd_rounds_induction P last round rounds b (a % b) smaller))
]

pub gcd-dvd : (a b : ℕ) → (gcd a b ∣ a) × (gcd a b ∣ b)
unfolding gcd
gcd-dvd a b =
    gcd_rounds_induction (λ a b g. (g ∣ a) × (g ∣ b)) (λ a. (Nat.dvd_refl a, Nat.dvd-zero a))
      (λ a b g h. ((Nat.dvd-mod_iff g h.0).0 h.1, h.0)) (b + 1) a b (omega arith)

remainder-dvd-mul : (d m x y : ℕ) → (d ∣ x * m) × (d ∣ y * m) → d ∣ x % y * m
remainder-dvd-mul d m x y (left, right) =
    let e : x * m ≡ x / y * (y * m) + x % y * m =
      omega (arith, ap (λ (t : ℕ). t * m) (Nat.div-add-mod x y)) in
    (Nat.dvd-add_iff_right d (Nat.dvd-mul_left_of_dvd d right (x / y))).1 (subst (◌∣◌ d) e left)

-- The gcd is the greatest, also under a common factor.
pub dvd-gcd-mul : (k c a b : ℕ) → k ∣ a * c → k ∣ b * c → k ∣ gcd a b * c
unfolding gcd
dvd-gcd-mul k c a b =
    gcd_rounds_induction (λ a b g. k ∣ a * c → k ∣ b * c → k ∣ g * c) (λ a p q. p)
      (λ a b g h p q. h q (remainder-dvd-mul k c a b (p, q))) (b + 1) a b (omega arith)

pub dvd-gcd : (k a b : ℕ) → k ∣ a → k ∣ b → k ∣ gcd a b
dvd-gcd k a b p q =
    subst (λ t. k ∣ t) (Nat.mul-one (gcd a b))
      (dvd-gcd-mul k 1 a b (Nat.dvd-mul_right_of_dvd k p 1) (Nat.dvd-mul_right_of_dvd k q 1))

pub gcd_pos_right : (a b : ℕ) → 0 < b → 0 < gcd a b
gcd_pos_right a b h = Nat.pos_of_dvd_of_pos (gcd-dvd a b).1 h

-- What divides one number is its gcd with it.
pub gcd-eq_of_dvd : (a b : ℕ) → b ∣ a → gcd a b ≡ b
gcd-eq_of_dvd a b h = Nat.dvd_antisymm (gcd-dvd a b).1 (dvd-gcd b a b h (Nat.dvd_refl b))

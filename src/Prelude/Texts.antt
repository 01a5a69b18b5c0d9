-- ===== src/Prelude/Texts.antt =====
-- std::string's `==`, and sets of strings as lists without repetitions.
use mathlib.Core.Path.{◌≡◌, refl, ap₂}
use mathlib.Core.Logic.{inl, inr}
use mathlib.Core.Bool.{Bool, true, false, ◌&&◌, ◌||◌}
use mathlib.Core.List.{List, [], ◌∷◌, ◌++◌}
use native.Mathlib.Omega.{arith}
use polymarket_cpp_client.Prelude.Tests.{◌==◌, Bool-cases}
use polymarket_cpp_client.Prelude.Lists.{Bytes}

-- `empty()`.
unfoldable pub is_empty : Bytes → Bool
is_empty [] = true
is_empty (c ∷ cs) = false

unfoldable pub equal_bytes : Bytes → Bytes → Bool
equal_bytes [] [] = true
equal_bytes [] (d ∷ ds) = false
equal_bytes (c ∷ cs) [] = false
equal_bytes (c ∷ cs) (d ∷ ds) = (c == d) && equal_bytes cs ds

unfoldable pub contains : Bytes → List Bytes → Bool
contains text [] = false
contains text (x ∷ xs) = equal_bytes text x || contains text xs

unfoldable pub Distinct : List Bytes → Type 0
Distinct [] = Unit
Distinct (x ∷ xs) = (contains x xs ≡ false) × Distinct xs

pub equal_bytes_lem : (xs ys : Bytes) → equal_bytes xs ys ≡ true → xs ≡ ys
unfolding equal_bytes
equal_bytes_lem [] [] h = refl
equal_bytes_lem [] (y ∷ ys) h = cc
equal_bytes_lem (x ∷ xs) [] h = cc
equal_bytes_lem (x ∷ xs) (y ∷ ys) h = elim (Bool-cases (equal_bytes xs ys)) [
  | inl t ↦ let e : x ≡ y = ground arith in ap₂ ◌∷◌ e (equal_bytes_lem xs ys t)
  | inr t ↦ ground arith
]

pub equal_bytes_refl : (xs : Bytes) → equal_bytes xs xs ≡ true
unfolding equal_bytes
equal_bytes_refl [] = refl
equal_bytes_refl (x ∷ xs) = ground (arith, equal_bytes_refl xs)

pub equal_bytes_symm : (xs ys : Bytes) → equal_bytes xs ys ≡ equal_bytes ys xs
unfolding equal_bytes
equal_bytes_symm [] [] = refl
equal_bytes_symm [] (y ∷ ys) = refl
equal_bytes_symm (x ∷ xs) [] = refl
equal_bytes_symm (x ∷ xs) (y ∷ ys) = ground (arith, equal_bytes_symm xs ys)

pub contains-append :
    (text : Bytes) (xs ys : List Bytes)
    → contains text (xs ++ ys) ≡ (contains text xs || contains text ys)
unfolding contains
contains-append text [] ys = refl
contains-append text (x ∷ xs) ys = ground (arith, contains-append text xs ys)

pub Distinct-snoc :
    (xs : List Bytes) (x : Bytes) → Distinct xs → contains x xs ≡ false → Distinct (xs ++ x ∷ [])
unfolding Distinct contains
Distinct-snoc [] x d new = (refl, tt)
Distinct-snoc (y ∷ xs) x (d, ds) new = (
  ground (arith, contains-append y xs (x ∷ []), equal_bytes_symm x y),
  Distinct-snoc xs x ds (ground arith),
)

-- ===== src/Uint/Value.antt =====
-- The number that a big-endian byte string stands for.
use native.Mathlib.Nat.{pow-suc}
use polymarket_cpp_client.Prelude.{
  ℕ, zero, suc, ◌+◌, ◌*◌, ◌^◌, ◌<◌, ◌≡◌, refl, [], ◌∷◌, ◌++◌, Bytes, IsBytes, length, replicate,
  arith, length-append, pow-add, digit_unique, ap₂,
}
use polymarket_cpp_client.Uint.{uint256_word, store_bytes}

-- Big-endian, as the EVM reads a word.
unfoldable pub value : Bytes → ℕ
value [] = 0
value (b ∷ bs) = b * 256 ^ length bs + value bs

pub value-nil : value [] ≡ 0
unfolding value
value-nil = refl

pub value-lt : (bs : Bytes) → IsBytes bs → value bs < 256 ^ length bs
unfolding value
value-lt [] h = omega arith
value-lt (b ∷ bs) h =
    let p : 256 ^ suc (length bs) ≡ 256 ^ length bs * 256 = pow-suc 256 (length bs) in
    grind (arith, value-lt bs h.1)

pub value-append : (xs ys : Bytes) → value (xs ++ ys) ≡ value xs * 256 ^ length ys + value ys
unfolding value
value-append [] ys = omega arith
value-append (x ∷ xs) ys =
    rw (length-append xs ys, value-append xs ys, pow-add 256 (length xs) (length ys)) (grind arith)

pub value-zeros : (n : ℕ) (bs : Bytes) → value (replicate n 0 ++ bs) ≡ value bs
unfolding value
value-zeros zero bs = refl
value-zeros (suc n) bs = omega (arith, value-zeros n bs)

-- A byte string is its length and its value.
pub value-injective :
    (xs ys : Bytes)
    → IsBytes xs
    → IsBytes ys
    → length xs ≡ length ys
    → value xs ≡ value ys
    → xs ≡ ys
unfolding value
value-injective [] [] hx hy l e = refl
value-injective [] (y ∷ ys) hx hy l e = absurd (omega arith)
value-injective (x ∷ xs) [] hx hy l e = absurd (omega arith)
value-injective (x ∷ xs) (y ∷ ys) hx hy l e =
    let same_length : length xs ≡ length ys = omega arith in
    let e' : x * 256 ^ length ys + value xs ≡ y * 256 ^ length ys + value ys =
      rw same_length at e in
    let below : value xs < 256 ^ length ys = rw same_length at (value-lt xs hx.1) in
    let (head, rest) = digit_unique x y (value xs) (value ys) _ below (value-lt ys hy.1) e' in
    ap₂ ◌∷◌ head (value-injective xs ys hx.1 hy.1 same_length rest)

-- The word that `uint256_word` builds has 32 bytes and the value of its argument.
pub uint256_word_lem :
    (n : ℕ)
    → n < 2 ^ 64
    → (length (uint256_word n) ≡ 32) × IsBytes (uint256_word n) × (value (uint256_word n) ≡ n)
unfolding uint256_word store_bytes value
uint256_word_lem n h = (omega arith, omega arith, omega arith)

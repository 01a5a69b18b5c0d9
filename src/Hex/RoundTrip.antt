-- ===== src/Hex/RoundTrip.antt =====
-- What `to_hex` writes, `from_hex` reads back, and when `from_hex` succeeds.
use polymarket_cpp_client.Prelude.{
  ℕ, ◌*◌, ◌/◌, ◌%◌, ◌<◌, ◌≡◌, refl, [], ◌∷◌, Bytes, IsBytes, length, arith, Bool, true, false, ◌==◌,
  ◌||◌, not, if◌then◌else◌, ==_iff,
}
use polymarket_cpp_client.Prelude.Tables.{holds_below, holds_below_at}
use polymarket_cpp_client.Prelude.Except.{Except, ok, throw}
use polymarket_cpp_client.Hex.{hex_digit, hex_pairs, to_hex, strip_0x, nibble, from_pairs, from_hex}

abbrev is_value : ℕ → Except ℕ → Bool
is_value n (ok m) = m == n
is_value n (throw e) = false

is_value-eq : (n : ℕ) (r : Except ℕ) → is_value n r ≡ true → r ≡ ok n
is_value-eq n (ok m) h = ground (arith, ==_iff m n)
is_value-eq n (throw e) h = cc

nibble_table : holds_below 16 (λ n. is_value n (nibble (hex_digit n))) ≡ true
unfolding holds_below nibble hex_digit
nibble_table = refl

pub nibble-hex_digit : (n : ℕ) → n < 16 → nibble (hex_digit n) ≡ ok n
nibble-hex_digit n h = is_value-eq n _ (holds_below_at 16 _ n nibble_table h)

pub from_pairs-hex_pairs : (bs : Bytes) → IsBytes bs → from_pairs (hex_pairs bs) ≡ ok bs
unfolding from_pairs hex_pairs
from_pairs-hex_pairs [] h = refl
from_pairs-hex_pairs (b ∷ bs) h =
    ground (arith, nibble-hex_digit (b / 16), nibble-hex_digit (b % 16), from_pairs-hex_pairs bs)

pub length-hex_pairs : (bs : Bytes) → length (hex_pairs bs) ≡ 2 * length bs
unfolding hex_pairs
length-hex_pairs [] = omega arith
length-hex_pairs (b ∷ bs) = omega (arith, length-hex_pairs bs)

-- Only the digit of zero is the character '0', and no digit is the x of a prefix.
digit_table :
    holds_below 16 (λ n.
      if n == 0
      then hex_digit n == b'0'
      else not (hex_digit n == b'0' || (hex_digit n == b'x' || hex_digit n == b'X')))
    ≡ true
unfolding holds_below hex_digit
digit_table = refl

pub hex_digit-zero : (n : ℕ) → n < 16 → (hex_digit n == b'0') ≡ (n == 0)
hex_digit-zero n h = ground (arith, holds_below_at 16 _ n digit_table h)

hex_digit-ne-x : (n : ℕ) → n < 16 → (hex_digit n == b'x' || hex_digit n == b'X') ≡ false
hex_digit-ne-x n h = ground (arith, holds_below_at 16 _ n digit_table h, ==_iff (hex_digit n) b'0')

-- Digits alone carry no prefix that `from_hex` would remove.
strip_0x-hex_pairs : (bs : Bytes) → IsBytes bs → strip_0x (hex_pairs bs) ≡ hex_pairs bs
unfolding strip_0x hex_pairs
strip_0x-hex_pairs [] h = refl
strip_0x-hex_pairs (b ∷ bs) h = ground (arith, hex_digit-ne-x (b % 16))

pub from_hex-hex_pairs : (bs : Bytes) → IsBytes bs → from_hex (hex_pairs bs) ≡ ok bs
unfolding from_hex
from_hex-hex_pairs bs h =
    ground (arith, strip_0x-hex_pairs bs h, length-hex_pairs bs, from_pairs-hex_pairs bs h)

-- Every byte string that `to_hex` prints is read back unchanged by `from_hex`.
pub from_hex-to_hex : (bs : Bytes) → IsBytes bs → from_hex (to_hex bs) ≡ ok bs
unfolding from_hex to_hex strip_0x
from_hex-to_hex bs h = ground (arith, length-hex_pairs bs, from_pairs-hex_pairs bs)

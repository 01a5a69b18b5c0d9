-- ===== src/Hex.antt =====
-- Hexadecimal text: `to_hex` and `from_hex` of src/order_signer.cpp.
pub mod RoundTrip
mod Examples
use polymarket_cpp_client.Prelude.{
  ℕ, ◌+◌, ◌-◌, ◌*◌, ◌/◌, ◌%◌, ◌&&◌, ◌||◌, [], ◌∷◌, Bytes, codes, length, get_or, leb, ◌==◌,
  if◌then◌else◌,
}
use polymarket_cpp_client.Prelude.Except.{
  Except, ok, throw, invalid_argument, ◌>>=◌, ◌>>◌, throw_if,
}

-- `digits[n]`, for n < 16.
unfoldable pub hex_digit : ℕ → ℕ
hex_digit n = get_or (codes "0123456789abcdef") n 0

-- The loop of `prefixed_hex`: two characters for each byte.
unfoldable pub hex_pairs : Bytes → Bytes
hex_pairs [] = []
hex_pairs (b ∷ bs) = hex_digit (b / 16) ∷ hex_digit (b % 16) ∷ hex_pairs bs

unfoldable pub to_hex : Bytes → Bytes
to_hex bytes = b'0' ∷ b'x' ∷ hex_pairs bytes

-- `h.remove_prefix(2)` where the text begins with 0x or 0X.
unfoldable pub strip_0x : Bytes → Bytes
strip_0x (a ∷ b ∷ s) = if a == b'0' && (b == b'x' || b == b'X') then s else a ∷ b ∷ s
strip_0x s = s

unfoldable pub nibble : ℕ → Except ℕ
nibble c =
    if leb b'0' c && leb c b'9'
    then ok (c - b'0')
    else if leb b'a' c && leb c b'f'
    then ok (c - b'a' + 10)
    else if leb b'A' c && leb c b'F'
    then ok (c - b'A' + 10)
    else throw (invalid_argument "hex input contains a non-hexadecimal character")

-- The loop over the pairs, `index += 2`.
unfoldable pub from_pairs : Bytes → Except Bytes
from_pairs (a ∷ b ∷ s) = do
  high ← nibble a
  low ← nibble b
  rest ← from_pairs s
  ok ((high * 16 + low) ∷ rest)
from_pairs s = ok []

unfoldable pub from_hex : Bytes → Except Bytes
from_hex text = do
  let h = strip_0x text
  throw_if (length h % 2 == 1) (invalid_argument "hex input must contain complete bytes")
  from_pairs h

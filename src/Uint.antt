-- ===== src/Uint.antt =====
-- 256-bit unsigned integers as big-endian words: src/evm_uint.cpp.
mod Examples
pub mod Value
pub mod Decimal
pub mod Hexadecimal
use polymarket_cpp_client.Prelude.{
  ℕ, zero, suc, ◌+◌, ◌-◌, ◌*◌, ◌/◌, ◌%◌, ◌^◌, ◌&&◌, ◌||◌, not, [], ◌∷◌, ◌++◌, Bool, true, false,
  Bytes, length, replicate, set, drop, String, ltb, ◌==◌, if◌then◌else◌,
}
use polymarket_cpp_client.Prelude.Except.{
  Except, ok, throw, Exception, invalid_argument, ◌>>=◌, ◌>>◌, throw_if,
}
use polymarket_cpp_client.Hex.{from_hex}

abbrev pub word_size : ℕ
word_size = 32

-- The inner loop of `decimal_to_word`, from the last byte to the first: the word times ten plus
-- the carry, and the carry that is left.
unfoldable pub times_ten_plus : Bytes → ℕ → Bytes × ℕ
times_ten_plus [] carry = ([], carry)
times_ten_plus (b ∷ bs) carry =
    let (bs', low) = times_ten_plus bs carry in
    let next = b * 10 + low in ((next % 256) ∷ bs', next / 256)

-- The outer loop of `decimal_to_word`.
unfoldable pub decimal_loop : Bytes → Bytes → Except Bytes
decimal_loop [] word = ok word
decimal_loop (c ∷ text) word = do
  throw_if (ltb c b'0' || ltb b'9' c)
      (invalid_argument "unsigned integer must be base-10 digits or 0x-hex")
  let (word', carry) = times_ten_plus word (c - b'0')
  throw_if (not (carry == 0)) (invalid_argument "unsigned integer exceeds uint256")
  decimal_loop text word'

unfoldable pub decimal_to_word : Bytes → Except Bytes
decimal_to_word text = decimal_loop text (replicate word_size 0)

-- `digits.substr(digits.find_first_not_of('0'))`, empty where every digit is 0.
unfoldable pub skip_zeros : Bytes → Bytes
skip_zeros [] = []
skip_zeros (c ∷ s) = if c == b'0' then skip_zeros s else c ∷ s

-- `from_hex` with its std::invalid_argument caught and reworded.
unfoldable pub from_hex_or : Bytes → String → Except Bytes
from_hex_or text message = elim (from_hex text) [
  | ok bytes ↦ ok bytes
  | throw (invalid_argument _) ↦ throw (invalid_argument message)
  | throw e ↦ throw e
]

unfoldable pub hex_to_word : Bytes → Except Bytes
hex_to_word text = do
  let digits = skip_zeros text
  throw_if (ltb (2 * word_size) (length digits))
      (invalid_argument "unsigned integer exceeds uint256")
  let even = if length digits % 2 == 0 then digits else b'0' ∷ digits
  bytes ← from_hex_or even "unsigned integer is not valid hex"
  ok (replicate (word_size - length bytes) 0 ++ bytes)

-- `text.rfind("0x", 0) == 0 || text.rfind("0X", 0) == 0`
unfoldable pub has_0x : Bytes → Bool
has_0x (a ∷ b ∷ s) = a == b'0' && (b == b'x' || b == b'X')
has_0x s = false

unfoldable pub parse_uint256_word : Bytes → Except Bytes
parse_uint256_word text = do
  throw_if (length text == 0 || (has_0x text && length text == 2))
      (invalid_argument "unsigned integer is empty")
  if has_0x text then hex_to_word (drop 2 text) else decimal_to_word text

-- `word[31 - i] = (value >> (8 * i)) & 0xff` for the rounds that are left, i counting up.
unfoldable pub store_bytes : ℕ → ℕ → ℕ → Bytes → Bytes
store_bytes zero i value word = word
store_bytes (suc rounds) i value word =
    store_bytes rounds (i + 1) value (set word (word_size - 1 - i) (value / 2 ^ (8 * i) % 256))

unfoldable pub uint256_word : ℕ → Bytes
uint256_word value = store_bytes 8 0 value (replicate word_size 0)

-- ===== src/Quantity.antt =====
-- EVM quantities: `evm_quantity_to_uint64` and `evm_uint64_to_quantity` of src/evm_cursor_store.cpp.
pub mod RoundTrip
mod Examples
use polymarket_cpp_client.Prelude.{
  ℕ, zero, suc, Bool, true, false, ◌+◌, ◌*◌, ◌/◌, ◌%◌, ◌^◌, ltb, leb, ◌==◌, ◌&&◌, ◌||◌, not,
  if◌then◌else◌, List, [], ◌∷◌, ◌++◌, Option, none, some, Bytes, is_empty,
}
use polymarket_cpp_client.Prelude.Except.{
  Except, ok, throw, invalid_argument, out_of_range, ◌>>=◌, ◌>>◌, throw_if,
}
use polymarket_cpp_client.Hex.{hex_digit, nibble}

-- A digit of the base, 10 or 16, as std::from_chars reads it.
unfoldable pub digit : ℕ → ℕ → Option ℕ
digit base c = elim (nibble c) [ ok d ↦ if ltb d base then some d else none | throw e ↦ none ]

-- The longest run of digits, its value and what is left: the scan of std::from_chars.
unfoldable pub scan : ℕ → ℕ → Bytes → ℕ × Bytes
scan base value [] = (value, [])
scan base value (c ∷ text) = elim (digit base c) [
  | none ↦ (value, c ∷ text)
  | some d ↦ scan base (value * base + d) text
]

unfoldable pub starts_with_digit : ℕ → Bytes → Bool
starts_with_digit base [] = false
starts_with_digit base (c ∷ text) = elim (digit base c) [ none ↦ false | some d ↦ true ]

-- The digits, after the checks on the text. std::from_chars reports a text without a digit as
-- invalid, and a value that does not fit, whatever follows it, as out of range.
unfoldable pub read_digits : ℕ → Bytes → Except ℕ
read_digits base digits = do
  throw_if (is_empty digits) (invalid_argument "EVM quantity has no digits")
  let (value, rest) = scan base 0 digits
  throw_if (leb (2 ^ 64) value) (out_of_range "EVM quantity exceeds uint64")
  throw_if (not (starts_with_digit base digits) || not (is_empty rest))
      (invalid_argument "invalid EVM quantity")
  ok value

unfoldable pub evm_quantity_to_uint64 : Bytes → Except ℕ
evm_quantity_to_uint64 [] = throw (invalid_argument "empty EVM quantity")
evm_quantity_to_uint64 (a ∷ []) = read_digits 10 (a ∷ [])
evm_quantity_to_uint64 (a ∷ b ∷ digits) =
    if a == b'0' && (b == b'x' || b == b'X')
    then read_digits 16 digits
    else read_digits 10 (a ∷ b ∷ digits)

-- `std::hex << value`: a uint64_t has at most 16 digits.
unfoldable pub print_hex : ℕ → ℕ → Bytes
print_hex zero value = []
print_hex (suc rounds) value =
    let high = print_hex rounds (value / 16) in
    (if ltb value 16 then [] else high) ++ hex_digit (value % 16) ∷ []

unfoldable pub evm_uint64_to_quantity : ℕ → Bytes
evm_uint64_to_quantity value = b'0' ∷ b'x' ∷ print_hex 16 value

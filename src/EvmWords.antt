-- ===== src/EvmWords.antt =====
-- ABI words of event data and their decimal text: src/evm_utils.cpp.
pub mod DecimalText
mod Examples
use polymarket_cpp_client.Prelude.{
  ℕ, zero, suc, Bool, true, false, ◌+◌, ◌-◌, ◌*◌, ◌/◌, ◌%◌, ltb, leb, ◌==◌, ◌&&◌, if◌then◌else◌,
  List, [], ◌∷◌, Bytes, length,
}
use polymarket_cpp_client.Prelude.Except.{
  Except, ok, throw, invalid_argument, ◌>>=◌, ◌>>◌, throw_if,
}
use polymarket_cpp_client.Hex.{strip_0x}
use polymarket_cpp_client.Uint.{skip_zeros}

unfoldable pub hex_value : ℕ → Except ℕ
hex_value c =
    if leb b'0' c && leb c b'9'
    then ok (c - b'0')
    else if leb b'a' c && leb c b'f'
    then ok (10 + c - b'a')
    else if leb b'A' c && leb c b'F'
    then ok (10 + c - b'A')
    else throw (invalid_argument "invalid hex character")

-- `for (const auto character : hex) (void)hex_value(character);`
unfoldable pub check_hex : Bytes → Except (Unit {0})
check_hex [] = ok tt
check_hex (c ∷ text) = do d ← hex_value c; check_hex text

unfoldable pub canonical_abi_word_hex : Bytes → Except Bytes
canonical_abi_word_hex word = do
  let hex = strip_0x word
  throw_if (if length hex == 64 then false else true)
      (invalid_argument "ABI value must occupy one word")
  check_hex hex
  ok hex

-- The loop of `decimal_mul_add`, from the last digit to the first, and the carry that is left.
unfoldable pub mul_add_digits : ℕ → Bytes → ℕ → Bytes × ℕ
mul_add_digits mul [] carry = ([], carry)
mul_add_digits mul (c ∷ text) carry =
    let (text', low) = mul_add_digits mul text carry in
    let next = (c - b'0') * mul + low in ((b'0' + next % 10) ∷ text', next / 10)

-- `while (carry > 0)`: the carry falls in each round.
unfoldable pub insert_carry : ℕ → ℕ → Bytes → Bytes
insert_carry zero carry text = text
insert_carry (suc rounds) carry text =
    let rest = insert_carry rounds (carry / 10) ((b'0' + carry % 10) ∷ text) in
    if ltb 0 carry then rest else text

-- `pos == std::string::npos ? "0" : decimal.substr(pos)`
unfoldable pub trimmed : Bytes → Bytes
trimmed [] = b'0' ∷ []
trimmed (c ∷ text) = c ∷ text

unfoldable pub decimal_mul_add : Bytes → ℕ → ℕ → Bytes
decimal_mul_add decimal mul add =
    let (text, carry) = mul_add_digits mul decimal add in
    trimmed (skip_zeros (insert_carry carry carry text))

-- The loop of `positive_hex_to_decimal`.
unfoldable pub hex_to_decimal_loop : Bytes → Bytes → Except Bytes
hex_to_decimal_loop [] result = ok result
hex_to_decimal_loop (c ∷ hex) result = do
  d ← hex_value c
  hex_to_decimal_loop hex (decimal_mul_add result 16 d)

unfoldable pub positive_hex_to_decimal : Bytes → Except Bytes
positive_hex_to_decimal hex = hex_to_decimal_loop (strip_0x hex) (b'0' ∷ [])

unfoldable pub evm_uint_word_to_decimal : Bytes → Except Bytes
evm_uint_word_to_decimal word = do hex ← canonical_abi_word_hex word; positive_hex_to_decimal hex

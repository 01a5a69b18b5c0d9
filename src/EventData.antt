-- ===== src/EventData.antt =====
-- Sizes, arrays, addresses and signed words of event data: src/evm_utils.cpp, on EvmWords.
pub mod Size
mod Examples
use polymarket_cpp_client.Prelude.{
  ℕ, zero, suc, ◌+◌, ◌-◌, ◌*◌, ◌/◌, ◌%◌, ◌^◌, Bool, true, false, not, ◌||◌, ◌&&◌, if◌then◌else◌,
  ltb, leb, ◌==◌, List, [], ◌∷◌, ◌++◌, map, Bytes, codes, length, get_or, take, drop, replicate,
  is_empty,
}
use polymarket_cpp_client.Prelude.Except.{
  Except, ok, throw, invalid_argument, ◌>>=◌, ◌>>◌, throw_if,
}
use polymarket_cpp_client.Hex.{strip_0x}
use polymarket_cpp_client.Uint.{skip_zeros}
use polymarket_cpp_client.EvmWords.{
  hex_value, canonical_abi_word_hex, positive_hex_to_decimal, evm_uint_word_to_decimal,
}

-- The loop of `abi_word_to_size`.
unfoldable pub size_loop : Bytes → ℕ → Except ℕ
size_loop [] value = ok value
size_loop (c ∷ hex) value = do
  d ← hex_value c
  throw_if (ltb ((2 ^ 64 - 1 - d) / 16) value) (invalid_argument "ABI integer exceeds host size")
  size_loop hex (value * 16 + d)

unfoldable pub abi_word_to_size : Bytes → Except ℕ
abi_word_to_size word = do hex ← canonical_abi_word_hex word; size_loop hex 0

-- std::tolower in the "C" locale.
unfoldable pub to_lower : ℕ → ℕ
to_lower c = if leb b'A' c && leb c b'Z' then c + 32 else c

unfoldable pub evm_normalize_hex : Bytes → Bytes
evm_normalize_hex value = codes "0x" ++ map to_lower (strip_0x value)

-- The loop of `evm_data_words`, a round for each word.
unfoldable pub split_words : ℕ → Bytes → List Bytes
split_words zero hex = []
split_words (suc rounds) hex = (codes "0x" ++ take 64 hex) ∷ split_words rounds (drop 64 hex)

unfoldable pub evm_data_words : Bytes → Except (List Bytes)
evm_data_words text = do
  let hex = strip_0x text
  throw_if (not (length hex % 64 == 0)) (invalid_argument "ABI data is not word-aligned")
  ok (split_words (length hex / 64) hex)

-- The loop over the elements.
unfoldable pub decode_elements : List Bytes → Except (List Bytes)
decode_elements [] = ok []
decode_elements (word ∷ words) = do
  value ← evm_uint_word_to_decimal word
  values ← decode_elements words
  ok (value ∷ values)

unfoldable pub evm_decode_uint_array_head : Bytes → ℕ → ℕ → Except (List Bytes)
evm_decode_uint_array_head text offset_word_index head_word_count = do
  words ← evm_data_words text
  throw_if (leb (length words) offset_word_index) (invalid_argument "array offset word is missing")
  throw_if (leb head_word_count offset_word_index || ltb (length words) head_word_count)
      (invalid_argument "ABI static head is invalid")
  offset_bytes ← abi_word_to_size (get_or words offset_word_index [])
  throw_if (not (offset_bytes % 32 == 0)) (invalid_argument "array offset is not word-aligned")
  throw_if (ltb (offset_bytes / 32) head_word_count)
      (invalid_argument "array offset points into ABI static head")
  let length_index = offset_bytes / 32
  throw_if (leb (length words) length_index) (invalid_argument "array length word is missing")
  count ← abi_word_to_size (get_or words length_index [])
  throw_if (ltb (length words - length_index - 1) count)
      (invalid_argument "array data is truncated")
  decode_elements (take count (drop (length_index + 1) words))

unfoldable pub evm_decode_uint_array : Bytes → ℕ → Except (List Bytes)
evm_decode_uint_array text offset_word_index =
    if offset_word_index == 2 ^ 64 - 1
    then throw (invalid_argument "array offset word index is too large")
    else evm_decode_uint_array_head text offset_word_index (offset_word_index + 1)

unfoldable pub evm_word_to_address : Bytes → Except Bytes
evm_word_to_address word = do
  hex ← canonical_abi_word_hex word
  throw_if (not (is_empty (skip_zeros (take 24 hex))))
      (invalid_argument "ABI address has nonzero high padding")
  ok (evm_normalize_hex (drop 24 hex))

-- `n < 10 ? '0' + n : 'a' + n - 10`
unfoldable pub nibble_text : ℕ → ℕ
nibble_text n = if ltb n 10 then b'0' + n else b'a' + n - 10

-- The first loop of `twos_complement_abs`.
unfoldable pub invert : Bytes → Except Bytes
invert [] = ok []
invert (c ∷ hex) = do d ← hex_value c; inverted ← invert hex; ok (nibble_text (15 - d) ∷ inverted)

-- The second loop, from the last digit to the first, and the carry that is left; it ends where the
-- carry is 0.
unfoldable pub add_carry : Bytes → ℕ → Except (Bytes × ℕ)
add_carry [] carry = ok ([], carry)
add_carry (c ∷ hex) carry = do
  (hex', low) ← add_carry hex carry
  d ← hex_value c
  ok (if low == 0 then (c ∷ hex', 0) else (nibble_text ((d + low) % 16) ∷ hex', (d + low) / 16))

unfoldable pub twos_complement_abs : Bytes → Except Bytes
twos_complement_abs text = do
  let hex = strip_0x text
  let padded = replicate (64 - length hex) b'0' ++ hex
  inverted ← invert padded
  (sum, carry) ← add_carry inverted 1
  ok sum

unfoldable pub signed_decimal : Bytes → ℕ → Except Bytes
signed_decimal hex first = if ltb first 8 then positive_hex_to_decimal hex else (do
  magnitude ← twos_complement_abs hex
  decimal ← positive_hex_to_decimal magnitude
  ok (b'-' ∷ decimal))

unfoldable pub evm_int_word_to_decimal : Bytes → Except Bytes
evm_int_word_to_decimal word = do
  hex ← canonical_abi_word_hex word
  first ← hex_value (get_or hex 0 0)
  signed_decimal hex first

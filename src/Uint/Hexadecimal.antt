-- ===== src/Uint/Hexadecimal.antt =====
-- `parse_uint256_word` on 0x-prefixed text.
use polymarket_cpp_client.Prelude.{
  ℕ, ◌-◌, ◌/◌, ◌%◌, ◌<◌, ◌≤◌, ◌≡◌, refl, [], ◌∷◌, ◌++◌, Bytes, IsBytes, length, length-append,
  replicate, arith, length-replicate, ◌∙◌, if◌then◌else◌, ◌==◌,
}
use polymarket_cpp_client.Prelude.Except.{ok}
use polymarket_cpp_client.Hex.{to_hex, hex_pairs, from_hex, strip_0x}
use polymarket_cpp_client.Hex.RoundTrip.{
  hex_digit-zero, from_hex-hex_pairs, from_pairs-hex_pairs, length-hex_pairs,
}
use polymarket_cpp_client.Uint.{
  parse_uint256_word, hex_to_word, skip_zeros, from_hex_or, has_0x, word_size,
}
use polymarket_cpp_client.Uint.Value.{value, value-zeros}

-- The bytes without leading zero bytes.
unfoldable pub trim : Bytes → Bytes
trim [] = []
trim (b ∷ bs) = if b == 0 then trim bs else b ∷ bs

pub value-trim : (bs : Bytes) → value (trim bs) ≡ value bs
unfolding trim value
value-trim [] = refl
value-trim (b ∷ bs) = ground (arith, value-trim bs)

pub length-trim : (bs : Bytes) → length (trim bs) ≤ length bs
unfolding trim
length-trim [] = omega arith
length-trim (b ∷ bs) = ground (arith, length-trim bs)

pub trim-IsBytes : (bs : Bytes) → IsBytes bs → IsBytes (trim bs)
unfolding trim
trim-IsBytes [] h = tt
trim-IsBytes (b ∷ bs) h = ground (arith, trim-IsBytes bs h.1)

-- `digits.insert(digits.begin(), '0')` on an odd count.
abbrev made_even : Bytes → Bytes
made_even digits = if length digits % 2 == 0 then digits else b'0' ∷ digits

made_even-skip_zeros :
    (bs : Bytes) → IsBytes bs → made_even (skip_zeros (hex_pairs bs)) ≡ hex_pairs (trim bs)
unfolding skip_zeros hex_pairs trim
made_even-skip_zeros [] h = refl
made_even-skip_zeros (b ∷ bs) h = ground (
  arith,
  hex_digit-zero (b / 16),
  hex_digit-zero (b % 16),
  length-hex_pairs bs,
  made_even-skip_zeros bs h.1,
)

length-skip_zeros : (s : Bytes) → length (skip_zeros s) ≤ length s
unfolding skip_zeros
length-skip_zeros [] = omega arith
length-skip_zeros (c ∷ s) = ground (arith, length-skip_zeros s)

abbrev pub padded : Bytes → Bytes
padded bs = replicate (word_size - length bs) 0 ++ bs

-- The digits of at most 32 bytes become the word of those bytes.
hex_to_word-hex_pairs :
    (bs : Bytes) → IsBytes bs → length bs ≤ 32 → hex_to_word (hex_pairs bs) ≡ ok (padded (trim bs))
unfolding hex_to_word from_hex_or
hex_to_word-hex_pairs bs h long = ground (
  arith,
  length-skip_zeros (hex_pairs bs),
  length-hex_pairs bs,
  made_even-skip_zeros bs h,
  from_hex-hex_pairs (trim bs) (trim-IsBytes bs h),
)

-- What `to_hex` prints of at most 32 bytes, one at least, is read as the 32-byte word with the same
-- value.
pub parse_uint256_word-to_hex :
    (bs : Bytes)
    → IsBytes bs
    → 0 < length bs
    → length bs ≤ 32
    → (w : Bytes) × (parse_uint256_word (to_hex bs) ≡ ok w) × (length w ≡ 32) × (value w ≡ value bs)
unfolding parse_uint256_word to_hex has_0x
parse_uint256_word-to_hex bs h some_bytes long = (
  padded (trim bs),
  ground (arith, length-hex_pairs bs, hex_to_word-hex_pairs bs h long),
  omega (
    arith,
    length-append {A = ℕ} (replicate (word_size - length (trim bs)) 0) (trim bs),
    length-replicate {A = ℕ} (word_size - length (trim bs)) 0,
    length-trim bs,
  ),
  value-zeros (word_size - length (trim bs)) (trim bs) ∙ value-trim bs,
)

-- Text with a second x behind its prefix is malformed, and is accepted all the same: for at most 31
-- bytes, "0xx" with their digits is read as the word of those bytes.
pub parse_uint256_word-double_x :
    (bs : Bytes)
    → IsBytes bs
    → length bs ≤ 31
    → parse_uint256_word (b'0' ∷ b'x' ∷ b'x' ∷ hex_pairs bs) ≡ ok (padded bs)
unfolding parse_uint256_word has_0x hex_to_word skip_zeros from_hex_or from_hex strip_0x
parse_uint256_word-double_x bs h long =
    ground (arith, length-hex_pairs bs, from_pairs-hex_pairs bs h)

-- ===== src/EventData/Size.antt =====
-- Which words are sizes.
use polymarket_cpp_client.Prelude.{
  ℕ, ◌+◌, ◌-◌, ◌*◌, ◌/◌, ◌^◌, ◌<◌, ◌≤◌, ◌≡◌, ◌⊎◌, inl, inr, refl, arith, ltb, Bool-cases, [], ◌∷◌,
  Bytes, length,
}
use polymarket_cpp_client.Prelude.Except.{ok, throw, invalid_argument}
use polymarket_cpp_client.Hex.{strip_0x}
use polymarket_cpp_client.EvmWords.{hex_value, check_hex, canonical_abi_word_hex}
use polymarket_cpp_client.EvmWords.DecimalText.{
  digit_value, hex_number, hex_value-digit_value, check_hex-cons,
}
use polymarket_cpp_client.EventData.{size_loop, abi_word_to_size}

hex_number-ge : (n : ℕ) (hex : Bytes) → n ≤ hex_number n hex
unfolding hex_number
hex_number-ge n [] = omega arith
hex_number-ge n (c ∷ hex) = omega (arith, hex_number-ge (n * 16 + digit_value c) hex)

hex_value-lt : (c d : ℕ) → hex_value c ≡ ok d → d < 16
unfolding hex_value
hex_value-lt c d h = ground arith

size_loop_lem :
    (hex : Bytes) (value : ℕ)
    → value < 2 ^ 64
    → check_hex hex ≡ ok tt
    → ((hex_number value hex < 2 ^ 64) × (size_loop hex value ≡ ok (hex_number value hex)))
      ⊎ ((2 ^ 64 ≤ hex_number value hex)
          × (size_loop hex value ≡ throw (invalid_argument "ABI integer exceeds host size")))
unfolding size_loop hex_number
size_loop_lem [] value small h = inl (small, refl)
size_loop_lem (c ∷ hex) value small h =
    let ((d, is_digit), rest) = check_hex-cons c hex h in
    let same : d ≡ digit_value c = hex_value-digit_value c d is_digit in
    let low : d < 16 = hex_value-lt c d is_digit in
    elim (Bool-cases (ltb ((2 ^ 64 - 1 - d) / 16) value)) [
      | inl over ↦
          let big : 2 ^ 64 ≤ value * 16 + d = ground arith in
          rw (is_digit, over, ← same)
            (inr (omega (arith, hex_number-ge (value * 16 + d) hex), refl))
      | inr fits ↦
          let next : value * 16 + d < 2 ^ 64 = ground arith in
          rw (is_digit, fits, ← same) (size_loop_lem hex (value * 16 + d) next rest)
    ]

-- An ABI word, 64 hexadecimal digits after an optional prefix, is read as the size that its digits
-- stand for where a uint64 holds it, and is refused as too large where none does.
pub abi_word_to_size_lem :
    (word : Bytes)
    → length (strip_0x word) ≡ 64
    → check_hex (strip_0x word) ≡ ok tt
    → ((hex_number 0 (strip_0x word) < 2 ^ 64)
        × (abi_word_to_size word ≡ ok (hex_number 0 (strip_0x word))))
      ⊎ ((2 ^ 64 ≤ hex_number 0 (strip_0x word))
          × (abi_word_to_size word ≡ throw (invalid_argument "ABI integer exceeds host size")))
unfolding abi_word_to_size canonical_abi_word_hex
abi_word_to_size_lem word wide digits =
    rw (wide, digits) (size_loop_lem (strip_0x word) 0 (omega arith) digits)

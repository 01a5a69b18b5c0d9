-- ===== src/EventData/Examples.antt =====
-- The word of one thousand, and the word of minus one.
use polymarket_cpp_client.Prelude.{◌≡◌, ◌⊎◌, ◌<◌, ◌≤◌, ◌^◌, refl, Bytes, codes, length, replicate}
use polymarket_cpp_client.Prelude.Except.{ok, throw, invalid_argument}
use polymarket_cpp_client.Hex.{strip_0x}
use polymarket_cpp_client.Uint.{skip_zeros}
use polymarket_cpp_client.EvmWords.{
  canonical_abi_word_hex, positive_hex_to_decimal, hex_to_decimal_loop, check_hex, hex_value,
  decimal_mul_add, mul_add_digits, insert_carry, trimmed,
}
use polymarket_cpp_client.EvmWords.DecimalText.{hex_number}
use polymarket_cpp_client.EventData.{
  abi_word_to_size, evm_int_word_to_decimal, signed_decimal, twos_complement_abs, add_carry, invert,
  nibble_text,
}
use polymarket_cpp_client.EventData.Size.{abi_word_to_size_lem}

abbrev thousand_word : Bytes
thousand_word = codes "0x00000000000000000000000000000000000000000000000000000000000003E8"

thousand_wide : length (strip_0x thousand_word) ≡ 64
unfolding strip_0x
thousand_wide = refl

thousand_digits : check_hex (strip_0x thousand_word) ≡ ok tt
unfolding strip_0x check_hex hex_value
thousand_digits = refl

abi_word_to_size_lem_example :
    ((hex_number 0 (strip_0x thousand_word) < 2 ^ 64)
      × (abi_word_to_size thousand_word ≡ ok (hex_number 0 (strip_0x thousand_word))))
    ⊎ ((2 ^ 64 ≤ hex_number 0 (strip_0x thousand_word))
        × (abi_word_to_size thousand_word
            ≡ throw (invalid_argument "ABI integer exceeds host size")))
abi_word_to_size_lem_example = abi_word_to_size_lem thousand_word thousand_wide thousand_digits

minus_one : evm_int_word_to_decimal (replicate 64 b'f') ≡ ok (codes "-1")
unfolding evm_int_word_to_decimal canonical_abi_word_hex strip_0x check_hex hex_value signed_decimal
    twos_complement_abs invert add_carry nibble_text positive_hex_to_decimal hex_to_decimal_loop
    decimal_mul_add mul_add_digits insert_carry skip_zeros trimmed
minus_one = refl

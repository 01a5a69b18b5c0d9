-- ===== src/EvmWords/Examples.antt =====
-- The word of one thousand.
use polymarket_cpp_client.Prelude.{◌≡◌, refl, Bytes, All, codes, length}
use polymarket_cpp_client.Prelude.Except.{ok}
use polymarket_cpp_client.Hex.{strip_0x}
use polymarket_cpp_client.Uint.Decimal.{decimal_from, IsDigit}
use polymarket_cpp_client.EvmWords.{evm_uint_word_to_decimal, check_hex, hex_value}
use polymarket_cpp_client.EvmWords.DecimalText.{
  NoLeadingZero, hex_number, evm_uint_word_to_decimal_lem,
}

abbrev word : Bytes
word = codes "0x00000000000000000000000000000000000000000000000000000000000003E8"

wide : length (strip_0x word) ≡ 64
unfolding strip_0x
wide = refl

digits : check_hex (strip_0x word) ≡ ok tt
unfolding strip_0x check_hex hex_value
digits = refl

evm_uint_word_to_decimal_lem_example :
    (text : Bytes) × (evm_uint_word_to_decimal word ≡ ok text)
    × All IsDigit text
    × NoLeadingZero text
    × (decimal_from 0 text ≡ hex_number 0 (strip_0x word))
evm_uint_word_to_decimal_lem_example = evm_uint_word_to_decimal_lem word wide digits

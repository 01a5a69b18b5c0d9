-- ===== src/Quantity/Examples.antt =====
-- Block numbers as the node writes them.
use polymarket_cpp_client.Prelude.{◌≡◌, refl, codes, arith, is_empty}
use polymarket_cpp_client.Prelude.Except.{ok}
use polymarket_cpp_client.Hex.{hex_digit, nibble}
use polymarket_cpp_client.Quantity.{
  evm_quantity_to_uint64, evm_uint64_to_quantity, print_hex, read_digits, scan, starts_with_digit,
  digit,
}
use polymarket_cpp_client.Quantity.RoundTrip.{evm_quantity_to_uint64-evm_uint64_to_quantity}

printed : evm_uint64_to_quantity 1000 ≡ codes "0x3e8"
unfolding evm_uint64_to_quantity print_hex hex_digit
printed = refl

decimal_text : evm_quantity_to_uint64 (codes "1000") ≡ ok 1000
unfolding evm_quantity_to_uint64 read_digits scan starts_with_digit digit nibble is_empty
decimal_text = refl

evm_quantity_to_uint64-evm_uint64_to_quantity_example :
    evm_quantity_to_uint64 (evm_uint64_to_quantity 1000) ≡ ok 1000
evm_quantity_to_uint64-evm_uint64_to_quantity_example =
    evm_quantity_to_uint64-evm_uint64_to_quantity 1000 (omega arith)

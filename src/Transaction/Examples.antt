-- ===== src/Transaction/Examples.antt =====
-- A transaction that is signed.
use polymarket_cpp_client.Prelude.{◌≡◌, refl, arith, [], ◌∷◌, Bytes, codes, take}
use polymarket_cpp_client.Prelude.Except.{ok}
use polymarket_cpp_client.Hex.{hex_digit, hex_pairs, to_hex, strip_0x, nibble, from_pairs, from_hex}
use polymarket_cpp_client.Uint.{
  times_ten_plus, decimal_loop, decimal_to_word, skip_zeros, from_hex_or, hex_to_word, has_0x,
  parse_uint256_word, store_bytes, uint256_word,
}
use polymarket_cpp_client.Rlp.{
  length_loop, minimal_length_bytes, with_header, rlp_encode_bytes, skip_zero_bytes,
  rlp_encode_uint, concat_items, rlp_encode_list,
}
use polymarket_cpp_client.Transaction.{
  EvmLegacyTransaction, relabel, parse_hex_field, parse_uint_field, encode_uint_field,
  unsigned_fields, check_signature, replay_protected_v, evm_legacy_transaction_signing_hash,
  sign_raw,
}
use polymarket_cpp_client.Transaction.Signed.{IsSigned, sign_raw-IsSigned}

abbrev transfer : EvmLegacyTransaction
transfer = record {
  nonce = codes "9";
  gas_price = codes "0x4a";
  gas_limit = codes "21";
  to = codes "0x3535353535353535353535353535353535353535";
  value = codes "0";
  payload = codes "0x";
  chain_id = 1;
}

-- A signer that returns r = 1, s = 2 and the recovery id 1.
abbrev constant_signer : Bytes → Bytes
constant_signer hash =
    codes
      "0x000000000000000000000000000000000000000000000000000000000000000100000000000000000000000000000000000000000000000000000000000000021c"

abbrev transfer_raw : Bytes
transfer_raw =
    0xdd ∷ 9 ∷ 0x4a ∷ 21 ∷ 0x94 ∷ 0x35 ∷ 0x35 ∷ 0x35 ∷ 0x35 ∷ 0x35 ∷ 0x35 ∷ 0x35 ∷ 0x35 ∷ 0x35
    ∷ 0x35 ∷ 0x35 ∷ 0x35 ∷ 0x35 ∷ 0x35 ∷ 0x35 ∷ 0x35 ∷ 0x35 ∷ 0x35 ∷ 0x35 ∷ 0x35 ∷ 0x80 ∷ 0x80 ∷ 38
    ∷ 1 ∷ 2 ∷ []

transfer_signed : sign_raw (take 32) constant_signer transfer ≡ ok transfer_raw
unfolding hex_digit hex_pairs to_hex strip_0x nibble from_pairs from_hex times_ten_plus decimal_loop
    decimal_to_word skip_zeros from_hex_or hex_to_word has_0x parse_uint256_word store_bytes
    uint256_word length_loop minimal_length_bytes with_header rlp_encode_bytes skip_zero_bytes
    rlp_encode_uint concat_items rlp_encode_list relabel parse_hex_field parse_uint_field
    encode_uint_field unsigned_fields check_signature replay_protected_v
    evm_legacy_transaction_signing_hash sign_raw
transfer_signed = refl

sign_raw-IsSigned_example : IsSigned (take 32) constant_signer transfer transfer_raw
sign_raw-IsSigned_example =
    sign_raw-IsSigned (take 32) constant_signer transfer transfer_raw transfer_signed (omega arith)

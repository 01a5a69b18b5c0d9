-- ===== src/Rlp.antt =====
-- RLP encoding: src/evm_rlp.cpp.
pub mod Decode
pub mod Lists
mod Examples
use polymarket_cpp_client.Prelude.{
  ℕ, zero, suc, ◌+◌, ◌/◌, ◌%◌, ◌&&◌, List, [], ◌∷◌, ◌++◌, Bytes, length, get_or, ltb, ◌==◌,
  if◌then◌else◌,
}

-- `for (; length != 0; length >>= 8)`: eight rounds are enough for a 64-bit size_t.
unfoldable pub length_loop : ℕ → ℕ → Bytes → Bytes
length_loop zero n bytes = bytes
length_loop (suc rounds) n bytes =
    let rest = length_loop rounds (n / 256) ((n % 256) ∷ bytes) in if n == 0 then bytes else rest

unfoldable pub minimal_length_bytes : ℕ → Bytes
minimal_length_bytes n = length_loop 8 n []

unfoldable pub with_header : ℕ → ℕ → Bytes → Bytes
with_header short_base long_base payload =
    if ltb (length payload) 56
    then ((short_base + length payload) % 256) ∷ payload
    else (let size = minimal_length_bytes (length payload) in
        ((long_base + length size) % 256) ∷ (size ++ payload))

unfoldable pub rlp_encode_bytes : Bytes → Bytes
rlp_encode_bytes bytes =
    if length bytes == 1 && ltb (get_or bytes 0 0) 0x80
    then get_or bytes 0 0 ∷ []
    else with_header 0x80 0xb7 bytes

-- `while (first < size && big_endian[first] == 0) ++first;` and the bytes from there on.
unfoldable pub skip_zero_bytes : Bytes → Bytes
skip_zero_bytes [] = []
skip_zero_bytes (b ∷ bs) = if b == 0 then skip_zero_bytes bs else b ∷ bs

unfoldable pub rlp_encode_uint : Bytes → Bytes
rlp_encode_uint big_endian = rlp_encode_bytes (skip_zero_bytes big_endian)

unfoldable pub concat_items : List Bytes → Bytes
concat_items [] = []
concat_items (item ∷ items) = item ++ concat_items items

unfoldable pub rlp_encode_list : List Bytes → Bytes
rlp_encode_list encoded_items = with_header 0xc0 0xf7 (concat_items encoded_items)

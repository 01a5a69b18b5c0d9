-- ===== src/Rlp/Examples.antt =====
-- Encodings of the words of the RLP specification.
use polymarket_cpp_client.Prelude.{
  ◌≡◌, refl, ◌<◌, ◌^◌, ◌-◌, [], ◌∷◌, ◌++◌, map, some, false, Bytes, arith, codes, length,
}
use polymarket_cpp_client.Uint.Value.{value}
use polymarket_cpp_client.Rlp.{
  rlp_encode_bytes, rlp_encode_uint, rlp_encode_list, concat_items, with_header,
}
use polymarket_cpp_client.Rlp.Decode.{
  rlp_decode, IsScalar, rlp_decode-rlp_encode_bytes, rlp_decode-rlp_encode_uint,
}
use polymarket_cpp_client.Rlp.Lists.{decode_string_list, decode_string_list-rlp_encode_list}

dog : rlp_encode_bytes (codes "dog") ≡ 0x83 ∷ codes "dog"
unfolding rlp_encode_bytes with_header
dog = refl

rlp_decode-rlp_encode_bytes_example :
    rlp_decode (rlp_encode_bytes (codes "dog") ++ codes "cat")
    ≡ some (false, codes "dog", codes "cat")
rlp_decode-rlp_encode_bytes_example =
    rlp_decode-rlp_encode_bytes (codes "dog") (codes "cat") (omega arith)

rlp_decode-rlp_encode_uint_example :
    (scalar : Bytes) × (rlp_decode (rlp_encode_uint (0 ∷ 4 ∷ 0 ∷ []) ++ [])
      ≡ some (false, scalar, []))
    × IsScalar scalar
    × (value scalar ≡ value (0 ∷ 4 ∷ 0 ∷ []))
rlp_decode-rlp_encode_uint_example = rlp_decode-rlp_encode_uint (0 ∷ 4 ∷ 0 ∷ []) [] (omega arith)

two_words :
    concat_items (map rlp_encode_bytes (codes "cat" ∷ codes "dog" ∷ []))
    ≡ 0x83 ∷ codes "cat" ++ 0x83 ∷ codes "dog"
unfolding rlp_encode_bytes with_header concat_items
two_words = refl

short : length (concat_items (map rlp_encode_bytes (codes "cat" ∷ codes "dog" ∷ []))) < 2 ^ 64 - 1
short = rw two_words (omega arith)

decode_string_list-rlp_encode_list_example :
    decode_string_list (rlp_encode_list (map rlp_encode_bytes (codes "cat" ∷ codes "dog" ∷ [])))
    ≡ some (codes "cat" ∷ codes "dog" ∷ [])
decode_string_list-rlp_encode_list_example =
    decode_string_list-rlp_encode_list (codes "cat" ∷ codes "dog" ∷ []) short

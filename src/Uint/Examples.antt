-- ===== src/Uint/Examples.antt =====
-- Runs of the word parsers.
use polymarket_cpp_client.Prelude.{
  ◌≡◌, ◌⊎◌, refl, ◌<◌, ◌≤◌, ◌^◌, [], ◌∷◌, Bytes, IsBytes, arith, codes, length, replicate, ◌++◌,
}
use polymarket_cpp_client.Prelude.Except.{ok, throw, invalid_argument}
use polymarket_cpp_client.Hex.{to_hex, hex_pairs}
use polymarket_cpp_client.Uint.{decimal_to_word, decimal_loop, times_ten_plus, parse_uint256_word}
use polymarket_cpp_client.Uint.Value.{value}
use polymarket_cpp_client.Uint.Decimal.{decimal_from, decimal_to_word_of_digits}
use polymarket_cpp_client.Uint.Hexadecimal.{
  padded, parse_uint256_word-to_hex, parse_uint256_word-double_x,
}

decimal_to_word_of_digits_example :
    ((decimal_from 0 (codes "1000") < 2 ^ 256)
      × (w : Bytes) × (decimal_to_word (codes "1000") ≡ ok w)
      × (length w ≡ 32)
      × IsBytes w
      × (value w ≡ decimal_from 0 (codes "1000")))
    ⊎ ((2 ^ 256 ≤ decimal_from 0 (codes "1000"))
        × (decimal_to_word (codes "1000")
            ≡ throw (invalid_argument "unsigned integer exceeds uint256")))
decimal_to_word_of_digits_example = decimal_to_word_of_digits (codes "1000") (omega arith)

abbrev thousand_word : Bytes
thousand_word = replicate 30 0 ++ 3 ∷ 232 ∷ []

thousand : decimal_to_word (codes "1000") ≡ ok thousand_word
unfolding decimal_to_word decimal_loop times_ten_plus
thousand = refl

parse_uint256_word-to_hex_example :
    (w : Bytes) × (parse_uint256_word (to_hex (3 ∷ 232 ∷ [])) ≡ ok w)
    × (length w ≡ 32)
    × (value w ≡ value (3 ∷ 232 ∷ []))
parse_uint256_word-to_hex_example =
    parse_uint256_word-to_hex (3 ∷ 232 ∷ []) (omega arith) (omega arith) (omega arith)

parse_uint256_word-double_x_example :
    parse_uint256_word (b'0' ∷ b'x' ∷ b'x' ∷ hex_pairs (18 ∷ [])) ≡ ok (padded (18 ∷ []))
parse_uint256_word-double_x_example =
    parse_uint256_word-double_x (18 ∷ []) (omega arith) (omega arith)

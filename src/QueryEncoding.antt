-- ===== src/QueryEncoding.antt =====
-- Percent encoding of query values: src/query_encoding.hpp.
pub mod RoundTrip
mod Examples
use polymarket_cpp_client.Prelude.{
  ℕ, ◌/◌, ◌%◌, Bool, ◌&&◌, ◌||◌, if◌then◌else◌, leb, ◌==◌, [], ◌∷◌, ◌++◌, Bytes, codes, get_or,
}

unfoldable pub unreserved : ℕ → Bool
unreserved c =
    leb b'A' c && leb c b'Z'
    || leb b'a' c && leb c b'z'
    || leb b'0' c && leb c b'9'
    || c == b'-'
    || c == b'.'
    || c == b'_'
    || c == b'~'

-- `HEX[n]`, for n < 16.
unfoldable pub hex_upper : ℕ → ℕ
hex_upper n = get_or (codes "0123456789ABCDEF") n 0

unfoldable pub percent_encode_query_value : Bytes → Bytes
percent_encode_query_value [] = []
percent_encode_query_value (c ∷ value) =
    (if unreserved c then c ∷ [] else b'%' ∷ hex_upper (c / 16) ∷ hex_upper (c % 16) ∷ [])
    ++ percent_encode_query_value value

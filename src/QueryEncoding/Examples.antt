-- ===== src/QueryEncoding/Examples.antt =====
-- A cursor in a query.
use polymarket_cpp_client.Prelude.{◌≡◌, refl, arith, codes}
use polymarket_cpp_client.QueryEncoding.{percent_encode_query_value, unreserved, hex_upper}
use polymarket_cpp_client.QueryEncoding.RoundTrip.{percent_decode, percent_decode-encode}

cursor_encoded : percent_encode_query_value (codes "LTE=") ≡ codes "LTE%3D"
unfolding percent_encode_query_value unreserved hex_upper
cursor_encoded = refl

percent_decode-encode_example :
    percent_decode (percent_encode_query_value (codes "LTE=")) ≡ codes "LTE="
percent_decode-encode_example = percent_decode-encode (codes "LTE=") (omega arith)

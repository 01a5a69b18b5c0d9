-- ===== src/Hex/Examples.antt =====
-- Runs of the hexadecimal routines.
use polymarket_cpp_client.Prelude.{[], ◌∷◌, ◌≡◌, refl, codes}
use polymarket_cpp_client.Hex.{to_hex, hex_pairs, hex_digit}

to_hex_bytes : to_hex (0 ∷ 255 ∷ 26 ∷ []) ≡ codes "0x00ff1a"
unfolding to_hex hex_pairs hex_digit
to_hex_bytes = refl

-- ===== src/Abi/Examples.antt =====
-- The call f(7, "hi") of a function of a number and some bytes.
use polymarket_cpp_client.Prelude.{
  ℕ, ◌≡◌, refl, true, false, [], ◌∷◌, ◌++◌, ◌+◌, ◌<◌, ◌^◌, Bytes, codes, arith, replicate,
}
use polymarket_cpp_client.Uint.{uint256_word, store_bytes}
use polymarket_cpp_client.Abi.{
  Part, word, bytes, nil, cons, append_sequence, evm_abi_encode, encoded_parts, append_encoding,
  is_dynamic, append_padded,
}
use polymarket_cpp_client.Abi.Layout.{Holds, head_bytes, tail_bytes, append_sequence-Holds}

abbrev seven : Part
seven = (false, replicate 31 0 ++ 7 ∷ [])

abbrev greeting : Bytes
greeting = replicate 31 0 ++ 2 ∷ codes "hi" ++ replicate 30 0

encoded_call :
    evm_abi_encode (cons (word (replicate 31 0 ++ 7 ∷ [])) (cons (bytes (codes "hi")) nil))
    ≡ append_sequence (seven ∷ (true, greeting) ∷ [])
unfolding evm_abi_encode encoded_parts append_encoding is_dynamic uint256_word store_bytes
    append_padded
encoded_call = refl

fits :
    head_bytes (seven ∷ (true, greeting) ∷ []) + tail_bytes (seven ∷ (true, greeting) ∷ []) < 2 ^ 64
unfolding head_bytes tail_bytes
fits = omega arith

append_sequence-Holds_example :
    (position : ℕ) × Holds
      (append_sequence (seven ∷ (true, greeting) ∷ []))
      (head_bytes (seven ∷ []))
      (uint256_word position)
    × Holds (append_sequence (seven ∷ (true, greeting) ∷ [])) position greeting
append_sequence-Holds_example = append_sequence-Holds (seven ∷ []) [] greeting fits

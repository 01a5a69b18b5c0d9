-- ===== src/Rlp/Lists.antt =====
-- A list of strings is read back from its encoding.
use polymarket_cpp_client.Prelude.{
  ℕ, zero, suc, ◌^◌, ◌-◌, ◌<◌, ◌≡◌, refl, true, false, Option, none, some, List, [], ◌∷◌, Bytes,
  length, arith, length-append, map, append-nil,
}
use polymarket_cpp_client.Rlp.{concat_items, rlp_encode_bytes, rlp_encode_list}
use polymarket_cpp_client.Rlp.Decode.{
  rlp_decode, rlp_decode-with_header, rlp_decode-rlp_encode_bytes, length-rlp_encode_bytes,
}

-- The payloads of the strings that follow one another; `none` at a list or where an item is cut.
unfoldable pub decode_strings : ℕ → Bytes → Option (List Bytes)
decode_strings zero s = none
decode_strings (suc fuel) [] = some []
decode_strings (suc fuel) (b ∷ s) = elim (rlp_decode (b ∷ s)) [
  | some (false, payload, rest) ↦ elim (decode_strings fuel rest) [
    | none ↦ none
    | some items ↦ some (payload ∷ items)
  ]
  | _ ↦ none
]

-- A list of strings and nothing behind it.
unfoldable pub decode_string_list : Bytes → Option (List Bytes)
decode_string_list s = elim (rlp_decode s) [
  | some (true, payload, []) ↦ decode_strings (suc (length payload)) payload
  | _ ↦ none
]

decode_strings-cons :
    (fuel : ℕ) (s payload rest : Bytes)
    → 0 < length s
    → rlp_decode s ≡ some (false, payload, rest)
    → decode_strings (suc fuel) s
      ≡ elim (decode_strings fuel rest) [ none ↦ none | some items ↦ some (payload ∷ items) ]
unfolding decode_strings
decode_strings-cons fuel [] payload rest h e = absurd (omega arith)
decode_strings-cons fuel (b ∷ s) payload rest h e = rw (e, decode_strings)

decode_strings-concat_items :
    (fuel : ℕ) (items : List Bytes)
    → length (concat_items (map rlp_encode_bytes items)) < fuel
    → fuel < 2 ^ 64
    → decode_strings fuel (concat_items (map rlp_encode_bytes items)) ≡ some items
unfolding decode_strings concat_items
decode_strings-concat_items zero items h small = absurd (omega arith)
decode_strings-concat_items (suc fuel) [] h small = refl
decode_strings-concat_items (suc fuel) (item ∷ items) h small =
    let tail : Bytes = concat_items (map rlp_encode_bytes items) in
    let whole = length-append (rlp_encode_bytes item) tail in
    let (longer, some_bytes) = length-rlp_encode_bytes item in
    let read = rlp_decode-rlp_encode_bytes item tail (omega (arith, whole)) in
    let ih = decode_strings-concat_items fuel items (omega (arith, whole)) (omega arith) in
    rw (decode_strings-cons fuel _ item tail (omega (arith, whole)) read, ih)

-- The encoding of a list of strings is read back as those strings, in order, where the whole payload
-- is below the size of memory.
pub decode_string_list-rlp_encode_list :
    (items : List Bytes)
    → length (concat_items (map rlp_encode_bytes items)) < 2 ^ 64 - 1
    → decode_string_list (rlp_encode_list (map rlp_encode_bytes items)) ≡ some items
unfolding decode_string_list rlp_encode_list
decode_string_list-rlp_encode_list items h =
    let payload : Bytes = concat_items (map rlp_encode_bytes items) in
    let read : rlp_decode (rlp_encode_list (map rlp_encode_bytes items))
        ≡ some (true, payload, []) =
      rw append-nil at (rlp_decode-with_header payload [] (omega arith)).1 in
    rw (read, decode_string_list)
      (decode_strings-concat_items (suc (length payload)) items (omega arith) (omega arith))

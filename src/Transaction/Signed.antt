-- ===== src/Transaction/Signed.antt =====
-- The raw form of a signed transaction is the list of its nine fields.
use polymarket_cpp_client.Prelude.{
  ℕ, ◌+◌, ◌-◌, ◌*◌, ◌/◌, ◌^◌, ◌≤◌, ◌<◌, ltb, ◌==◌, ◌≡◌, ◌⊎◌, inl, inr, sym, ap, ◌∙◌, subst, arith,
  false, not, ◌&&◌, ◌||◌, on_if, List, [], ◌∷◌, ◌++◌, map, some, Bytes, length, length-append,
  get_or, take, drop,
}
use polymarket_cpp_client.Prelude.Except.{ok, on_bind, on_guard, ok-injective}
use polymarket_cpp_client.Hex.{from_hex}
use polymarket_cpp_client.Uint.{uint256_word}
use polymarket_cpp_client.Rlp.{
  minimal_length_bytes, with_header, rlp_encode_bytes, rlp_encode_uint, skip_zero_bytes,
  concat_items, rlp_encode_list,
}
use polymarket_cpp_client.Rlp.Lists.{decode_string_list, decode_string_list-rlp_encode_list}
use polymarket_cpp_client.Transaction.{
  EvmLegacyTransaction, unsigned_fields, evm_legacy_transaction_signing_hash, check_signature,
  replay_protected_v, sign_raw,
}
use polymarket_cpp_client.Transaction.Fields.{Unsigned, unsigned_fields-Unsigned}

-- The signature of a transaction, the numbers that its texts stand for, and what the bytes decode to.
pub record IsSigned (keccak256 sign_hash : Bytes → Bytes) (tx : EvmLegacyTransaction) (raw : Bytes)
    : Type 0 where
  pub fields : List Bytes
  pub unsigned : Unsigned tx fields
  pub hash : Bytes
  pub hashed : evm_legacy_transaction_signing_hash keccak256 sign_hash tx ≡ ok hash
  pub signature : Bytes
  pub signature_read : from_hex (sign_hash hash) ≡ ok signature
  pub signature_size : length signature ≡ 65
  pub recovery : (get_or signature 64 0 ≡ 27) ⊎ (get_or signature 64 0 ≡ 28)
  pub decoded :
      decode_string_list raw
      ≡ some (
          skip_zero_bytes unsigned.nonce
          ∷ skip_zero_bytes unsigned.gas_price
          ∷ skip_zero_bytes unsigned.gas_limit
          ∷ unsigned.to
          ∷ skip_zero_bytes unsigned.value
          ∷ unsigned.payload
          ∷ skip_zero_bytes (uint256_word (tx.chain_id * 2 + 35 + (get_or signature 64 0 - 27)))
          ∷ skip_zero_bytes (take 32 signature)
          ∷ skip_zero_bytes (take 32 (drop 32 signature))
          ∷ [])

length-with_header : (a b : ℕ) (payload : Bytes) → length payload ≤ length (with_header a b payload)
unfolding with_header
length-with_header a b payload =
    on_if (λ (bytes : Bytes). length payload ≤ length bytes) (ltb (length payload) 56)
      (λ short. omega arith)
      (λ long. omega (arith, length-append (minimal_length_bytes (length payload)) payload))

decode-rlp_encode_list :
    (items : List Bytes)
    → length (rlp_encode_list (map rlp_encode_bytes items)) < 2 ^ 64 - 1
    → decode_string_list (rlp_encode_list (map rlp_encode_bytes items)) ≡ some items
unfolding rlp_encode_list
decode-rlp_encode_list items h =
    decode_string_list-rlp_encode_list items
      (omega (arith, length-with_header 0xc0 0xf7 (concat_items (map rlp_encode_bytes items))))

last_byte : (n : ℕ) → (not (n == 27) && not (n == 28)) ≡ false → (n ≡ 27) ⊎ (n ≡ 28)
last_byte n h = ground arith

check_signature-ok :
    (signature checked : Bytes)
    → check_signature signature ≡ ok checked
    → (signature ≡ checked)
      × (length signature ≡ 65)
      × ((get_or signature 64 0 ≡ 27) ⊎ (get_or signature 64 0 ≡ 28))
unfolding check_signature
check_signature-ok signature checked h =
    on_guard
      (not (length signature == 65)
        || (not (get_or signature 64 0 == 27) && not (get_or signature 64 0 == 28)))
      _ _ h
      (λ fine same. (
        ok-injective same,
        ground (arith, fine),
        last_byte (get_or signature 64 0) (ground (arith, fine)),
      ))

-- The recovery id does not make v leave the uint64.
replay_protected_v-exact :
    (chain_id : ℕ) (signature : Bytes)
    → chain_id ≤ (2 ^ 64 - 1 - 36) / 2
    → (get_or signature 64 0 ≡ 27) ⊎ (get_or signature 64 0 ≡ 28)
    → replay_protected_v chain_id signature ≡ chain_id * 2 + 35 + (get_or signature 64 0 - 27)
unfolding replay_protected_v
replay_protected_v-exact chain_id signature bound (inl low) = omega arith
replay_protected_v-exact chain_id signature bound (inr high) = omega arith

-- The raw form of a transaction that is signed decodes to its nine fields: the numbers and bytes that the
-- texts of the transaction stand for, with a destination of 20 bytes, then v, which carries the chain id
-- and the recovery id of the signature without a wrap-around, and r and s of what the signer returned for
-- the signing hash of the transaction. The raw form is shorter than 2^64 - 1 bytes, as a std::vector is.
pub sign_raw-IsSigned :
    (keccak256 sign_hash : Bytes → Bytes) (tx : EvmLegacyTransaction) (raw : Bytes)
    → sign_raw keccak256 sign_hash tx ≡ ok raw
    → length raw < 2 ^ 64 - 1
    → IsSigned keccak256 sign_hash tx raw
unfolding sign_raw rlp_encode_uint
sign_raw-IsSigned keccak256 sign_hash tx raw h bound =
    on_bind (evm_legacy_transaction_signing_hash keccak256 sign_hash tx) _ h (λ hash hashed h1.
      on_bind (from_hex (sign_hash hash)) _ h1 (λ signature read h2.
        on_bind (check_signature signature) _ h2 (λ checked passed h3.
          on_bind (unsigned_fields tx) _ h3 (λ fields made h4.
            let u = unsigned_fields-Unsigned tx fields made in
            let (same, size, recovery) = check_signature-ok signature checked passed in
            let v = replay_protected_v tx.chain_id signature in
            let strings = (λ (w : ℕ).
              skip_zero_bytes u.nonce
              ∷ skip_zero_bytes u.gas_price
              ∷ skip_zero_bytes u.gas_limit
              ∷ u.to
              ∷ skip_zero_bytes u.value
              ∷ u.payload
              ∷ skip_zero_bytes (uint256_word w)
              ∷ skip_zero_bytes (take 32 signature)
              ∷ skip_zero_bytes (take 32 (drop 32 signature))
              ∷ []) in
            let signed = (λ (s : Bytes).
              rlp_encode_uint (uint256_word (replay_protected_v tx.chain_id s))
              ∷ rlp_encode_uint (take 32 s)
              ∷ rlp_encode_uint (take 32 (drop 32 s))
              ∷ []) in
            let is_raw : rlp_encode_list (map rlp_encode_bytes (strings v)) ≡ raw =
              ap (λ f. rlp_encode_list (f ++ signed signature)) (sym u.encoded)
              ∙ ap (λ s. rlp_encode_list (fields ++ signed s)) same
              ∙ ok-injective h4 in
            record {
              fields = fields;
              unsigned = u;
              hash = hash;
              hashed = hashed;
              signature = signature;
              signature_read = read;
              signature_size = size;
              recovery = recovery;
              decoded =
                  ap decode_string_list (sym is_raw)
                  ∙ decode-rlp_encode_list (strings v)
                      (subst (λ b. length b < 2 ^ 64 - 1) (sym is_raw) bound)
                  ∙ ap (λ w. some (strings w))
                      (replay_protected_v-exact tx.chain_id signature u.chain_bound recovery);
            }))))

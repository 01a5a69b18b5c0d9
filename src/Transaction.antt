-- ===== src/Transaction.antt =====
-- Legacy transactions with replay protection: src/evm_transaction.cpp. The hash function and the signer,
-- which call libraries, are parameters.
pub mod Fields
pub mod Signed
mod Examples
use polymarket_cpp_client.Prelude.{
  ℕ, ◌+◌, ◌-◌, ◌*◌, ◌/◌, ◌%◌, ◌^◌, ltb, ◌==◌, Bool, not, ◌&&◌, ◌||◌, if◌then◌else◌, List, [], ◌∷◌,
  ◌++◌, map, Bytes, String, length, get_or, take, drop,
}
use polymarket_cpp_client.Prelude.Except.{
  Except, ok, throw, invalid_argument, out_of_range, logic_error, runtime_error, ◌>>=◌, ◌>>◌,
  throw_if,
}
use polymarket_cpp_client.Hex.{to_hex, from_hex}
use polymarket_cpp_client.Uint.{parse_uint256_word, uint256_word}
use polymarket_cpp_client.Rlp.{rlp_encode_bytes, rlp_encode_uint, rlp_encode_list}

pub record EvmLegacyTransaction : Type 0 where
  pub nonce : Bytes
  pub gas_price : Bytes
  pub gas_limit : Bytes
  pub to : Bytes
  pub value : Bytes
  pub payload : Bytes
  pub chain_id : ℕ

pub record EvmSignedTransaction : Type 0 where
  pub raw_transaction : Bytes
  pub transaction_hash : Bytes

-- `+` of two std::string.
abbrev pub join : String → String → String
join String.[] t = t
join (String.◌∷◌ c s) t = String.◌∷◌ c (join s t)

-- The catch clauses replace the message of an std::invalid_argument.
unfoldable pub relabel : (String → String) → Except Bytes → Except Bytes
relabel message (ok bytes) = ok bytes
relabel message (throw (invalid_argument what)) = throw (invalid_argument (message what))
relabel message (throw (out_of_range what)) = throw (out_of_range what)
relabel message (throw (logic_error what)) = throw (logic_error what)
relabel message (throw (runtime_error what)) = throw (runtime_error what)

unfoldable pub parse_hex_field : Bytes → String → Except Bytes
parse_hex_field hex label =
    relabel (λ what. join "transaction " (join label " is not valid hex")) (from_hex hex)

-- The word of a number; `encode_uint_field` encodes it.
unfoldable pub parse_uint_field : Bytes → String → Except Bytes
parse_uint_field text label =
    relabel (λ what. join "transaction " (join label (join ": " what))) (parse_uint256_word text)

unfoldable pub encode_uint_field : Bytes → String → Except Bytes
encode_uint_field text label = do word ← parse_uint_field text label; ok (rlp_encode_uint word)

unfoldable pub unsigned_fields : EvmLegacyTransaction → Except (List Bytes)
unsigned_fields tx = do
  throw_if ((tx.chain_id == 0) || ltb ((2 ^ 64 - 1 - 36) / 2) tx.chain_id)
      (invalid_argument "transaction chain_id is out of range")
  to ← parse_hex_field tx.to "to"
  throw_if (not (length to == 20)) (invalid_argument "transaction to must be a 20-byte address")
  nonce ← encode_uint_field tx.nonce "nonce"
  gas_price ← encode_uint_field tx.gas_price "gas_price"
  gas_limit ← encode_uint_field tx.gas_limit "gas_limit"
  value ← encode_uint_field tx.value "value"
  payload ← parse_hex_field tx.payload "data"
  ok (nonce ∷ gas_price ∷ gas_limit ∷ rlp_encode_bytes to ∷ value ∷ rlp_encode_bytes payload ∷ [])

-- r, s and 27 plus the recovery id.
unfoldable pub check_signature : Bytes → Except Bytes
check_signature signature = do
  throw_if
      (not (length signature == 65)
        || (not (get_or signature 64 0 == 27) && not (get_or signature 64 0 == 28)))
      (runtime_error "signer returned an unexpected signature layout")
  ok signature

unfoldable pub replay_protected_v : ℕ → Bytes → ℕ
replay_protected_v chain_id signature = (chain_id * 2 + 35 + (get_or signature 64 0 - 27)) % 2 ^ 64

module _ (keccak256 : Bytes → Bytes) (sign_hash : Bytes → Bytes) where
  unfoldable pub evm_legacy_transaction_signing_hash : EvmLegacyTransaction → Except Bytes
  evm_legacy_transaction_signing_hash tx = do
    fields ← unsigned_fields tx
    ok (
        keccak256 (
          rlp_encode_list (
            fields
            ++ rlp_encode_uint (uint256_word tx.chain_id)
              ∷ rlp_encode_uint []
              ∷ rlp_encode_uint []
              ∷ [])))

  -- The encoded transaction, `raw`.
  unfoldable pub sign_raw : EvmLegacyTransaction → Except Bytes
  sign_raw tx = do
    hash ← evm_legacy_transaction_signing_hash tx
    text ← from_hex (sign_hash hash)
    signature ← check_signature text
    fields ← unsigned_fields tx
    ok (
        rlp_encode_list (
          fields
          ++ rlp_encode_uint (uint256_word (replay_protected_v tx.chain_id signature))
            ∷ rlp_encode_uint (take 32 signature)
            ∷ rlp_encode_uint (take 32 (drop 32 signature))
            ∷ []))

  unfoldable pub evm_sign_legacy_transaction : EvmLegacyTransaction → Except EvmSignedTransaction
  evm_sign_legacy_transaction tx = do
    raw ← sign_raw tx
    ok (record { raw_transaction = to_hex raw; transaction_hash = to_hex (keccak256 raw) })

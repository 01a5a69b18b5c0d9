-- ===== src/Transaction/Fields.antt =====
-- A signed transaction is the list of its nine fields.
use polymarket_cpp_client.Prelude.{
  ℕ, ◌-◌, ◌/◌, ◌^◌, ◌≤◌, ltb, ◌==◌, ◌≡◌, refl, sym, ◌∙◌, arith, false, not, ◌||◌, List, [], ◌∷◌,
  map, Bytes, String, length,
}
use polymarket_cpp_client.Prelude.Except.{
  Except, ok, throw, invalid_argument, out_of_range, logic_error, runtime_error, on_bind, on_guard,
  ok-injective, throw-ne-ok,
}
use polymarket_cpp_client.Hex.{from_hex}
use polymarket_cpp_client.Uint.{parse_uint256_word}
use polymarket_cpp_client.Rlp.{rlp_encode_bytes, rlp_encode_uint, skip_zero_bytes}
use polymarket_cpp_client.Transaction.{
  EvmLegacyTransaction, relabel, parse_hex_field, parse_uint_field, encode_uint_field,
  unsigned_fields,
}

relabel-ok :
    (message : String → String) (read : Except Bytes) (bytes : Bytes)
    → relabel message read ≡ ok bytes
    → read ≡ ok bytes
unfolding relabel
relabel-ok message (ok b) bytes h = h
relabel-ok message (throw (invalid_argument e)) bytes h = absurd (throw-ne-ok h)
relabel-ok message (throw (out_of_range e)) bytes h = absurd (throw-ne-ok h)
relabel-ok message (throw (logic_error e)) bytes h = absurd (throw-ne-ok h)
relabel-ok message (throw (runtime_error e)) bytes h = absurd (throw-ne-ok h)

-- What the six unsigned fields encode.
pub record Unsigned (tx : EvmLegacyTransaction) (fields : List Bytes) : Type 0 where
  pub nonce : Bytes
  pub gas_price : Bytes
  pub gas_limit : Bytes
  pub to : Bytes
  pub value : Bytes
  pub payload : Bytes
  pub nonce_read : parse_uint256_word tx.nonce ≡ ok nonce
  pub gas_price_read : parse_uint256_word tx.gas_price ≡ ok gas_price
  pub gas_limit_read : parse_uint256_word tx.gas_limit ≡ ok gas_limit
  pub to_read : from_hex tx.to ≡ ok to
  pub to_size : length to ≡ 20
  pub value_read : parse_uint256_word tx.value ≡ ok value
  pub payload_read : from_hex tx.payload ≡ ok payload
  pub chain_bound : tx.chain_id ≤ (2 ^ 64 - 1 - 36) / 2
  pub encoded :
      fields
      ≡ map rlp_encode_bytes (
          skip_zero_bytes nonce
          ∷ skip_zero_bytes gas_price
          ∷ skip_zero_bytes gas_limit
          ∷ to
          ∷ skip_zero_bytes value
          ∷ payload
          ∷ [])

encode_uint_field-ok {ℓ} :
    {C : Type ℓ} (text : Bytes) (label : String) (encoded : Bytes)
    → encode_uint_field text label ≡ ok encoded
    → ((word : Bytes)
        → parse_uint256_word text ≡ ok word
        → rlp_encode_bytes (skip_zero_bytes word) ≡ encoded
        → C)
    → C
unfolding encode_uint_field parse_uint_field rlp_encode_uint
encode_uint_field-ok text label encoded h k =
    on_bind _ _ h (λ word read done. k word (relabel-ok _ _ word read) (ok-injective done))

chain_bound :
    (chain_id : ℕ)
    → ((chain_id == 0) || ltb ((2 ^ 64 - 1 - 36) / 2) chain_id) ≡ false
    → chain_id ≤ (2 ^ 64 - 1 - 36) / 2
chain_bound chain_id h = ground arith

pub unsigned_fields-Unsigned :
    (tx : EvmLegacyTransaction) (fields : List Bytes)
    → unsigned_fields tx ≡ ok fields
    → Unsigned tx fields
unfolding unsigned_fields parse_hex_field
unsigned_fields-Unsigned tx fields h =
    on_guard ((tx.chain_id == 0) || ltb ((2 ^ 64 - 1 - 36) / 2) tx.chain_id) _ _ h (λ chain h1.
      on_bind (parse_hex_field tx.to "to") _ h1 (λ to to_read h2.
        on_guard (not (length to == 20)) _ _ h2 (λ size h3.
          on_bind (encode_uint_field tx.nonce "nonce") _ h3 (λ nonce' nonce_ok h4.
            on_bind (encode_uint_field tx.gas_price "gas_price") _ h4 (λ gas_price' gas_price_ok h5.
              on_bind (encode_uint_field tx.gas_limit "gas_limit") _ h5
                (λ gas_limit' gas_limit_ok h6.
                  on_bind (encode_uint_field tx.value "value") _ h6 (λ value' value_ok h7.
                    on_bind (parse_hex_field tx.payload "data") _ h7 (λ payload payload_read h8.
                      encode_uint_field-ok tx.nonce "nonce" nonce' nonce_ok
                        (λ nonce nonce_read nonce_is.
                          encode_uint_field-ok tx.gas_price "gas_price" gas_price' gas_price_ok
                            (λ gas_price gas_price_read gas_price_is.
                              encode_uint_field-ok tx.gas_limit "gas_limit" gas_limit' gas_limit_ok
                                (λ gas_limit gas_limit_read gas_limit_is.
                                  encode_uint_field-ok tx.value "value" value' value_ok
                                    (λ value value_read value_is. record {
                                      nonce = nonce;
                                      gas_price = gas_price;
                                      gas_limit = gas_limit;
                                      to = to;
                                      value = value;
                                      payload = payload;
                                      nonce_read = nonce_read;
                                      gas_price_read = gas_price_read;
                                      gas_limit_read = gas_limit_read;
                                      to_read = relabel-ok _ _ to to_read;
                                      to_size = ground (arith, size);
                                      value_read = value_read;
                                      payload_read = relabel-ok _ _ payload payload_read;
                                      chain_bound = chain_bound tx.chain_id chain;
                                      encoded =
                                          sym (ok-injective h8)
                                          ∙ rw
                                              (
                                                sym nonce_is,
                                                sym gas_price_is,
                                                sym gas_limit_is,
                                                sym value_is,
                                              )
                                              refl;
                                    }))))))))))))

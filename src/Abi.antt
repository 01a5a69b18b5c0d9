-- ===== src/Abi.antt =====
-- ABI encoding of call arguments: src/evm_abi.cpp.
pub mod Layout
mod Examples
use polymarket_cpp_client.Prelude.{
  ℕ, suc, ◌+◌, ◌-◌, ◌/◌, ◌%◌, ◌^◌, Bool, true, false, not, ◌||◌, if◌then◌else◌, ltb, ◌==◌, List, [],
  ◌∷◌, ◌++◌, Bytes, length, replicate, take, drop, String,
}
use polymarket_cpp_client.Prelude.Except.{
  Except, ok, throw, invalid_argument, ◌>>=◌, ◌>>◌, throw_if,
}
use polymarket_cpp_client.Hex.{to_hex}
use polymarket_cpp_client.Uint.{word_size, from_hex_or, parse_uint256_word, uint256_word}

-- EvmAbiValue: its kind, with the bytes or the children that the kind has.
mutual
  pub data Value : Type 0 where
    word : Bytes → Value
    bytes : Bytes → Value
    array : Values → Value
    tuple : Values → Value

  pub data Values : Type 0 where
    nil : Values
    cons : Value → Values → Values

unfoldable pub word_from_bytes : Bytes → Bool → Bytes
word_from_bytes content left_pad =
    let padding = replicate (word_size - length content) 0 in
    if left_pad then padding ++ content else content ++ padding

unfoldable pub check_bits : ℕ → Except (Unit {0})
check_bits bits =
    throw_if (bits == 0 || ltb 256 bits || not (bits % 8 == 0))
      (invalid_argument "unsigned integer width must be 8..256 in steps of 8")

-- The loop over the high bytes of a word; the message is without the number of bits.
unfoldable pub all_zero : Bytes → Bool
all_zero [] = true
all_zero (b ∷ bs) = if b == 0 then all_zero bs else false

unfoldable pub check_fits : Bytes → ℕ → Except (Unit {0})
check_fits content bits =
    throw_if (not (all_zero (take (word_size - bits / 8) content)))
      (invalid_argument "unsigned integer exceeds uint")

unfoldable pub append_padded : Bytes → Bytes
append_padded content =
    let remainder = length content % word_size in
    if remainder == 0 then content else content ++ replicate (word_size - remainder) 0

unfoldable pub address : Bytes → Except Value
address hex = do
  content ← from_hex_or hex "address is not valid hex"
  throw_if (not (length content == 20)) (invalid_argument "address must be 20 bytes")
  ok (word (word_from_bytes content true))

unfoldable pub unsigned_integer_text : Bytes → ℕ → Except Value
unsigned_integer_text text bits = do
  check_bits bits
  content ← parse_uint256_word text
  check_fits content bits
  ok (word content)

unfoldable pub unsigned_integer : ℕ → ℕ → Except Value
unsigned_integer number bits = do
  check_bits bits
  check_fits (uint256_word number) bits
  ok (word (uint256_word number))

unfoldable pub boolean : Bool → Except Value
boolean flag = unsigned_integer (if flag then 1 else 0) 8

-- The message is without the number of bytes.
unfoldable pub fixed_bytes : Bytes → ℕ → Except Value
fixed_bytes hex size = do
  throw_if (size == 0 || ltb word_size size) (invalid_argument "fixed bytes size must be 1..32")
  content ← from_hex_or hex "fixed bytes is not valid hex"
  throw_if (not (length content == size)) (invalid_argument "bytes value has another size")
  ok (word (word_from_bytes content false))

unfoldable pub bytes_hex : Bytes → Except Value
bytes_hex hex = do content ← from_hex_or hex "bytes is not valid hex"; ok (bytes content)

unfoldable mutual
  pub is_dynamic : Value → Bool
  is_dynamic (word content) = false
  is_dynamic (bytes content) = true
  is_dynamic (array elements) = true
  is_dynamic (tuple members) = any_dynamic members

  pub any_dynamic : Values → Bool
  any_dynamic nil = false
  any_dynamic (cons member members) = is_dynamic member || any_dynamic members

-- One value of a sequence: whether it is dynamic, and its encoding.
abbrev pub Part : Type 0
Part = Bool × Bytes

unfoldable pub head_size : List Part → ℕ
head_size [] = 0
head_size ((true, encoded) ∷ parts) = (word_size + head_size parts) % 2 ^ 64
head_size ((false, encoded) ∷ parts) = (length encoded + head_size parts) % 2 ^ 64

-- The loop that writes the heads: an offset for a dynamic value, the encoding of another.
unfoldable pub heads : ℕ → List Part → Bytes
heads tail_offset [] = []
heads tail_offset ((true, encoded) ∷ parts) =
    uint256_word tail_offset ++ heads ((tail_offset + length encoded) % 2 ^ 64) parts
heads tail_offset ((false, encoded) ∷ parts) = encoded ++ heads tail_offset parts

-- The loop that writes the encodings of the dynamic values.
unfoldable pub tails : List Part → Bytes
tails [] = []
tails ((true, encoded) ∷ parts) = encoded ++ tails parts
tails ((false, encoded) ∷ parts) = tails parts

unfoldable pub append_sequence : List Part → Bytes
append_sequence parts = heads (head_size parts) parts ++ tails parts

unfoldable pub count : Values → ℕ
count nil = 0
count (cons value values) = suc (count values)

unfoldable mutual
  unfolding is_dynamic any_dynamic

  pub append_encoding : Value → Bytes
  append_encoding (word content) = content
  append_encoding (bytes content) = uint256_word (length content) ++ append_padded content
  append_encoding (array elements) =
      uint256_word (count elements) ++ append_sequence (encoded_parts elements)
  append_encoding (tuple members) = append_sequence (encoded_parts members)

  pub encoded_parts : Values → List Part
  encoded_parts nil = []
  encoded_parts (cons value values) =
      (is_dynamic value, append_encoding value) ∷ encoded_parts values

unfoldable pub evm_abi_encode : Values → Bytes
evm_abi_encode values = append_sequence (encoded_parts values)

-- Over the hash function, which a library provides.
module _ (keccak256 : Bytes → Bytes) where
  unfoldable pub evm_function_selector : Bytes → Bytes
  evm_function_selector signature = to_hex (take 4 (keccak256 signature))

  unfoldable pub evm_abi_encode_call : Bytes → Values → Bytes
  evm_abi_encode_call signature arguments =
      evm_function_selector signature ++ drop 2 (to_hex (evm_abi_encode arguments))

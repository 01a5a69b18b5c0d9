-- ===== src/Quantity/RoundTrip.antt =====
-- What `evm_uint64_to_quantity` prints, `evm_quantity_to_uint64` reads back.
use native.Mathlib.Nat.{pow-suc}
use polymarket_cpp_client.Prelude.{
  ℕ, zero, suc, ◌+◌, ◌*◌, ◌/◌, ◌%◌, ◌^◌, ◌<◌, ◌≤◌, ◌≡◌, ◌⊎◌, refl, sym, ap, ◌∙◌, arith, true, false,
  Bool-cases, inl, inr, ltb, leb, [], ◌∷◌, ◌++◌, append_assoc, append-nil, some, Bytes, is_empty,
}
use polymarket_cpp_client.Prelude.Except.{ok}
use polymarket_cpp_client.Hex.{hex_digit}
use polymarket_cpp_client.Hex.RoundTrip.{nibble-hex_digit}
use polymarket_cpp_client.Quantity.{
  digit, scan, starts_with_digit, read_digits, evm_quantity_to_uint64, print_hex,
  evm_uint64_to_quantity,
}

digit-hex_digit : (d : ℕ) → d < 16 → digit 16 (hex_digit d) ≡ some d
unfolding digit
digit-hex_digit d h = ground (arith, nibble-hex_digit d h)

scan-step :
    (base value c d : ℕ) (rest : Bytes)
    → digit base c ≡ some d
    → scan base value (c ∷ rest) ≡ scan base (value * base + d) rest
unfolding scan
scan-step base value c d rest h = rw (scan, h) refl

scan-hex_digit :
    (value d : ℕ) (rest : Bytes)
    → d < 16
    → scan 16 value (hex_digit d ∷ rest) ≡ scan 16 (value * 16 + d) rest
unfolding scan
scan-hex_digit value d rest h = scan-step 16 value (hex_digit d) d rest (digit-hex_digit d h)

-- One round of `print_hex`.
print_hex-large :
    (rounds value : ℕ)
    → 16 ≤ value
    → print_hex (suc rounds) value ≡ print_hex rounds (value / 16) ++ hex_digit (value % 16) ∷ []
unfolding print_hex
print_hex-large rounds value h = let large : ltb value 16 ≡ false = ground arith in rw large refl

print_hex-small :
    (rounds value : ℕ) → value < 16 → print_hex (suc rounds) value ≡ hex_digit value ∷ []
unfolding print_hex
print_hex-small rounds value h =
    let small : ltb value 16 ≡ true = ground arith in
    let same : value % 16 ≡ value = omega arith in rw (small, same) refl

sixteen : 16 ^ suc 0 ≡ 16
sixteen = refl

small_or_large : (value : ℕ) → (value < 16) ⊎ (16 ≤ value)
small_or_large value = elim (Bool-cases (ltb value 16)) [
  | inl t ↦ inl (ground arith)
  | inr f ↦ inr (ground arith)
]

scan-print_small :
    (rounds value : ℕ) (rest : Bytes)
    → value < 16
    → scan 16 0 (print_hex (suc rounds) value ++ rest) ≡ scan 16 value rest
scan-print_small rounds value rest small =
    rw (print_hex-small rounds value small)
      (scan-hex_digit 0 value rest small ∙ ap (λ v. scan 16 v rest) (omega arith))

scan-print_hex :
    (rounds value : ℕ) (rest : Bytes)
    → value < 16 ^ suc rounds
    → scan 16 0 (print_hex (suc rounds) value ++ rest) ≡ scan 16 value rest
scan-print_hex zero value rest h =
    let small : value < 16 = omega (arith, h, sixteen) in scan-print_small zero value rest small
scan-print_hex (suc r) value rest h = elim (small_or_large value) [
  | inl small ↦ scan-print_small (suc r) value rest small
  | inr large ↦
      let fewer : value / 16 < 16 ^ suc r = omega (arith, h, pow-suc 16 (suc r), large) in
      let back : value / 16 * 16 + value % 16 ≡ value = omega arith in
      rw
        (
          print_hex-large (suc r) value large,
          append_assoc (print_hex (suc r) (value / 16)) (hex_digit (value % 16) ∷ []) rest,
          scan-print_hex r (value / 16) (hex_digit (value % 16) ∷ rest) fewer,
          scan-hex_digit (value / 16) (value % 16) rest (omega arith),
          back,
        )
        refl
]

scan_end : (value : ℕ) → scan 16 value [] ≡ (value, [])
unfolding scan
scan_end value = refl

starts_with_digit-append :
    (xs ys : Bytes) → starts_with_digit 16 xs ≡ true → starts_with_digit 16 (xs ++ ys) ≡ true
unfolding starts_with_digit
starts_with_digit-append [] ys h = cc
starts_with_digit-append (x ∷ xs) ys h = h

starts_with_digit-print_small :
    (rounds value : ℕ) → value < 16 → starts_with_digit 16 (print_hex (suc rounds) value) ≡ true
unfolding starts_with_digit
starts_with_digit-print_small rounds value small =
    rw (print_hex-small rounds value small, starts_with_digit, digit-hex_digit value small) refl

starts_with_digit-print_hex :
    (rounds value : ℕ)
    → value < 16 ^ suc rounds
    → starts_with_digit 16 (print_hex (suc rounds) value) ≡ true
starts_with_digit-print_hex zero value h =
    starts_with_digit-print_small zero value (omega (arith, h, sixteen))
starts_with_digit-print_hex (suc r) value h = elim (small_or_large value) [
  | inl small ↦ starts_with_digit-print_small (suc r) value small
  | inr large ↦
      let fewer : value / 16 < 16 ^ suc r = omega (arith, h, pow-suc 16 (suc r), large) in
      rw (print_hex-large (suc r) value large) (
        starts_with_digit-append (print_hex (suc r) (value / 16)) (hex_digit (value % 16) ∷ [])
          (starts_with_digit-print_hex r (value / 16) fewer))
]

starts_with_digit-not_empty : (xs : Bytes) → starts_with_digit 16 xs ≡ true → is_empty xs ≡ false
unfolding starts_with_digit is_empty
starts_with_digit-not_empty [] h = cc
starts_with_digit-not_empty (x ∷ xs) h = refl

-- Every uint64 that `evm_uint64_to_quantity` prints is read back unchanged by
-- `evm_quantity_to_uint64`.
pub evm_quantity_to_uint64-evm_uint64_to_quantity :
    (value : ℕ) → value < 2 ^ 64 → evm_quantity_to_uint64 (evm_uint64_to_quantity value) ≡ ok value
unfolding evm_quantity_to_uint64 evm_uint64_to_quantity read_digits is_empty
evm_quantity_to_uint64-evm_uint64_to_quantity value h =
    let width : 16 ^ 16 ≡ 2 ^ 64 = refl in
    let fits : value < 16 ^ 16 = omega (arith, h, width) in
    let starts : starts_with_digit 16 (print_hex 16 value) ≡ true =
      starts_with_digit-print_hex 15 value fits in
    let filled = starts_with_digit-not_empty (print_hex 16 value) starts in
    let scanned : scan 16 0 (print_hex 16 value) ≡ (value, []) =
      ap (scan 16 0) (sym (append-nil (print_hex 16 value)))
      ∙ scan-print_hex 15 value [] fits
      ∙ scan_end value in
    let in_range : leb (2 ^ 64) value ≡ false = ground arith in
    rw (filled, starts, scanned, in_range) refl

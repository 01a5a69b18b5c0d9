-- ===== src/EvmWords/DecimalText.antt =====
-- The decimal text of a hexadecimal number stands for the same number.
use native.Mathlib.Nat.{pow-suc}
use polymarket_cpp_client.Prelude.{
  ℕ, zero, suc, ◌+◌, ◌-◌, ◌*◌, ◌/◌, ◌%◌, ◌^◌, ◌≤◌, ◌≡◌, inl, inr, refl, sym, ap, subst, ◌∙◌, arith,
  ltb, leb, ◌==◌, ◌||◌, if◌then◌else◌, false, Bool-cases, [], ◌∷◌, length, All, Bytes,
}
use polymarket_cpp_client.Prelude.Except.{ok, on_bind, ok-injective}
use polymarket_cpp_client.Hex.{strip_0x}
use polymarket_cpp_client.Uint.{skip_zeros}
use polymarket_cpp_client.Uint.Decimal.{decimal_from, IsDigit}
use polymarket_cpp_client.EvmWords.{
  canonical_abi_word_hex, check_hex, evm_uint_word_to_decimal, hex_value, mul_add_digits,
  insert_carry, trimmed, decimal_mul_add, hex_to_decimal_loop, positive_hex_to_decimal,
}

-- The value of a hexadecimal digit, and of digits that follow the number `n`.
unfoldable pub digit_value : ℕ → ℕ
digit_value c =
    if leb c b'9' then c - b'0' else if leb c b'F' then 10 + (c - b'A') else 10 + (c - b'a')

unfoldable pub hex_number : ℕ → Bytes → ℕ
hex_number n [] = n
hex_number n (c ∷ text) = hex_number (n * 16 + digit_value c) text

-- A decimal text as it is usually written: digits, and no zero before another digit.
abbrev pub NoLeadingZero : Bytes → Type 0
NoLeadingZero [] = ⊥
NoLeadingZero (c ∷ []) = Unit
NoLeadingZero (c ∷ d ∷ text) = (c == b'0') ≡ false

decimal_from-shift :
    (n : ℕ) (text : Bytes) → decimal_from n text ≡ n * 10 ^ length text + decimal_from 0 text
unfolding decimal_from
decimal_from-shift n [] = omega arith
decimal_from-shift n (c ∷ text) =
    let d : ℕ = c - b'0' in
    let p : ℕ = 10 ^ length text in
    let power : 10 ^ suc (length text) ≡ p * 10 = pow-suc 10 (length text) in
    let now = decimal_from-shift (n * 10 + d) text in
    let alone = decimal_from-shift (0 * 10 + d) text in
    let more : n * 10 ^ suc (length text) ≡ n * (p * 10) = ap (λ (t : ℕ). n * t) power in
    grind (arith, now, alone, more)

decimal_from-cons :
    (c : ℕ) (text : Bytes)
    → decimal_from 0 (c ∷ text) ≡ (c - b'0') * 10 ^ length text + decimal_from 0 text
unfolding decimal_from
decimal_from-cons c text =
    decimal_from-shift (0 * 10 + (c - b'0')) text
    ∙ ap (λ (t : ℕ). t * 10 ^ length text + decimal_from 0 text) (omega arith)

-- The text times `mul`, plus the carry.
record IsMulAdd (mul : ℕ) (text : Bytes) (carry : ℕ) (text' : Bytes) (carry' : ℕ) : Type 0 where
  digits : All IsDigit text'
  width : length text' ≡ length text
  number : decimal_from 0 text * mul + carry ≡ carry' * 10 ^ length text + decimal_from 0 text'

-- One digit of the product: the digit and the carry of `a * mul + low`, at the place of `p`.
place :
    (a mul low p d d' carry : ℕ)
    → d * mul + carry ≡ low * p + d'
    → (a * p + d) * mul + carry
      ≡ (a * mul + low) / 10 * (p * 10) + ((b'0' + (a * mul + low) % 10 - b'0') * p + d')
place a mul low p d d' carry h =
    let n : ℕ = a * mul + low in
    let split : n * p ≡ (n / 10 * 10 + n % 10) * p = ap (λ (t : ℕ). t * p) (omega arith) in
    let back : b'0' + n % 10 - b'0' ≡ n % 10 = omega arith in rw back (grind (arith, h, split))

mul_add_digits-IsMulAdd :
    (mul : ℕ) (text : Bytes) (carry : ℕ)
    → IsMulAdd mul text carry (mul_add_digits mul text carry).0 (mul_add_digits mul text carry).1
unfolding mul_add_digits
mul_add_digits-IsMulAdd mul [] carry = record {
  digits = tt;
  width = refl;
  number = unfold decimal_from in omega arith;
}
mul_add_digits-IsMulAdd mul (c ∷ text) carry =
    let (text', low) = mul_add_digits mul text carry in
    let v = mul_add_digits-IsMulAdd mul text carry in
    let power = pow-suc 10 (length text) in
    record {
      digits = ((omega arith, omega arith), v.digits);
      width = ap suc v.width;
      number =
          rw
            (
              decimal_from-cons c text,
              decimal_from-cons (b'0' + ((c - b'0') * mul + low) % 10) text',
              v.width,
              power,
            )
            (place (c - b'0') mul low (10 ^ length text) (decimal_from 0 text)
              (decimal_from 0 text') carry v.number);
    }

record IsNumber (n : ℕ) (text : Bytes) : Type 0 where
  digits : All IsDigit text
  number : decimal_from 0 text ≡ n

insert_place :
    (carry : ℕ) (text : Bytes)
    → carry / 10 * 10 ^ suc (length text) + decimal_from 0 ((b'0' + carry % 10) ∷ text)
      ≡ carry * 10 ^ length text + decimal_from 0 text
insert_place carry text =
    let p : ℕ = 10 ^ length text in
    let split : carry * p ≡ (carry / 10 * 10 + carry % 10) * p =
      ap (λ (t : ℕ). t * p) (omega arith) in
    let back : b'0' + carry % 10 - b'0' ≡ carry % 10 = omega arith in
    rw (decimal_from-cons, pow-suc 10 (length text), back) (grind (arith, split))

insert_carry-IsNumber :
    (rounds carry : ℕ) (text : Bytes)
    → carry ≤ rounds
    → All IsDigit text
    → IsNumber (carry * 10 ^ length text + decimal_from 0 text) (insert_carry rounds carry text)
unfolding insert_carry
insert_carry-IsNumber zero carry text h d =
    let none_left : carry ≡ 0 = omega arith in
    record { digits = d; number = rw none_left (omega arith) }
insert_carry-IsNumber (suc r) carry text h d = elim (Bool-cases (ltb 0 carry)) [
  | inl more ↦
      let fewer : carry / 10 ≤ r = ground arith in
      let low : ℕ = b'0' + carry % 10 in
      let v =
        insert_carry-IsNumber r (carry / 10) (low ∷ text) fewer ((omega arith, omega arith), d) in
      rw more (record { digits = v.digits; number = v.number ∙ insert_place carry text })
  | inr done ↦
      let none_left : carry ≡ 0 = ground arith in
      rw done (record { digits = d; number = rw none_left (omega arith) })
]

skip_zeros-IsNumber : (n : ℕ) (text : Bytes) → IsNumber n text → IsNumber n (skip_zeros text)
unfolding skip_zeros
skip_zeros-IsNumber n [] v = v
skip_zeros-IsNumber n (c ∷ text) v = elim (Bool-cases (c == b'0')) [
  | inl z ↦
      let zero_digit : c - b'0' ≡ 0 = ground arith in
      rw z (
        skip_zeros-IsNumber n text (record {
          digits = v.digits.1;
          number =
              sym (
                decimal_from-cons c text
                ∙ ap (λ (t : ℕ). t * 10 ^ length text + decimal_from 0 text) zero_digit
                ∙ omega arith)
              ∙ v.number;
        }))
  | inr z ↦ rw z v
]

abbrev NoZeroFirst : Bytes → Type 0
NoZeroFirst [] = Unit
NoZeroFirst (c ∷ text) = (c == b'0') ≡ false

skip_zeros-NoZeroFirst : (text : Bytes) → NoZeroFirst (skip_zeros text)
unfolding skip_zeros
skip_zeros-NoZeroFirst [] = tt
skip_zeros-NoZeroFirst (c ∷ text) = elim (Bool-cases (c == b'0')) [
  | inl z ↦ rw z (skip_zeros-NoZeroFirst text)
  | inr z ↦ rw z z
]

-- A decimal text of the number `n`, as it is usually written.
record IsDecimal (n : ℕ) (text : Bytes) : Type 0 where
  is_number : IsNumber n text
  no_leading_zero : NoLeadingZero text

trimmed-IsDecimal :
    (n : ℕ) (text : Bytes) → IsNumber n text → NoZeroFirst text → IsDecimal n (trimmed text)
unfolding trimmed decimal_from
trimmed-IsDecimal n [] v h = record {
  is_number = record {
    digits = ((omega arith, omega arith), tt);
    number = decimal_from-cons b'0' [] ∙ v.number;
  };
  no_leading_zero = tt;
}
trimmed-IsDecimal n (c ∷ []) v h = record { is_number = v; no_leading_zero = tt }
trimmed-IsDecimal n (c ∷ d ∷ text) v h = record { is_number = v; no_leading_zero = h }

decimal_mul_add-IsDecimal :
    (n mul add : ℕ) (text : Bytes)
    → IsNumber n text
    → IsDecimal (n * mul + add) (decimal_mul_add text mul add)
unfolding decimal_mul_add
decimal_mul_add-IsDecimal n mul add text v =
    let (text', carry) = mul_add_digits mul text add in
    let m = mul_add_digits-IsMulAdd mul text add in
    let all = insert_carry-IsNumber carry carry text' (omega arith) m.digits in
    let number : carry * 10 ^ length text' + decimal_from 0 text' ≡ n * mul + add =
      rw (m.width, ← v.number) (sym m.number) in
    trimmed-IsDecimal (n * mul + add) _
      (skip_zeros-IsNumber _ (insert_carry carry carry text')
        (subst (λ k. IsNumber k (insert_carry carry carry text')) number all))
      (skip_zeros-NoZeroFirst (insert_carry carry carry text'))

pub hex_value-digit_value : (c d : ℕ) → hex_value c ≡ ok d → d ≡ digit_value c
unfolding hex_value digit_value
hex_value-digit_value c d h = ground arith

hex_to_decimal_loop-IsDecimal :
    (n : ℕ) (hex text result : Bytes)
    → IsDecimal n text
    → hex_to_decimal_loop hex text ≡ ok result
    → IsDecimal (hex_number n hex) result
unfolding hex_to_decimal_loop hex_number
hex_to_decimal_loop-IsDecimal n [] text result v h = subst (IsDecimal n) (ok-injective h) v
hex_to_decimal_loop-IsDecimal n (c ∷ hex) text result v h =
    on_bind (hex_value c) _ h λ d is_digit rest.
      subst (λ k. IsDecimal (hex_number (n * 16 + k) hex) result)
        (hex_value-digit_value c d is_digit)
        (hex_to_decimal_loop-IsDecimal (n * 16 + d) hex (decimal_mul_add text 16 d) result
          (decimal_mul_add-IsDecimal n 16 d text v.is_number) rest)

positive_hex_to_decimal-IsDecimal :
    (hex text : Bytes)
    → positive_hex_to_decimal hex ≡ ok text
    → All IsDigit text × NoLeadingZero text × (decimal_from 0 text ≡ hex_number 0 (strip_0x hex))
unfolding positive_hex_to_decimal
positive_hex_to_decimal-IsDecimal hex text h =
    let zero_text : IsDecimal 0 (b'0' ∷ []) = record {
      is_number = record {
        digits = ((omega arith, omega arith), tt);
        number = unfold decimal_from in omega arith;
      };
      no_leading_zero = tt;
    } in
    let v = hex_to_decimal_loop-IsDecimal 0 (strip_0x hex) (b'0' ∷ []) text zero_text h in
    (v.is_number.digits, v.no_leading_zero, v.is_number.number)

-- A text of hexadecimal digits is converted, and it has no prefix.
pub check_hex-cons :
    (c : ℕ) (hex : Bytes)
    → check_hex (c ∷ hex) ≡ ok tt
    → ((d : ℕ) × (hex_value c ≡ ok d)) × (check_hex hex ≡ ok tt)
unfolding check_hex
check_hex-cons c hex h = on_bind (hex_value c) _ h λ d is_digit rest. ((d, is_digit), rest)

hex_to_decimal_loop_succeeds :
    (hex text : Bytes)
    → check_hex hex ≡ ok tt
    → (result : Bytes) × (hex_to_decimal_loop hex text ≡ ok result)
unfolding hex_to_decimal_loop
hex_to_decimal_loop_succeeds [] text h = (text, refl)
hex_to_decimal_loop_succeeds (c ∷ hex) text h =
    let ((d, is_digit), rest) = check_hex-cons c hex h in
    rw is_digit (hex_to_decimal_loop_succeeds hex (decimal_mul_add text 16 d) rest)

hex_value-ne-x : (c d : ℕ) → hex_value c ≡ ok d → (c == b'x' || c == b'X') ≡ false
unfolding hex_value
hex_value-ne-x c d h = ground arith

strip_0x-check_hex : (hex : Bytes) → check_hex hex ≡ ok tt → strip_0x hex ≡ hex
unfolding strip_0x
strip_0x-check_hex [] h = refl
strip_0x-check_hex (a ∷ []) h = refl
strip_0x-check_hex (a ∷ b ∷ hex) h =
    let ((d, is_digit), rest) = check_hex-cons b hex (check_hex-cons a (b ∷ hex) h).1 in
    ground (arith, hex_value-ne-x b d is_digit)

-- An ABI word, 64 hexadecimal digits after an optional prefix, is always converted, and the result
-- consists of decimal digits without a leading zero and stands for the number that the word's digits
-- stand for.
pub evm_uint_word_to_decimal_lem :
    (word : Bytes)
    → length (strip_0x word) ≡ 64
    → check_hex (strip_0x word) ≡ ok tt
    → (text : Bytes) × (evm_uint_word_to_decimal word ≡ ok text)
      × All IsDigit text
      × NoLeadingZero text
      × (decimal_from 0 text ≡ hex_number 0 (strip_0x word))
unfolding evm_uint_word_to_decimal canonical_abi_word_hex positive_hex_to_decimal
evm_uint_word_to_decimal_lem word wide digits =
    let hex : Bytes = strip_0x word in
    let bare : strip_0x hex ≡ hex = strip_0x-check_hex hex digits in
    let (text, run) = hex_to_decimal_loop_succeeds hex (b'0' ∷ []) digits in
    let converted : positive_hex_to_decimal hex ≡ ok text = rw bare run in
    let (all, no_zero, number) = positive_hex_to_decimal-IsDecimal hex text converted in
    (
      text,
      rw (wide, digits, bare) run,
      all,
      no_zero,
      subst (λ s. decimal_from 0 text ≡ hex_number 0 s) bare number,
    )

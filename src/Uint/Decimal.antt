-- ===== src/Uint/Decimal.antt =====
-- What `decimal_to_word` computes: the number that the digits spell, or an error.
use polymarket_cpp_client.Prelude.{
  ℕ, ◌+◌, ◌-◌, ◌*◌, ◌/◌, ◌%◌, ◌^◌, ◌<◌, ◌≤◌, ◌≡◌, refl, ap, [], ◌∷◌, Bytes, IsBytes, All, length,
  replicate, arith, ◌⊎◌, inl, inr, ◌∙◌, quotient-zero, Bool-cases, ltb, ltb→lt,
}
use polymarket_cpp_client.Prelude.Except.{ok, throw, invalid_argument}
use polymarket_cpp_client.Uint.{times_ten_plus, decimal_loop, decimal_to_word, word_size}
use polymarket_cpp_client.Uint.Value.{value, value-lt}
use native.Mathlib.Nat.{pow-suc}

-- The number spelled by base-10 digits that follow the number n.
unfoldable pub decimal_from : ℕ → Bytes → ℕ
decimal_from n [] = n
decimal_from n (c ∷ s) = decimal_from (n * 10 + (c - b'0')) s

abbrev pub IsDigit : ℕ → Type 0
IsDigit c = (b'0' ≤ c) × (c ≤ b'9')

length-times_ten_plus : (bs : Bytes) (carry : ℕ) → length (times_ten_plus bs carry).0 ≡ length bs
unfolding times_ten_plus
length-times_ten_plus [] carry = refl
length-times_ten_plus (b ∷ bs) carry = omega (arith, length-times_ten_plus bs carry)

times_ten_plus-IsBytes : (bs : Bytes) (carry : ℕ) → IsBytes (times_ten_plus bs carry).0
unfolding times_ten_plus
times_ten_plus-IsBytes [] carry = tt
times_ten_plus-IsBytes (b ∷ bs) carry = (omega arith, times_ten_plus-IsBytes bs carry)

-- The word and the carry together hold ten times the number plus the digit.
value-times_ten_plus :
    (bs : Bytes) (carry : ℕ)
    → (times_ten_plus bs carry).1 * 256 ^ length bs + value (times_ten_plus bs carry).0
      ≡ value bs * 10 + carry
unfolding times_ten_plus value
value-times_ten_plus [] carry = omega arith
value-times_ten_plus (b ∷ bs) carry =
    let low : ℕ = (times_ten_plus bs carry).1 in
    let p : ℕ = 256 ^ length bs in
    let split : (b * 10 + low) / 256 * 256 + (b * 10 + low) % 256 ≡ b * 10 + low = omega arith in
    rw (length-times_ten_plus bs carry) (
      omega (
        arith,
        pow-suc 256 (length bs),
        ap (λ (t : ℕ). (b * 10 + low) / 256 * t) (pow-suc 256 (length bs)),
        ap (λ (t : ℕ). t * p) split,
        value-times_ten_plus bs carry,
      ))

-- A carry is left over exactly when the product does not fit.
times_ten_plus_fits :
    (bs : Bytes) (carry : ℕ)
    → value bs * 10 + carry < 256 ^ length bs
    → ((times_ten_plus bs carry).1 ≡ 0)
      × (value (times_ten_plus bs carry).0 ≡ value bs * 10 + carry)
times_ten_plus_fits bs carry h =
    let (word, rest) = times_ten_plus bs carry in
    let p : ℕ = 256 ^ length bs in
    let none_left : rest ≡ 0 =
      quotient-zero rest (value word) p (omega (arith, value-times_ten_plus bs carry)) in
    (none_left, omega (arith, value-times_ten_plus bs carry, ap (λ (t : ℕ). t * p) none_left))

times_ten_plus_overflows :
    (bs : Bytes) (carry : ℕ)
    → 256 ^ length bs ≤ value bs * 10 + carry
    → 0 < (times_ten_plus bs carry).1
times_ten_plus_overflows bs carry h =
    let below : value (times_ten_plus bs carry).0 < 256 ^ length bs =
      rw length-times_ten_plus at
        (value-lt (times_ten_plus bs carry).0 (times_ten_plus-IsBytes bs carry)) in
    grind (arith, value-times_ten_plus bs carry)

decimal_from-ge : (n : ℕ) (s : Bytes) → n ≤ decimal_from n s
unfolding decimal_from
decimal_from-ge n [] = omega arith
decimal_from-ge n (c ∷ s) = omega (arith, decimal_from-ge (n * 10 + (c - b'0')) s)

-- The loop run to its end on digits that fit.
decimal_loop_fits :
    (s word : Bytes)
    → All IsDigit s
    → IsBytes word
    → decimal_from (value word) s < 256 ^ length word
    → (w : Bytes) × (decimal_loop s word ≡ ok w)
      × (length w ≡ length word)
      × IsBytes w
      × (value w ≡ decimal_from (value word) s)
unfolding decimal_loop decimal_from
decimal_loop_fits [] word digits bytes h = (word, refl, refl, bytes, refl)
decimal_loop_fits (c ∷ s) word digits bytes h =
    let d : ℕ = c - b'0' in
    let next : Bytes = (times_ten_plus word d).0 in
    let (no_carry, same) =
      times_ten_plus_fits word d (omega (arith, decimal_from-ge (value word * 10 + d) s)) in
    let (w, run, long, small, val) =
      decimal_loop_fits s next digits.1 (times_ten_plus-IsBytes word d)
        (rw (same, length-times_ten_plus word d) h) in
    (w, ground (arith, no_carry), long ∙ length-times_ten_plus word d, small, rw same at val)

-- The loop stops with an error at the digit where the number leaves the word.
decimal_loop_overflows :
    (s word : Bytes)
    → All IsDigit s
    → IsBytes word
    → value word < 256 ^ length word
    → 256 ^ length word ≤ decimal_from (value word) s
    → decimal_loop s word ≡ throw (invalid_argument "unsigned integer exceeds uint256")
unfolding decimal_loop decimal_from
decimal_loop_overflows [] word digits bytes below h = absurd (omega arith)
decimal_loop_overflows (c ∷ s) word digits bytes below h =
    let d : ℕ = c - b'0' in
    let next : Bytes = (times_ten_plus word d).0 in
    elim (Bool-cases (ltb (value word * 10 + d) (256 ^ length word))) [
      | inl t ↦
          let (no_carry, same) = times_ten_plus_fits word d (ltb→lt _ _ t) in
          let below' : value next < 256 ^ length next =
            rw (same, length-times_ten_plus word d) (ltb→lt _ _ t) in
          let over : 256 ^ length next ≤ decimal_from (value next) s =
            rw (same, length-times_ten_plus word d) h in
          let ih =
            decimal_loop_overflows s next digits.1 (times_ten_plus-IsBytes word d) below' over in
          ground (arith, no_carry, ih)
      | inr t ↦ ground (arith, times_ten_plus_overflows word d)
    ]

decimal_loop_digits : (s word w : Bytes) → decimal_loop s word ≡ ok w → All IsDigit s
unfolding decimal_loop
decimal_loop_digits [] word w e = tt
decimal_loop_digits (c ∷ s) word w e =
    ground (arith, decimal_loop_digits s (times_ten_plus word (c - b'0')).0 w)

-- On base-10 digits the parser returns the 32-byte word of the number that they spell where that is
-- below 2^256, and the overflow error where it is not.
pub decimal_to_word_of_digits :
    (s : Bytes)
    → All IsDigit s
    → ((decimal_from 0 s < 2 ^ 256)
        × (w : Bytes) × (decimal_to_word s ≡ ok w)
        × (length w ≡ 32)
        × IsBytes w
        × (value w ≡ decimal_from 0 s))
      ⊎ ((2 ^ 256 ≤ decimal_from 0 s)
          × (decimal_to_word s ≡ throw (invalid_argument "unsigned integer exceeds uint256")))
unfolding decimal_to_word value
decimal_to_word_of_digits s digits = elim (Bool-cases (ltb (decimal_from 0 s) (2 ^ 256))) [
  | inl t ↦
      let (w, run, long, small, val) =
        decimal_loop_fits s (replicate word_size 0) digits (omega arith) (ltb→lt _ _ t) in
      inl (ltb→lt _ _ t, w, run, long, small, val)
  | inr t ↦
      let over : 2 ^ 256 ≤ decimal_from 0 s = ground arith in
      inr (
        over,
        decimal_loop_overflows s (replicate word_size 0) digits (omega arith) (omega arith) over,
      )
]

-- Whatever the parser accepts is a list of base-10 digits whose number the returned word holds.
pub decimal_to_word_sound :
    (s w : Bytes)
    → decimal_to_word s ≡ ok w
    → All IsDigit s × (decimal_from 0 s < 2 ^ 256) × (length w ≡ 32) × (value w ≡ decimal_from 0 s)
unfolding decimal_to_word
decimal_to_word_sound s w e =
    let digits = decimal_loop_digits s (replicate word_size 0) w e in
    elim (decimal_to_word_of_digits s digits) [
      | inl r ↦
          let (below, v, run, long, small, val) = r in
          let same : v ≡ w = cc in (digits, below, rw (← same) long, rw (← same) val)
      | inr r ↦ let (over, err) = r in absurd (cc)
    ]

-- ===== src/Rlp/Decode.antt =====
-- A reference decoder of RLP items, and what it reads from the encoder's output.
use polymarket_cpp_client.Prelude.{
  ℕ, zero, suc, ◌+◌, ◌-◌, ◌*◌, ◌/◌, ◌%◌, ◌^◌, ◌<◌, ◌≤◌, ◌≡◌, refl, ap, ◌∙◌, inl, inr, Bool, true,
  false, Option, none, some, [], ◌∷◌, ◌++◌, Bytes, length, take, drop, ltb, leb, ◌==◌,
  if◌then◌else◌, arith, length-append, append_assoc, Bool-cases, ==_iff,
}
use polymarket_cpp_client.Uint.Value.{value, value-nil}
use polymarket_cpp_client.Rlp.{
  length_loop, minimal_length_bytes, with_header, rlp_encode_bytes, rlp_encode_uint,
  skip_zero_bytes,
}
use native.Mathlib.Nat.{pow-suc}

-- The loop puts the bytes of n before those that it has; with rounds enough none is lost.
value-length_loop :
    (rounds n : ℕ) (bytes : Bytes)
    → n < 256 ^ rounds
    → value (length_loop rounds n bytes) ≡ n * 256 ^ length bytes + value bytes
unfolding length_loop value
value-length_loop zero n bytes h =
    let none_left : n ≡ 0 = omega arith in
    omega (arith, ap (λ (t : ℕ). t * 256 ^ length bytes) none_left)
value-length_loop (suc rounds) n bytes h = elim (Bool-cases (n == 0)) [
  | inl done ↦
      rw (done, length_loop)
        (ground (arith, ap (λ (t : ℕ). t * 256 ^ length bytes) ((==_iff n 0).0 done)))
  | inr more ↦
      let small : n / 256 < 256 ^ rounds = omega (arith, pow-suc 256 rounds) in
      rw (more, length_loop)
        (value-length_loop rounds (n / 256) ((n % 256) ∷ bytes) small ∙ regroup)
]
  where
    p : ℕ
    p = 256 ^ length bytes

    split : n / 256 * 256 + n % 256 ≡ n
    split = omega arith

    regroup : n / 256 * 256 ^ suc (length bytes) + (n % 256 * p + value bytes) ≡ n * p + value bytes
    regroup = omega (
      arith,
      ap (λ (t : ℕ). n / 256 * t) (pow-suc 256 (length bytes)),
      ap (λ (t : ℕ). t * p) split,
    )

length-length_loop-le :
    (rounds n : ℕ) (bytes : Bytes) → length (length_loop rounds n bytes) ≤ rounds + length bytes
unfolding length_loop
length-length_loop-le zero n bytes = omega arith
length-length_loop-le (suc rounds) n bytes =
    ground (arith, length-length_loop-le rounds (n / 256) ((n % 256) ∷ bytes))

length-length_loop-ge :
    (rounds n : ℕ) (bytes : Bytes) → length bytes ≤ length (length_loop rounds n bytes)
unfolding length_loop
length-length_loop-ge zero n bytes = omega arith
length-length_loop-ge (suc rounds) n bytes =
    ground (arith, length-length_loop-ge rounds (n / 256) ((n % 256) ∷ bytes))

-- A length below 2^64 is written in full, in one to eight bytes where it is not zero.
minimal_length_bytes_lem :
    (n : ℕ)
    → 0 < n
    → n < 2 ^ 64
    → (value (minimal_length_bytes n) ≡ n)
      × (0 < length (minimal_length_bytes n))
      × (length (minimal_length_bytes n) ≤ 8)
unfolding minimal_length_bytes
minimal_length_bytes_lem n some_length small = (
  omega (arith, value-length_loop 8 n [] small, value-nil),
  unfold length_loop in ground (arith, length-length_loop-ge 7 (n / 256) ((n % 256) ∷ [])),
  omega (arith, length-length_loop-le 8 n []),
)

-- The first n bytes and the rest, where there are so many.
unfoldable pub split_at : ℕ → Bytes → Option (Bytes × Bytes)
split_at n s = if leb n (length s) then some (take n s, drop n s) else none

take-length : (xs ys : Bytes) → take (length xs) (xs ++ ys) ≡ xs
take-length [] ys = refl
take-length (x ∷ xs) ys = ap (◌∷◌ x) (take-length xs ys)

drop-length : (xs ys : Bytes) → drop (length xs) (xs ++ ys) ≡ ys
drop-length [] ys = refl
drop-length (x ∷ xs) ys = drop-length xs ys

split_at-append : (xs ys : Bytes) → split_at (length xs) (xs ++ ys) ≡ some (xs, ys)
unfolding split_at
split_at-append xs ys = ground (arith, length-append xs ys, take-length xs ys, drop-length xs ys)

-- One item of RLP, by the Ethereum specification: whether it is a list, its payload, and the bytes
-- behind it.
abbrev pub Item : Type 0
Item = Bool × Bytes × Bytes

tagged : Bool → Option (Bytes × Bytes) → Option Item
tagged list none = none
tagged list (some (payload, rest)) = some (list, payload, rest)

-- A payload whose length stands in k bytes before it.
long_payload : ℕ → Bytes → Option (Bytes × Bytes)
long_payload k s = split_at (value (take k s)) (drop k s)

unfoldable pub rlp_decode : Bytes → Option Item
unfolding tagged long_payload
rlp_decode [] = none
rlp_decode (b ∷ s) =
    if ltb b 0x80
    then some (false, b ∷ [], s)
    else if ltb b 0xb8
    then tagged false (split_at (b - 0x80) s)
    else if ltb b 0xc0
    then tagged false (long_payload (b - 0xb7) s)
    else if ltb b 0xf8
    then tagged true (split_at (b - 0xc0) s)
    else tagged true (long_payload (b - 0xf7) s)

long_payload-append :
    (size payload rest : Bytes)
    → value size ≡ length payload
    → long_payload (length size) ((size ++ payload) ++ rest) ≡ some (payload, rest)
unfolding long_payload
long_payload-append size payload rest e =
    rw
      (
        append_assoc size payload rest,
        take-length size (payload ++ rest),
        drop-length size (payload ++ rest),
        e,
      )
      (split_at-append payload rest)

-- The header that the encoder puts before a payload is read back, for both pairs of bases.
pub rlp_decode-with_header :
    (payload rest : Bytes)
    → length payload < 2 ^ 64
    → (rlp_decode (with_header 0x80 0xb7 payload ++ rest) ≡ some (false, payload, rest))
      × (rlp_decode (with_header 0xc0 0xf7 payload ++ rest) ≡ some (true, payload, rest))
unfolding rlp_decode with_header
rlp_decode-with_header payload rest small = elim (Bool-cases (ltb (length payload) 56)) [
  | inl short ↦
      rw short
        (ground (arith, split_at-append payload rest), ground (arith, split_at-append payload rest))
  | inr long ↦
      let size : Bytes = minimal_length_bytes (length payload) in
      let (val, some_size, few) = minimal_length_bytes_lem (length payload) (ground arith) small in
      let read = long_payload-append size payload rest val in
      rw long (ground (arith, read), ground (arith, read))
]

-- Every string shorter than 2^64 bytes is read back from its encoding, whatever follows.
pub rlp_decode-rlp_encode_bytes :
    (bytes rest : Bytes)
    → length bytes < 2 ^ 64
    → rlp_decode (rlp_encode_bytes bytes ++ rest) ≡ some (false, bytes, rest)
unfolding rlp_encode_bytes
rlp_decode-rlp_encode_bytes [] rest small = (rlp_decode-with_header [] rest small).0
rlp_decode-rlp_encode_bytes (b ∷ []) rest small = elim (Bool-cases (ltb b 0x80)) [
  | inl low ↦ rw low (unfold rlp_decode in rw low)
  | inr high ↦ rw high (rlp_decode-with_header (b ∷ []) rest small).0
]
rlp_decode-rlp_encode_bytes (b ∷ c ∷ s) rest small =
    ground (arith, (rlp_decode-with_header (b ∷ c ∷ s) rest small).0)

length-with_header :
    (short long : ℕ) (payload : Bytes) → length payload < length (with_header short long payload)
unfolding with_header
length-with_header short long payload =
    ground (arith, length-append (minimal_length_bytes (length payload)) payload)

pub length-rlp_encode_bytes :
    (bytes : Bytes)
    → (length bytes ≤ length (rlp_encode_bytes bytes)) × (0 < length (rlp_encode_bytes bytes))
unfolding rlp_encode_bytes
length-rlp_encode_bytes bytes = ground (arith, length-with_header 0x80 0xb7 bytes)

-- No leading zero byte, as the specification wants of a scalar.
abbrev pub IsScalar : Bytes → Type 0
IsScalar [] = Unit {0}
IsScalar (b ∷ bs) = 0 < b

skip_zero_bytes_lem :
    (bs : Bytes)
    → IsScalar (skip_zero_bytes bs)
      × (value (skip_zero_bytes bs) ≡ value bs)
      × (length (skip_zero_bytes bs) ≤ length bs)
unfolding skip_zero_bytes value
skip_zero_bytes_lem [] = (tt, refl, omega arith)
skip_zero_bytes_lem (b ∷ bs) = ground (arith, skip_zero_bytes_lem bs)

-- A big-endian number is read back as the bytes of the same number without leading zeros.
pub rlp_decode-rlp_encode_uint :
    (big_endian rest : Bytes)
    → length big_endian < 2 ^ 64
    → (scalar : Bytes) × (rlp_decode (rlp_encode_uint big_endian ++ rest)
        ≡ some (false, scalar, rest))
      × IsScalar scalar
      × (value scalar ≡ value big_endian)
unfolding rlp_encode_uint
rlp_decode-rlp_encode_uint big_endian rest small =
    let (canonical, same, shorter) = skip_zero_bytes_lem big_endian in
    (
      skip_zero_bytes big_endian,
      rlp_decode-rlp_encode_bytes (skip_zero_bytes big_endian) rest (omega arith),
      canonical,
      same,
    )

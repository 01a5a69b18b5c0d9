-- ===== src/Abi/Layout.antt =====
-- Where a sequence holds its values.
use polymarket_cpp_client.Prelude.{
  ℕ, ◌+◌, ◌%◌, ◌^◌, ◌<◌, ◌≡◌, refl, sym, ap, ap₂, ◌∙◌, arith, true, false, List, [], ◌∷◌, ◌++◌,
  append_assoc, Bytes, length, length-append,
}
use polymarket_cpp_client.Uint.{uint256_word}
use polymarket_cpp_client.Uint.Value.{uint256_word_lem}
use polymarket_cpp_client.Abi.{Part, head_size, heads, tails, append_sequence}

-- The bytes that the heads and the tails of some values take.
unfoldable pub head_bytes : List Part → ℕ
head_bytes [] = 0
head_bytes ((true, encoded) ∷ parts) = 32 + head_bytes parts
head_bytes ((false, encoded) ∷ parts) = length encoded + head_bytes parts

unfoldable pub tail_bytes : List Part → ℕ
tail_bytes [] = 0
tail_bytes ((true, encoded) ∷ parts) = length encoded + tail_bytes parts
tail_bytes ((false, encoded) ∷ parts) = tail_bytes parts

head_size-bytes :
    (parts : List Part) → head_bytes parts < 2 ^ 64 → head_size parts ≡ head_bytes parts
unfolding head_size head_bytes
head_size-bytes [] h = refl
head_size-bytes ((true, encoded) ∷ parts) h = omega (arith, head_size-bytes parts (omega arith))
head_size-bytes ((false, encoded) ∷ parts) h = omega (arith, head_size-bytes parts (omega arith))

length-tails : (parts : List Part) → length (tails parts) ≡ tail_bytes parts
unfolding tails tail_bytes
length-tails [] = refl
length-tails ((true, encoded) ∷ parts) =
    length-append encoded (tails parts) ∙ ap (◌+◌ (length encoded)) (length-tails parts)
length-tails ((false, encoded) ∷ parts) = length-tails parts

length-heads :
    (offset : ℕ) (parts : List Part)
    → offset + tail_bytes parts < 2 ^ 64
    → length (heads offset parts) ≡ head_bytes parts
unfolding heads head_bytes tail_bytes
length-heads offset [] h = refl
length-heads offset ((true, encoded) ∷ parts) h =
    let fits : (offset + length encoded) % 2 ^ 64 ≡ offset + length encoded = omega arith in
    rw fits (
      omega (
        arith,
        length-append (uint256_word offset) (heads (offset + length encoded) parts),
        (uint256_word_lem offset (omega arith)).0,
        length-heads (offset + length encoded) parts (omega arith),
      ))
length-heads offset ((false, encoded) ∷ parts) h =
    length-append encoded (heads offset parts)
    ∙ ap (◌+◌ (length encoded)) (length-heads offset parts h)

heads-append :
    (offset : ℕ) (ps qs : List Part)
    → offset + tail_bytes ps < 2 ^ 64
    → heads offset (ps ++ qs) ≡ heads offset ps ++ heads (offset + tail_bytes ps) qs
unfolding heads tail_bytes
heads-append offset [] qs h = ap (λ o. heads o qs) (omega arith)
heads-append offset ((true, encoded) ∷ ps) qs h =
    let fits : (offset + length encoded) % 2 ^ 64 ≡ offset + length encoded = omega arith in
    let sum : offset + length encoded + tail_bytes ps ≡ offset + (length encoded + tail_bytes ps) =
      omega arith in
    rw (fits, heads-append (offset + length encoded) ps qs (omega arith), sum)
      (sym (append_assoc (uint256_word offset) (heads (offset + length encoded) ps) _))
heads-append offset ((false, encoded) ∷ ps) qs h =
    rw (heads-append offset ps qs h) (sym (append_assoc encoded (heads offset ps) _))

tails-append : (ps qs : List Part) → tails (ps ++ qs) ≡ tails ps ++ tails qs
unfolding tails
tails-append [] qs = refl
tails-append ((true, encoded) ∷ ps) qs =
    ap (◌++◌ encoded) (tails-append ps qs) ∙ sym (append_assoc encoded (tails ps) (tails qs))
tails-append ((false, encoded) ∷ ps) qs = tails-append ps qs

tail_bytes-append : (ps qs : List Part) → tail_bytes (ps ++ qs) ≡ tail_bytes ps + tail_bytes qs
unfolding tail_bytes
tail_bytes-append [] qs = omega arith
tail_bytes-append ((true, encoded) ∷ ps) qs = omega (arith, tail_bytes-append ps qs)
tail_bytes-append ((false, encoded) ∷ ps) qs = tail_bytes-append ps qs

heads-dynamic :
    (position : ℕ) (encoded : Bytes) (qs : List Part)
    → heads position ((true, encoded) ∷ qs)
      ≡ uint256_word position ++ heads ((position + length encoded) % 2 ^ 64) qs
unfolding heads
heads-dynamic position encoded qs = refl

tail_bytes-dynamic :
    (encoded : Bytes) (qs : List Part)
    → tail_bytes ((true, encoded) ∷ qs) ≡ length encoded + tail_bytes qs
unfolding tail_bytes
tail_bytes-dynamic encoded qs = refl

tails-dynamic :
    (ps qs : List Part) (encoded : Bytes)
    → tails (ps ++ (true, encoded) ∷ qs) ≡ tails ps ++ (encoded ++ tails qs)
unfolding tails
tails-dynamic ps qs encoded = tails-append ps ((true, encoded) ∷ qs)

regroup : (a b c d : Bytes) → (a ++ (b ++ c)) ++ d ≡ a ++ (b ++ (c ++ d))
regroup a b c d = append_assoc a (b ++ c) d ∙ ap (◌++◌ a) (append_assoc b c d)

-- `text` holds `piece` at the position `at`.
abbrev pub Holds : Bytes → ℕ → Bytes → Type 0
Holds text at piece =
    (before : Bytes) × (after : Bytes) × (text ≡ before ++ (piece ++ after)) × (length before ≡ at)

-- In an encoded sequence that fits the memory, the head of a dynamic value stands behind the heads of
-- the values before it and is the word of a position, counted from the start of the sequence, and at
-- that position stands the encoding of the value.
pub append_sequence-Holds :
    (ps qs : List Part) (encoded : Bytes)
    → head_bytes (ps ++ (true, encoded) ∷ qs) + tail_bytes (ps ++ (true, encoded) ∷ qs) < 2 ^ 64
    → (position : ℕ) × Holds
        (append_sequence (ps ++ (true, encoded) ∷ qs))
        (head_bytes ps)
        (uint256_word position)
      × Holds (append_sequence (ps ++ (true, encoded) ∷ qs)) position encoded
unfolding append_sequence
append_sequence-Holds ps qs encoded small =
    let all : List Part = ps ++ (true, encoded) ∷ qs in
    let total = tail_bytes-append ps ((true, encoded) ∷ qs) in
    let size : head_size all ≡ head_bytes all = head_size-bytes all (omega arith) in
    let position : ℕ = head_bytes all + tail_bytes ps in
    let split = heads-append (head_bytes all) ps ((true, encoded) ∷ qs) (omega arith) in
    let front : Bytes = heads (head_bytes all) ps in
    let back : Bytes = heads ((position + length encoded) % 2 ^ 64) qs in
    let whole : append_sequence all ≡ (front ++ (uint256_word position ++ back)) ++ tails all =
      ap (λ o. heads o all ++ tails all) size
      ∙ ap (λ t. t ++ tails all) (split ∙ ap (◌++◌ front) (heads-dynamic position encoded qs)) in
    let long : length (heads (head_bytes all) all) ≡ head_bytes all =
      length-heads (head_bytes all) all small in
    (
      position,
      (
        front,
        back ++ tails all,
        whole ∙ regroup front (uint256_word position) back (tails all),
        length-heads (head_bytes all) ps (omega arith),
      ),
      (
        heads (head_bytes all) all ++ tails ps,
        tails qs,
        ap (λ o. heads o all ++ tails all) size
            ∙ ap (◌++◌ (heads (head_bytes all) all)) (tails-dynamic ps qs encoded)
            ∙ sym (append_assoc (heads (head_bytes all) all) (tails ps) (encoded ++ tails qs)),
        length-append (heads (head_bytes all) all) (tails ps) ∙ ap₂ ◌+◌ long (length-tails ps),
      ),
    )

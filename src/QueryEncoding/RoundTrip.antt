-- ===== src/QueryEncoding/RoundTrip.antt =====
-- A percent decoder by RFC 3986 reads every encoded value back, and encoded text is safe in a query.
use polymarket_cpp_client.Prelude.{
  ℕ, ◌+◌, ◌-◌, ◌*◌, ◌/◌, ◌%◌, ◌<◌, ◌≡◌, refl, ap, ap₂, ◌∙◌, true, false, ◌&&◌, ◌||◌, if◌then◌else◌,
  leb, ◌==◌, [], ◌∷◌, Bytes, IsBytes, All, All-append, arith, Bool-cases, inl, inr,
}
use polymarket_cpp_client.Prelude.Tables.{holds_below, holds_below_at}
use polymarket_cpp_client.QueryEncoding.{unreserved, hex_upper, percent_encode_query_value}

-- The value of an upper-case hexadecimal digit.
unfoldable pub digit_value : ℕ → ℕ
digit_value c = if leb c b'9' then c - b'0' else c - b'A' + 10

unfoldable pub percent_decode : Bytes → Bytes
percent_decode [] = []
percent_decode (c ∷ []) = c ∷ []
percent_decode (c ∷ h ∷ []) = c ∷ h ∷ []
percent_decode (c ∷ h ∷ l ∷ s) =
    let triple = (digit_value h * 16 + digit_value l) ∷ percent_decode s in
    let plain = c ∷ percent_decode (h ∷ l ∷ s) in if c == b'%' then triple else plain

percent_decode_plain :
    (c : ℕ) (s : Bytes) → (c == b'%') ≡ false → percent_decode (c ∷ s) ≡ c ∷ percent_decode s
unfolding percent_decode
percent_decode_plain c [] h = refl
percent_decode_plain c (h' ∷ []) h = refl
percent_decode_plain c (h' ∷ l ∷ s) h = rw h

digit_table :
    holds_below 16 (λ n. digit_value (hex_upper n) == n && unreserved (hex_upper n)) ≡ true
unfolding holds_below digit_value hex_upper unreserved
digit_table = refl

digit_value-hex_upper : (n : ℕ) → n < 16 → digit_value (hex_upper n) ≡ n
digit_value-hex_upper n h = ground (arith, holds_below_at 16 _ n digit_table h)

hex_upper-unreserved : (n : ℕ) → n < 16 → unreserved (hex_upper n) ≡ true
hex_upper-unreserved n h = ground (arith, holds_below_at 16 _ n digit_table h)

percent_decode_triple :
    (n m : ℕ) (s : Bytes)
    → n < 16
    → m < 16
    → percent_decode (b'%' ∷ hex_upper n ∷ hex_upper m ∷ s) ≡ (n * 16 + m) ∷ percent_decode s
unfolding percent_decode
percent_decode_triple n m s hn hm = rw (digit_value-hex_upper n hn, digit_value-hex_upper m hm)

unreserved-ne-percent : (c : ℕ) → unreserved c ≡ true → (c == b'%') ≡ false
unfolding unreserved
unreserved-ne-percent c h = ground arith

-- Every value of bytes is read back from its encoding.
pub percent_decode-encode :
    (value : Bytes) → IsBytes value → percent_decode (percent_encode_query_value value) ≡ value
unfolding percent_encode_query_value
percent_decode-encode [] h = unfold percent_decode in refl
percent_decode-encode (c ∷ value) h = elim (Bool-cases (unreserved c)) [
  | inl plain ↦ rw plain (
      percent_decode_plain c (percent_encode_query_value value) (unreserved-ne-percent c plain)
      ∙ ap (◌∷◌ c) (percent_decode-encode value h.1))
  | inr hidden ↦ rw hidden (
      percent_decode_triple (c / 16) (c % 16) (percent_encode_query_value value) (omega arith)
        (omega arith)
      ∙ ap₂ ◌∷◌ (omega arith) (percent_decode-encode value h.1))
]

-- A byte that cannot end a query value or start another parameter.
abbrev pub IsQuerySafe : ℕ → Type 0
IsQuerySafe c = (unreserved c || c == b'%') ≡ true

-- Encoded text holds unreserved characters and percent signs only.
pub percent_encode-IsQuerySafe :
    (value : Bytes) → IsBytes value → All IsQuerySafe (percent_encode_query_value value)
unfolding percent_encode_query_value
percent_encode-IsQuerySafe [] h = tt
percent_encode-IsQuerySafe (c ∷ value) h =
    All-append IsQuerySafe _ (percent_encode_query_value value) (piece c h.0)
      (percent_encode-IsQuerySafe value h.1)
  where
    piece :
        (c : ℕ)
        → c < 256
        → All IsQuerySafe
            (if unreserved c then c ∷ [] else b'%' ∷ hex_upper (c / 16) ∷ hex_upper (c % 16) ∷ [])
    piece c h = ground (arith, hex_upper-unreserved (c / 16), hex_upper-unreserved (c % 16))

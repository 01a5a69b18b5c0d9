-- ===== src/Delivery/Entries.antt =====
-- The map of delivered logs as a list of entries with distinct identities: what each change does to it.
use polymarket_cpp_client.Prelude.{
  ℕ, ◌≡◌, inl, inr, refl, sym, ◌∙◌, subst, arith, leb, true, false, if◌then◌else◌, Bool-cases,
  on_if, List, [], ◌∷◌, map, Option, none, some, Bytes, equal_bytes, equal_bytes_lem,
  equal_bytes_symm, contains, Distinct, All,
}
use polymarket_cpp_client.Delivery.{EvmDeliveredLog, lookup, erase_delivered, emplace, erase_old}

unfoldable pub keys : List EvmDeliveredLog → List Bytes
keys entries = map (λ e. e.identity) entries

lookup-hit :
    (id : Bytes) (e : EvmDeliveredLog) (entries : List EvmDeliveredLog)
    → equal_bytes e.identity id ≡ true
    → lookup id (e ∷ entries) ≡ some e
unfolding lookup
lookup-hit id e entries hit = rw hit refl

lookup-miss :
    (id : Bytes) (e : EvmDeliveredLog) (entries : List EvmDeliveredLog)
    → equal_bytes e.identity id ≡ false
    → lookup id (e ∷ entries) ≡ lookup id entries
unfolding lookup
lookup-miss id e entries miss = rw miss refl

abbrev identity_or : Bytes → Option EvmDeliveredLog → Bytes
identity_or id none = id
identity_or id (some e) = e.identity

pub lookup-identity :
    (id : Bytes) (entries : List EvmDeliveredLog) (e : EvmDeliveredLog)
    → lookup id entries ≡ some e
    → equal_bytes e.identity id ≡ true
unfolding lookup
lookup-identity id [] e h = cc
lookup-identity id (f ∷ entries) e h = elim (Bool-cases (equal_bytes f.identity id)) [
  | inl hit ↦
      let same : some f ≡ some e = sym (lookup-hit id f entries hit) ∙ h in
      subst (λ o. equal_bytes (identity_or id o) id ≡ true) same hit
  | inr miss ↦ lookup-identity id entries e (sym (lookup-miss id f entries miss) ∙ h)
]

pub lookup-none-contains :
    (id : Bytes) (entries : List EvmDeliveredLog)
    → lookup id entries ≡ none
    → contains id (keys entries) ≡ false
unfolding lookup contains keys
lookup-none-contains id [] h = refl
lookup-none-contains id (e ∷ entries) h =
    ground (arith, lookup-none-contains id entries, equal_bytes_symm id e.identity)

pub contains-lookup-none :
    (id : Bytes) (entries : List EvmDeliveredLog)
    → contains id (keys entries) ≡ false
    → lookup id entries ≡ none
unfolding lookup contains keys
contains-lookup-none id [] h = refl
contains-lookup-none id (e ∷ entries) h =
    ground (arith, contains-lookup-none id entries, equal_bytes_symm id e.identity)

-- Lookup after each change of the map.
pub emplace-new :
    (e : EvmDeliveredLog) (entries : List EvmDeliveredLog)
    → lookup e.identity entries ≡ none
    → emplace e entries ≡ e ∷ entries
unfolding emplace
emplace-new e entries h = rw (emplace, h) refl

pub lookup-cons :
    (id : Bytes) (e : EvmDeliveredLog) (entries : List EvmDeliveredLog)
    → lookup id (e ∷ entries) ≡ (if equal_bytes e.identity id then some e else lookup id entries)
unfolding lookup
lookup-cons id e entries = refl

pub lookup-erase_delivered :
    (id gone : Bytes) (entries : List EvmDeliveredLog)
    → Distinct (keys entries)
    → lookup id (erase_delivered gone entries)
      ≡ (if equal_bytes gone id then none else lookup id entries)
unfolding lookup erase_delivered Distinct keys
lookup-erase_delivered id gone [] d = ground arith
lookup-erase_delivered id gone (e ∷ entries) (new, d) =
    elim (Bool-cases (equal_bytes e.identity gone)) [
      | inl hit ↦
          let is_gone : e.identity ≡ gone = equal_bytes_lem e.identity gone hit in
          elim (Bool-cases (equal_bytes gone id)) [
            | inl same ↦
                rw (hit, same)
                  (contains-lookup-none id entries (
                    subst (λ x. contains x (keys entries) ≡ false)
                      (is_gone ∙ equal_bytes_lem gone id same) new))
            | inr other ↦
                let miss : equal_bytes e.identity id ≡ false = rw is_gone other in
                rw (hit, other, miss) refl
          ]
      | inr miss ↦ elim (Bool-cases (equal_bytes e.identity id)) [
        | inl here ↦
            let is_id : e.identity ≡ id = equal_bytes_lem e.identity id here in
            let other : equal_bytes gone id ≡ false =
              equal_bytes_symm gone id ∙ subst (λ x. equal_bytes x gone ≡ false) is_id miss in
            rw (miss, other, here) refl
        | inr there ↦ rw (miss, there) (lookup-erase_delivered id gone entries d)
      ]
    ]

pub contains-erase_delivered :
    (id gone : Bytes) (entries : List EvmDeliveredLog)
    → contains id (keys entries) ≡ false
    → contains id (keys (erase_delivered gone entries)) ≡ false
unfolding contains erase_delivered keys
contains-erase_delivered id gone [] h = refl
contains-erase_delivered id gone (e ∷ entries) h =
    ground (arith, contains-erase_delivered id gone entries)

pub Distinct-erase_delivered :
    (gone : Bytes) (entries : List EvmDeliveredLog)
    → Distinct (keys entries)
    → Distinct (keys (erase_delivered gone entries))
unfolding Distinct erase_delivered keys
Distinct-erase_delivered gone [] d = tt
Distinct-erase_delivered gone (e ∷ entries) (new, d) =
    elim (Bool-cases (equal_bytes e.identity gone)) [
      | inl hit ↦ rw hit d
      | inr miss ↦ rw miss (
        contains-erase_delivered e.identity gone entries new,
        Distinct-erase_delivered gone entries d,
      )
    ]

contains-erase_old :
    (id : Bytes) (cutoff : ℕ) (entries : List EvmDeliveredLog)
    → contains id (keys entries) ≡ false
    → contains id (keys (erase_old cutoff entries)) ≡ false
unfolding contains erase_old keys
contains-erase_old id cutoff [] h = refl
contains-erase_old id cutoff (e ∷ entries) h = ground (arith, contains-erase_old id cutoff entries)

pub Distinct-erase_old :
    (cutoff : ℕ) (entries : List EvmDeliveredLog)
    → Distinct (keys entries)
    → Distinct (keys (erase_old cutoff entries))
unfolding Distinct erase_old keys
Distinct-erase_old cutoff [] d = tt
Distinct-erase_old cutoff (e ∷ entries) (new, d) = elim (Bool-cases (leb e.block cutoff)) [
  | inl old ↦ rw old (Distinct-erase_old cutoff entries d)
  | inr kept ↦
      rw kept
        (contains-erase_old e.identity cutoff entries new, Distinct-erase_old cutoff entries d)
]

some-injective {ℓ} : {A : Type ℓ} {a b : A} → some a ≡ some b → a ≡ b
some-injective h = cc

-- What holds of every entry holds of those that are left.
module _ {ℓ} (P : EvmDeliveredLog → Type ℓ) where
  pub All-erase_delivered :
      (gone : Bytes) (entries : List EvmDeliveredLog)
      → All P entries
      → All P (erase_delivered gone entries)
  unfolding erase_delivered
  All-erase_delivered gone [] all = tt
  All-erase_delivered gone (e ∷ entries) (p, all) =
      on_if (All P) (equal_bytes e.identity gone) (λ hit. all)
        (λ miss. (p, All-erase_delivered gone entries all))

  pub All-erase_old :
      (cutoff : ℕ) (entries : List EvmDeliveredLog)
      → All P entries
      → All P (erase_old cutoff entries)
  unfolding erase_old
  All-erase_old cutoff [] all = tt
  All-erase_old cutoff (e ∷ entries) (p, all) =
      on_if (All P) (leb e.block cutoff) (λ old. All-erase_old cutoff entries all)
        (λ kept. (p, All-erase_old cutoff entries all))

  pub All-lookup :
      (id : Bytes) (entries : List EvmDeliveredLog) (e : EvmDeliveredLog)
      → All P entries
      → lookup id entries ≡ some e
      → P e
  unfolding lookup
  All-lookup id [] e all h = cc
  All-lookup id (first ∷ entries) e (p, all) h =
      on_if (λ found. found ≡ some e → P e) (equal_bytes first.identity id)
        (λ hit same. subst P (some-injective same) p)
        (λ miss later. All-lookup id entries e all later) h

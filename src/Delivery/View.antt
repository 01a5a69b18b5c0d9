-- ===== src/Delivery/View.antt =====
-- What the application has been told, as a function of the trace alone, and that the map of delivered
-- logs implements it.
use polymarket_cpp_client.Prelude.{
  ℕ, ◌≡◌, ◌⊎◌, inl, inr, refl, ◌∙◌, subst, arith, ◌+◌, ◌-◌, leb, ltb, Bool, false, not, ◌&&◌,
  if◌then◌else◌, Bool-cases, List, [], ◌∷◌, Option, none, some, Bytes, is_empty, equal_bytes,
  equal_bytes_lem, contains, Distinct,
}
use polymarket_cpp_client.EventLog.{EvmLog, evm_log_identity}
use polymarket_cpp_client.Delivery.{
  EvmDeliveredLog, Event, delivers, removes, checkpoints, prunes, lookup, erase_old,
}
use polymarket_cpp_client.Delivery.Entries.{keys, contains-lookup-none}

-- A block that is `lookback` or more behind the durable block, once more than that is durable.
unfoldable pub is_settled : ℕ → ℕ → ℕ → Bool
is_settled lookback durable block = ltb lookback durable && leb (block + lookback) durable

-- What is left of an entry.
abbrev pub unless_settled : ℕ → ℕ → Option (EvmLog × ℕ) → Option (EvmLog × ℕ)
unless_settled lookback durable none = none
unless_settled lookback durable (some (log, block)) =
    if is_settled lookback durable block then none else some (log, block)

-- The logs that the application has, with their blocks, by identity: what was delivered last, unless it
-- was removed since, or was settled at a pruning since. A log without an identity is never remembered.
unfoldable pub view : List Event → Bytes → Option (EvmLog × ℕ)
view [] id = none
view (delivers log block ∷ older) id =
    if equal_bytes (evm_log_identity log) id && not (is_empty id)
    then some (log, block)
    else view older id
view (removes log ∷ older) id =
    if equal_bytes (evm_log_identity log) id then none else view older id
view (checkpoints block ∷ older) id = view older id
view (prunes lookback durable ∷ older) id = unless_settled lookback durable (view older id)

-- No log is delivered while the application still has it.
unfoldable pub NoRepeat : List Event → Type 0
NoRepeat [] = Unit
NoRepeat (delivers log block ∷ older) =
    ((evm_log_identity log ≡ []) ⊎ (view older (evm_log_identity log) ≡ none)) × NoRepeat older
NoRepeat (removes log ∷ older) = NoRepeat older
NoRepeat (checkpoints block ∷ older) = NoRepeat older
NoRepeat (prunes lookback durable ∷ older) = NoRepeat older

abbrev pub entry_of : Option EvmDeliveredLog → Option (EvmLog × ℕ)
entry_of none = none
entry_of (some e) = some (e.log, e.block)

-- The entries stand for the view, each identity once.
pub record Implements (entries : List EvmDeliveredLog) (trace : List Event) : Type 0 where
  pub once : Distinct (keys entries)
  pub same : (id : Bytes) → entry_of (lookup id entries) ≡ view trace id

is_old :
    (lookback durable block : ℕ)
    → leb durable lookback ≡ false
    → leb block (durable - lookback) ≡ is_settled lookback durable block
unfolding is_settled
is_old lookback durable block h = ground arith

pub lookup-erase_old :
    (id : Bytes) (lookback durable : ℕ) (entries : List EvmDeliveredLog)
    → leb durable lookback ≡ false
    → Distinct (keys entries)
    → entry_of (lookup id (erase_old (durable - lookback) entries))
      ≡ unless_settled lookback durable (entry_of (lookup id entries))
unfolding lookup erase_old Distinct keys
lookup-erase_old id lookback durable [] far d = refl
lookup-erase_old id lookback durable (e ∷ entries) far (new, d) =
    let later = lookup-erase_old id lookback durable entries far d in
    let same = is_old lookback durable e.block far in
    elim (Bool-cases (equal_bytes e.identity id)) [
      | inl hit ↦ elim (Bool-cases (is_settled lookback durable e.block)) [
        | inl old ↦
            let gone : lookup id entries ≡ none = contains-lookup-none id entries (
              subst (λ x. contains x (keys entries) ≡ false) (equal_bytes_lem e.identity id hit)
                new) in
            rw (same, old, hit, old) (later ∙ rw gone refl)
        | inr kept ↦ rw (same, kept, hit, kept) refl
      ]
      | inr miss ↦ elim (Bool-cases (is_settled lookback durable e.block)) [
        | inl old ↦ rw (same, old, miss) later
        | inr kept ↦ rw (same, kept, miss) later
      ]
    ]

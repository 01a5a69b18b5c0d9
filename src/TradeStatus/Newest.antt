-- ===== src/TradeStatus/Newest.antt =====
-- The event of a trade is what the tracker reports of it.
use polymarket_cpp_client.Prelude.{
  ℕ, ◌+◌, ◌<◌, ◌≡◌, ◌⊎◌, inl, inr, refl, sym, ap, ◌∙◌, subst, arith, ltb, true, false, not, ◌&&◌,
  Bool-cases, List, [], ◌∷◌, ◌++◌, length, length-append, Option, none, some, Bytes, equal_bytes,
  equal_bytes_lem, equal_bytes_refl, equal_bytes_symm, is_empty, contains,
}
use polymarket_cpp_client.TradeStatus.{
  Trade, Tracker, find, erase, evict, insert, record_over, record_trade, latest,
  is_settled_trade_status,
}
use polymarket_cpp_client.TradeStatus.Invariant.{
  IsTracker, ids, find-none-contains, find-hit, length-ids,
}
use polymarket_cpp_client.TradeStatus.Settled.{find-append-none, find-replace_same}

contains-cons :
    (id x : Bytes) (xs : List Bytes) → contains id (x ∷ xs) ≡ false → equal_bytes x id ≡ false
unfolding contains
contains-cons id x xs h = ground (arith, equal_bytes_symm id x)

module _ {ℓ} {D : Type ℓ} where
  find-erase_other :
      (id oldest : Bytes) (ts : List (Trade D))
      → equal_bytes oldest id ≡ false
      → find id (erase oldest ts) ≡ find id ts
  unfolding find erase
  find-erase_other id oldest [] h = refl
  find-erase_other id oldest (t ∷ ts) h = elim (Bool-cases (equal_bytes t.id oldest)) [
    | inl e ↦
        let f : equal_bytes t.id id ≡ false =
          subst (λ x. equal_bytes x id ≡ false) (sym (equal_bytes_lem t.id oldest e)) h in
        rw (e, f) refl
    | inr e ↦ ground (arith, find-erase_other id oldest ts h)
  ]

  find-snoc :
      (ts : List (Trade D)) (trade : Trade D)
      → find trade.id ts ≡ none
      → find trade.id (ts ++ trade ∷ []) ≡ some trade
  find-snoc ts trade new =
      find-append-none trade.id ts (trade ∷ []) new
      ∙ find-hit trade.id trade [] (equal_bytes_refl trade.id)

  find-evict_newest :
      (arrival : List Bytes) (tracker : Tracker D) (ts : List (Trade D)) (trade : Trade D)
      → 0 < tracker.capacity
      → tracker.trades ≡ ts ++ trade ∷ []
      → ids ts ≡ arrival
      → find trade.id ts ≡ none
      → find trade.id (evict (arrival ++ trade.id ∷ []) tracker).trades ≡ some trade
  unfolding evict
  find-evict_newest [] tracker ts trade room e same new =
      let count : length tracker.trades ≡ 1 =
        ap length e
        ∙ length-append ts (trade ∷ [])
        ∙ ap (λ (n : ℕ). n + 1) (sym (length-ids ts) ∙ ap length same) in
      let fits : ltb tracker.capacity (length tracker.trades) ≡ false = ground arith in
      rw fits (ap (find trade.id) e ∙ find-snoc ts trade new)
  find-evict_newest (x ∷ xs) tracker ts trade room e same new =
      let snoc : find trade.id tracker.trades ≡ some trade =
        ap (find trade.id) e ∙ find-snoc ts trade new in
      let other : equal_bytes x trade.id ≡ false =
        contains-cons trade.id x xs
          (subst (λ o. contains trade.id o ≡ false) same (find-none-contains trade.id ts new)) in
      elim (Bool-cases (ltb tracker.capacity (length tracker.trades))) [
        | inl full ↦ rw full (find-erase_other trade.id x tracker.trades other ∙ snoc)
        | inr fits ↦ rw fits snoc
      ]

  -- What the event of a trade leads to: the report is the event, or a settled report has stood
  -- against an unsettled event and nothing has changed.
  abbrev pub IsReported : Tracker D → Trade D → Tracker D → Type ℓ
  IsReported before trade after =
      (latest after trade.id ≡ some trade)
      ⊎ ((old : Trade D) × (latest before trade.id ≡ some old)
          × (is_settled_trade_status old.status ≡ true)
          × (is_settled_trade_status trade.status ≡ false)
          × (after ≡ before))

  record_over-IsReported :
      (existing : Option (Trade D)) (tracker : Tracker D) (trade : Trade D)
      → IsTracker tracker
      → find trade.id tracker.trades ≡ existing
      → IsReported tracker trade (record_over existing tracker trade)
  unfolding record_over latest insert
  record_over-IsReported none tracker trade v new = inl (
      find-evict_newest tracker.arrival_order _ tracker.trades trade v.some_room refl v.in_order
        new)
  record_over-IsReported (some old) tracker trade v found =
      elim (Bool-cases
        (is_settled_trade_status old.status && not (is_settled_trade_status trade.status))) [
          | inl kept ↦ rw kept (inr (old, found, ground arith, ground arith, refl))
          | inr moved ↦ rw moved (inl (find-replace_same trade tracker.trades old found))
        ]

  -- After the event of a trade with an id, the tracker reports that event under the id; the one
  -- exception is an unsettled event of a trade already reported as settled, which changes nothing.
  pub record_trade-IsReported :
      (tracker : Tracker D) (trade : Trade D)
      → IsTracker tracker
      → is_empty trade.id ≡ false
      → IsReported tracker trade (record_trade tracker trade)
  unfolding record_trade
  record_trade-IsReported tracker trade v given =
      rw given (record_over-IsReported _ tracker trade v refl)

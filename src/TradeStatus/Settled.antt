-- ===== src/TradeStatus/Settled.antt =====
-- Which status the tracker reports after an event.
use polymarket_cpp_client.Prelude.{
  ◌≡◌, ◌⊎◌, inl, inr, refl, sym, ◌∙◌, subst, arith, ltb, true, false, not, ◌&&◌, Bool-cases, List,
  [], ◌∷◌, ◌++◌, length, Option, none, some, Bytes, equal_bytes, equal_bytes_lem, equal_bytes_refl,
  equal_bytes_symm, is_empty, contains, Distinct, Distinct-snoc,
}
use polymarket_cpp_client.TradeStatus.{
  Trade, Tracker, find, erase, replace, evict, insert, record_over, record_trade, latest,
  is_settled_trade_status,
}
use polymarket_cpp_client.TradeStatus.Invariant.{
  IsTracker, ids, find-none-contains, find-hit, ids-append,
}

module _ {ℓ} {D : Type ℓ} where
  find-miss :
      (id : Bytes) (t : Trade D) (ts : List (Trade D))
      → equal_bytes t.id id ≡ false
      → find id (t ∷ ts) ≡ find id ts
  unfolding find
  find-miss id t ts e = rw e refl

  contains-find-none :
      (id : Bytes) (ts : List (Trade D)) → contains id (ids ts) ≡ false → find id ts ≡ none
  unfolding find contains ids
  contains-find-none id [] h = refl
  contains-find-none id (t ∷ ts) h =
      ground (arith, contains-find-none id ts, equal_bytes_symm id t.id)

  pub find-append-none :
      (id : Bytes) (ts us : List (Trade D)) → find id ts ≡ none → find id (ts ++ us) ≡ find id us
  unfolding find
  find-append-none id [] us h = refl
  find-append-none id (t ∷ ts) us h = elim (Bool-cases (equal_bytes t.id id)) [
    | inl e ↦ let found : some t ≡ none = sym (find-hit id t ts e) ∙ h in cc
    | inr e ↦ rw e (find-append-none id ts us (sym (find-miss id t ts e) ∙ h))
  ]

  find-append-some :
      (id : Bytes) (ts us : List (Trade D)) (t : Trade D)
      → find id ts ≡ some t
      → find id (ts ++ us) ≡ some t
  unfolding find
  find-append-some id [] us t h = cc
  find-append-some id (s ∷ ts) us t h = ground (arith, find-append-some id ts us t)

  find-erase :
      (id oldest : Bytes) (ts : List (Trade D))
      → Distinct (ids ts)
      → (find id (erase oldest ts) ≡ none) ⊎ (find id (erase oldest ts) ≡ find id ts)
  unfolding find erase Distinct ids
  find-erase id oldest [] d = inl refl
  find-erase id oldest (t ∷ ts) (new, d) = elim (Bool-cases (equal_bytes t.id oldest)) [
    | inl e ↦ elim (Bool-cases (equal_bytes t.id id)) [
      | inl f ↦ rw e (
          inl (
            contains-find-none id ts
              (subst (λ x. contains x (ids ts) ≡ false) (equal_bytes_lem t.id id f) new)))
      | inr f ↦ rw (e, f) (inr refl)
    ]
    | inr e ↦ elim (Bool-cases (equal_bytes t.id id)) [
      | inl f ↦ rw (e, f) (inr refl)
      | inr f ↦ rw (e, f) (find-erase id oldest ts d)
    ]
  ]

  pub find-replace_same :
      (trade : Trade D) (ts : List (Trade D)) (old : Trade D)
      → find trade.id ts ≡ some old
      → find trade.id (replace trade ts) ≡ some trade
  unfolding find replace
  find-replace_same trade [] old h = cc
  find-replace_same trade (t ∷ ts) old h =
      ground (arith, find-replace_same trade ts old, equal_bytes_refl trade.id)

  find-replace_other :
      (id : Bytes) (trade : Trade D) (ts : List (Trade D))
      → equal_bytes trade.id id ≡ false
      → find id (replace trade ts) ≡ find id ts
  unfolding find replace
  find-replace_other id trade [] h = refl
  find-replace_other id trade (t ∷ ts) h = elim (Bool-cases (equal_bytes t.id trade.id)) [
    | inl e ↦
        let f : equal_bytes t.id id ≡ false =
          subst (λ x. equal_bytes x id ≡ false) (sym (equal_bytes_lem t.id trade.id e)) h in
        rw (e, h, f) refl
    | inr e ↦ ground (arith, find-replace_other id trade ts h)
  ]

  -- What is found under `id` after an eviction.
  find-evict :
      (id : Bytes) (order : List Bytes) (tracker : Tracker D)
      → Distinct (ids tracker.trades)
      → (find id (evict order tracker).trades ≡ none)
        ⊎ (find id (evict order tracker).trades ≡ find id tracker.trades)
  unfolding evict
  find-evict id [] tracker d = inr refl
  find-evict id (oldest ∷ order) tracker d =
      elim (Bool-cases (ltb tracker.capacity (length tracker.trades))) [
        | inl full ↦ rw full (find-erase id oldest tracker.trades d)
        | inr fits ↦ rw fits (inr refl)
      ]

  -- The report for an id is settled.
  abbrev pub IsSettled : Option (Trade D) → Type 0
  IsSettled none = ⊥
  IsSettled (some t) = is_settled_trade_status t.status ≡ true

  find-insert-IsSettled :
      (tracker : Tracker D) (trade t : Trade D) (id : Bytes)
      → IsTracker tracker
      → find trade.id tracker.trades ≡ none
      → find id tracker.trades ≡ some t
      → is_settled_trade_status t.status ≡ true
      → (find id (insert tracker trade).trades ≡ none)
        ⊎ IsSettled (find id (insert tracker trade).trades)
  unfolding insert
  find-insert-IsSettled tracker trade t id v new found settled =
      let once : Distinct (ids tracker.trades) = subst Distinct (sym v.in_order) v.once in
      let d : Distinct (ids (tracker.trades ++ trade ∷ [])) =
        subst Distinct (sym (ids-append tracker.trades trade))
          (Distinct-snoc _ trade.id once (find-none-contains trade.id tracker.trades new)) in
      let e = find-append-some id tracker.trades (trade ∷ []) t found in
      elim (find-evict id (tracker.arrival_order ++ trade.id ∷ []) _ d) [
        | inl gone ↦ inl gone
        | inr kept ↦ inr (subst IsSettled (sym (kept ∙ e)) settled)
      ]

  find-replace-IsSettled :
      (ts : List (Trade D)) (trade old t : Trade D) (id : Bytes)
      → find trade.id ts ≡ some old
      → find id ts ≡ some t
      → (is_settled_trade_status old.status && not (is_settled_trade_status trade.status)) ≡ false
      → is_settled_trade_status t.status ≡ true
      → IsSettled (find id (replace trade ts))
  find-replace-IsSettled ts trade old t id found_old found moved settled =
      elim (Bool-cases (equal_bytes trade.id id)) [
        | inl same ↦
            let e : trade.id ≡ id = equal_bytes_lem trade.id id same in
            let is_old : find id ts ≡ some old = subst (λ x. find x ts ≡ some old) e found_old in
            let was : is_settled_trade_status old.status ≡ true =
              subst IsSettled (sym found ∙ is_old) settled in
            subst (λ x. IsSettled (find x (replace trade ts))) e
              (subst IsSettled (sym (find-replace_same trade ts old found_old)) (ground arith))
        | inr other ↦ subst IsSettled (sym (find-replace_other id trade ts other ∙ found)) settled
      ]

  record_over-IsSettled :
      (existing : Option (Trade D)) (tracker : Tracker D) (trade t : Trade D) (id : Bytes)
      → IsTracker tracker
      → find trade.id tracker.trades ≡ existing
      → find id tracker.trades ≡ some t
      → is_settled_trade_status t.status ≡ true
      → (find id (record_over existing tracker trade).trades ≡ none)
        ⊎ IsSettled (find id (record_over existing tracker trade).trades)
  unfolding record_over
  record_over-IsSettled none tracker trade t id v new found settled =
      find-insert-IsSettled tracker trade t id v new found settled
  record_over-IsSettled (some old) tracker trade t id v found_old found settled =
      elim (Bool-cases
        (is_settled_trade_status old.status && not (is_settled_trade_status trade.status))) [
          | inl kept ↦ rw kept (inr (subst IsSettled (sym found) settled))
          | inr moved ↦ rw moved (
              inr (
                find-replace-IsSettled tracker.trades trade old t id found_old found moved settled))
        ]

  -- A trade that was reported as settled, CONFIRMED or FAILED, is after any event still reported as
  -- settled, or it has been evicted: no later event takes it back to an unsettled status.
  pub record_trade-IsSettled :
      (tracker : Tracker D) (trade t : Trade D) (id : Bytes)
      → IsTracker tracker
      → latest tracker id ≡ some t
      → is_settled_trade_status t.status ≡ true
      → (latest (record_trade tracker trade) id ≡ none)
        ⊎ IsSettled (latest (record_trade tracker trade) id)
  unfolding record_trade latest
  record_trade-IsSettled tracker trade t id v found settled =
      elim (Bool-cases (is_empty trade.id)) [
        | inl no_id ↦ rw no_id (inr (subst IsSettled (sym found) settled))
        | inr given ↦ rw given (record_over-IsSettled _ tracker trade t id v refl found settled)
      ]

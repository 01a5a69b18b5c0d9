-- ===== src/TradeStatus/Invariant.antt =====
-- The tracker holds each trade once, in the order of arrival, and no more trades than its capacity.
use polymarket_cpp_client.Prelude.{
  ℕ, zero, suc, subst, is_empty, ◌≤◌, ◌<◌, ◌^◌, ◌≡◌, inl, inr, refl, sym, ap, ◌∙◌, arith, ltb, ◌==◌,
  true, false, not, ◌&&◌, Bool-cases, List, [], ◌∷◌, ◌++◌, map, length, length-append, Option, none,
  some, Bytes, equal_bytes, equal_bytes_lem, equal_bytes_refl, equal_bytes_symm, contains, Distinct,
  Distinct-snoc,
}
use polymarket_cpp_client.Prelude.Except.{ok, throw-ne-ok, ok-injective}
use polymarket_cpp_client.TradeStatus.{
  Trade, Tracker, create, find, erase, replace, evict, insert, record_over, record_trade,
  mark_recovered, run, is_settled_trade_status,
}

Distinct-tail : (x : Bytes) (xs : List Bytes) → Distinct (x ∷ xs) → Distinct xs
unfolding Distinct
Distinct-tail x xs (h, hs) = hs

head-eq : {x y : Bytes} {xs ys : List Bytes} → x ∷ xs ≡ y ∷ ys → x ≡ y
head-eq h = cc

tail-eq : {x y : Bytes} {xs ys : List Bytes} → x ∷ xs ≡ y ∷ ys → xs ≡ ys
tail-eq h = cc

module _ {ℓ} {D : Type ℓ} where
  unfoldable pub ids : List (Trade D) → List Bytes
  ids trades = map (λ t. t.id) trades

  pub record IsTracker (tracker : Tracker D) : Type ℓ where
    pub some_room : 0 < tracker.capacity
    pub within : length tracker.trades ≤ tracker.capacity
    pub in_order : ids tracker.trades ≡ tracker.arrival_order
    pub once : Distinct tracker.arrival_order
    pub counters : (tracker.version < 2 ^ 64) × (tracker.recoveries < 2 ^ 64)

  pub find-hit :
      (id : Bytes) (t : Trade D) (ts : List (Trade D))
      → equal_bytes t.id id ≡ true
      → find id (t ∷ ts) ≡ some t
  unfolding find
  find-hit id t ts e = rw e refl

  pub find-none-contains :
      (id : Bytes) (ts : List (Trade D)) → find id ts ≡ none → contains id (ids ts) ≡ false
  unfolding find contains ids
  find-none-contains id [] h = refl
  find-none-contains id (t ∷ ts) h = elim (Bool-cases (equal_bytes t.id id)) [
    | inl e ↦ let found : some t ≡ none = sym (find-hit id t ts e) ∙ h in cc
    | inr e ↦ ground (arith, find-none-contains id ts, equal_bytes_symm id t.id)
  ]

  pub ids-append : (ts : List (Trade D)) (t : Trade D) → ids (ts ++ t ∷ []) ≡ ids ts ++ t.id ∷ []
  unfolding ids
  ids-append [] t = refl
  ids-append (s ∷ ts) t = ap (◌∷◌ s.id) (ids-append ts t)

  ids-replace : (t : Trade D) (ts : List (Trade D)) → ids (replace t ts) ≡ ids ts
  unfolding ids replace
  ids-replace t [] = refl
  ids-replace t (s ∷ ts) = elim (Bool-cases (equal_bytes s.id t.id)) [
    | inl e ↦ rw e (ap (λ x. x ∷ ids ts) (sym (equal_bytes_lem s.id t.id e)))
    | inr e ↦ rw e (ap (◌∷◌ s.id) (ids-replace t ts))
  ]

  length-replace : (t : Trade D) (ts : List (Trade D)) → length (replace t ts) ≡ length ts
  unfolding replace
  length-replace t [] = refl
  length-replace t (s ∷ ts) = ground (arith, length-replace t ts)

  erase_first :
      (oldest : Bytes) (order : List Bytes) (ts : List (Trade D))
      → ids ts ≡ oldest ∷ order
      → (ids (erase oldest ts) ≡ order) × (suc (length (erase oldest ts)) ≡ length ts)
  unfolding erase ids
  erase_first oldest order [] h = cc
  erase_first oldest order (t ∷ ts) h =
      let same : equal_bytes t.id oldest ≡ true =
        subst (λ x. equal_bytes t.id x ≡ true) (head-eq h) (equal_bytes_refl t.id) in
      rw same (tail-eq h, refl)

  pub length-ids : (ts : List (Trade D)) → length (ids ts) ≡ length ts
  unfolding ids
  length-ids [] = refl
  length-ids (t ∷ ts) = ap suc (length-ids ts)

  evict-IsTracker :
      (order : List Bytes) (tracker : Tracker D)
      → 0 < tracker.capacity
      → length tracker.trades ≤ suc tracker.capacity
      → ids tracker.trades ≡ order
      → tracker.arrival_order ≡ order
      → Distinct order
      → (tracker.version < 2 ^ 64) × (tracker.recoveries < 2 ^ 64)
      → IsTracker (evict order tracker)
  unfolding evict
  evict-IsTracker [] tracker room most e same d counters = record {
    some_room = room;
    within = omega (arith, sym (length-ids tracker.trades) ∙ ap length e);
    in_order = e ∙ sym same;
    once = rw same d;
    counters = counters;
  }
  evict-IsTracker (x ∷ xs) tracker room most e same d counters =
      elim (Bool-cases (ltb tracker.capacity (length tracker.trades))) [
        | inl full ↦
            let (rest, shorter) = erase_first x xs tracker.trades e in
            rw full (record {
              some_room = room;
              within = omega (arith, shorter);
              in_order = rest;
              once = Distinct-tail x xs d;
              counters = counters;
            })
        | inr fits ↦ rw fits (record {
          some_room = room;
          within = ground arith;
          in_order = e ∙ sym same;
          once = rw same d;
          counters = counters;
        })
      ]

  insert-IsTracker :
      (tracker : Tracker D) (trade : Trade D)
      → IsTracker tracker
      → find trade.id tracker.trades ≡ none
      → IsTracker (insert tracker trade)
  unfolding insert
  insert-IsTracker tracker trade v new =
      evict-IsTracker (tracker.arrival_order ++ trade.id ∷ []) _ v.some_room
        (omega (arith, length-append tracker.trades (trade ∷ []), v.within))
        (ids-append tracker.trades trade ∙ ap (λ o. o ++ trade.id ∷ []) v.in_order) refl
        (Distinct-snoc tracker.arrival_order trade.id v.once (
          subst (λ o. contains trade.id o ≡ false) v.in_order
            (find-none-contains trade.id tracker.trades new)))
        v.counters

  record_over-IsTracker :
      (existing : Option (Trade D)) (tracker : Tracker D) (trade : Trade D)
      → IsTracker tracker
      → find trade.id tracker.trades ≡ existing
      → IsTracker (record_over existing tracker trade)
  unfolding record_over
  record_over-IsTracker none tracker trade v new =
      let w = insert-IsTracker tracker trade v new in
      record {
        some_room = w.some_room;
        within = w.within;
        in_order = w.in_order;
        once = w.once;
        counters = ground arith;
      }
  record_over-IsTracker (some existing) tracker trade v found =
      elim (Bool-cases
        (is_settled_trade_status existing.status && not (is_settled_trade_status trade.status))) [
          | inl kept ↦ rw kept v
          | inr moved ↦ rw moved (record {
            some_room = v.some_room;
            within = omega (arith, length-replace trade tracker.trades, v.within);
            in_order = ids-replace trade tracker.trades ∙ v.in_order;
            once = v.once;
            counters = ground arith;
          })
        ]

  pub record_trade-IsTracker :
      (tracker : Tracker D) (trade : Trade D)
      → IsTracker tracker
      → IsTracker (record_trade tracker trade)
  unfolding record_trade
  record_trade-IsTracker tracker trade v = elim (Bool-cases (is_empty trade.id)) [
    | inl none_given ↦ rw none_given v
    | inr given ↦ rw given (record_over-IsTracker _ tracker trade v refl)
  ]

  mark_recovered-IsTracker :
      (tracker : Tracker D) → IsTracker tracker → IsTracker (mark_recovered tracker)
  unfolding mark_recovered
  mark_recovered-IsTracker tracker v = record {
    some_room = v.some_room;
    within = v.within;
    in_order = v.in_order;
    once = v.once;
    counters = ground arith;
  }

  run-IsTracker_from :
      (tracker : Tracker D) (calls : List (Option (Trade D)))
      → IsTracker tracker
      → IsTracker (run tracker calls)
  unfolding run
  run-IsTracker_from tracker [] v = v
  run-IsTracker_from tracker (some trade ∷ calls) v =
      run-IsTracker_from (record_trade tracker trade) calls (record_trade-IsTracker tracker trade v)
  run-IsTracker_from tracker (none ∷ calls) v =
      run-IsTracker_from (mark_recovered tracker) calls (mark_recovered-IsTracker tracker v)

  abbrev fresh : ℕ → Tracker D
  fresh capacity = record {
    capacity = capacity;
    trades = [];
    arrival_order = [];
    version = 0;
    recoveries = 0;
  }

  create-suc : (n : ℕ) → create {D = D} (suc n) ≡ ok (fresh (suc n))
  unfolding create
  create-suc n = let given : (suc n == 0) ≡ false = ground arith in rw given refl

  create-IsTracker : (capacity : ℕ) (t : Tracker D) → create capacity ≡ ok t → IsTracker t
  unfolding create ids Distinct
  create-IsTracker zero t h = absurd (throw-ne-ok h)
  create-IsTracker (suc n) t h = subst IsTracker (ok-injective (sym (create-suc n) ∙ h)) (record {
    some_room = omega arith;
    within = omega arith;
    in_order = refl;
    once = tt;
    counters = (omega arith, omega arith);
  })

  -- After any sequence of events and recoveries on a tracker that was made, it holds at most
  -- `capacity` trades, which is positive, each under an id of its own and in the order in which the
  -- ids arrived, and its counters are uint64.
  pub run-IsTracker :
      (capacity : ℕ) (t : Tracker D) (calls : List (Option (Trade D)))
      → create capacity ≡ ok t
      → IsTracker (run t calls)
  run-IsTracker capacity t calls h = run-IsTracker_from t calls (create-IsTracker capacity t h)

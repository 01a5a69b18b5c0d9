-- ===== src/BookStream/Soundness.antt =====
-- A price that is shown is backed by the book of its token, and stays so as a market is updated.
use polymarket_cpp_client.Prelude.{
  ℕ, ◌+◌, ◌≡◌, inl, inr, refl, sym, ap, ◌∙◌, subst, arith, Bool, true, false, not, ◌&&◌, ◌||◌,
  Bool-cases, Option, none, some, Bytes, equal_bytes, equal_bytes_lem, equal_bytes_refl, contains,
}
use polymarket_cpp_client.Floats.{Floats}
use polymarket_cpp_client.MarketBook.{StreamBook}
use polymarket_cpp_client.BookStream.{
  put, StreamBookTop, LiveMarketState, top_of, OrderbookRuntime, mark_ready, update_leg,
  update_market,
}
use polymarket_cpp_client.BookStream.Legs.{
  put-hit, put-miss, ready_top, Backing, backing, Backed, MarketFine, MarketFine-transfer,
  MarketFine-update_leg,
}

pub some-injective {ℓ} : {A : Type ℓ} {a b : A} → some a ≡ some b → a ≡ b
some-injective h = cc

pub none-ne-some {ℓ} : {A : Type ℓ} {a : A} → none ≡ some a → ⊥
none-ne-some h = cc

pub true-ne-false : true ≡ false → ⊥
true-ne-false h = cc

module _ (F : Floats) (near : F.Double → F.Double → Bool) where
  pub record Sound (runtime : OrderbookRuntime F near) : Type 0 where
    pub tracked :
        (token condition : Bytes)
        → runtime.token_to_condition token ≡ some condition
        → contains token runtime.subscribed_tokens ≡ true
    pub fine :
        (condition : Bytes) (market : LiveMarketState F near)
        → runtime.markets condition ≡ some market
        → MarketFine F near (backing F near runtime) condition market

  -- Another token's book is there as before.
  pub Backed-other_book :
      (runtime : OrderbookRuntime F near) (token : Bytes) (book : StreamBook F near)
      (snapshot : Bool) (condition at : Bytes) (top : StreamBookTop F near)
      → equal_bytes token at ≡ false
      → Backed F near (backing F near runtime) condition at top
      → Backed F near
          (backing F near (record runtime {
            orderbooks = put token book runtime.orderbooks;
            snapshot_ready = mark_ready F near token snapshot runtime.snapshot_ready;
          }))
          condition
          at
          top
  unfolding put mark_ready ready_top
  Backed-other_book runtime token book snapshot condition at top other backed =
      let still : (runtime.snapshot_ready at || (snapshot && equal_bytes token at))
          ≡ runtime.snapshot_ready at =
        ground (arith, other) in
      record { routed = backed.routed; shown = rw (still, other) backed.shown }

  pub Backed-own_book :
      (runtime : OrderbookRuntime F near) (token : Bytes) (book : StreamBook F near)
      (snapshot : Bool) (condition : Bytes)
      → (not snapshot && not (runtime.snapshot_ready token)) ≡ false
      → runtime.token_to_condition token ≡ some condition
      → Backed F near
          (backing F near (record runtime {
            orderbooks = put token book runtime.orderbooks;
            snapshot_ready = mark_ready F near token snapshot runtime.snapshot_ready;
          }))
          condition
          token
          (top_of F near book)
  unfolding put mark_ready ready_top
  Backed-own_book runtime token book snapshot condition ready routed =
      let is_ready : (runtime.snapshot_ready token || (snapshot && equal_bytes token token))
          ≡ true =
        ground (arith, equal_bytes_refl token) in
      record { routed = routed; shown = rw (is_ready, equal_bytes_refl token) refl }

  -- A market that the token is not routed to keeps what backs it.
  pub MarketFine-unrouted :
      (old new : Backing F near) (token routed_to condition : Bytes)
      (market : LiveMarketState F near)
      → old.routes token ≡ some routed_to
      → equal_bytes routed_to condition ≡ false
      → ((at : Bytes) (top : StreamBookTop F near)
          → equal_bytes token at ≡ false
          → Backed F near old condition at top
          → Backed F near new condition at top)
      → MarketFine F near old condition market
      → MarketFine F near new condition market
  MarketFine-unrouted old new token routed_to condition market routed apart move =
      MarketFine-transfer F near old new condition market (λ at top backed.
        elim (Bool-cases (equal_bytes token at)) [
          | inl same ↦
              let one : some routed_to ≡ some condition =
                sym routed ∙ ap old.routes (equal_bytes_lem token at same) ∙ backed.routed in
              let refuted : equal_bytes routed_to routed_to ≡ false =
                subst (λ c. equal_bytes routed_to c ≡ false) (sym (some-injective one)) apart in
              absurd (true-ne-false (sym (equal_bytes_refl routed_to) ∙ refuted))
          | inr other ↦ move at top other backed
        ])

  -- A market is changed, or not there.
  pub fine-put :
      (old new : Backing F near) (markets : Bytes → Option (LiveMarketState F near))
      (condition : Bytes) (after : LiveMarketState F near → LiveMarketState F near)
      → ((c : Bytes) (m : LiveMarketState F near)
          → equal_bytes condition c ≡ false
          → MarketFine F near old c m
          → MarketFine F near new c m)
      → ((market : LiveMarketState F near)
          → MarketFine F near old condition market
          → MarketFine F near new condition (after market))
      → ((c : Bytes) (m : LiveMarketState F near) → markets c ≡ some m → MarketFine F near old c m)
      → (c : Bytes) (m : LiveMarketState F near)
      → (elim (markets condition) as (λ _. Bytes → Option (LiveMarketState F near)) [
        | none ↦ markets
        | some market ↦ put condition (after market) markets
      ])
          c
        ≡ some m
      → MarketFine F near new c m
  fine-put old new markets condition after elsewhere changed fine c m =
      (elim (markets condition)
          as (λ found.
            markets condition ≡ found
            → (elim found as (λ _. Bytes → Option (LiveMarketState F near)) [
              | none ↦ markets
              | some market ↦ put condition (after market) markets
            ])
                c
              ≡ some m
            → MarketFine F near new c m) [
              | none ↦ λ absent h. elim (Bool-cases (equal_bytes condition c)) [
                | inl same ↦
                    absurd (
                      none-ne-some (sym absent ∙ ap markets (equal_bytes_lem condition c same) ∙ h))
                | inr other ↦ elsewhere c m other (fine c m h)
              ]
              | some market ↦ λ found h. elim (Bool-cases (equal_bytes condition c)) [
                | inl same ↦
                    let is_c : condition ≡ c = equal_bytes_lem condition c same in
                    let is_m : after market ≡ m = some-injective (
                      sym (put-hit condition (after market) markets)
                      ∙ ap (put condition (after market) markets) is_c
                      ∙ h) in
                    subst (λ k. MarketFine F near new k m) is_c
                      (subst (λ n. MarketFine F near new condition n) is_m
                        (changed market (fine condition market found)))
                | inr other ↦
                    elsewhere c m other
                      (fine c m (sym (put-miss condition c (after market) markets other) ∙ h))
              ]
            ])
        refl

  pub update_market-Sound :
      (old : OrderbookRuntime F near) (books : Bytes → Option (StreamBook F near))
      (ready : Bytes → Bool) (condition token : Bytes) (top : StreamBookTop F near)
      (received_ns : ℕ)
      → old.token_to_condition token ≡ some condition
      → ((c at : Bytes) (t : StreamBookTop F near)
          → equal_bytes token at ≡ false
          → Backed F near (backing F near old) c at t
          → Backed F near
              (backing F near (record old { orderbooks = books; snapshot_ready = ready }))
              c
              at
              t)
      → Backed F near
          (backing F near (record old { orderbooks = books; snapshot_ready = ready }))
          condition
          token
          top
      → Sound old
      → Sound (
          update_market F near condition token top received_ns
            (record old { orderbooks = books; snapshot_ready = ready }))
  unfolding update_market
  update_market-Sound old books ready condition token top received_ns routed move backed sound =
      let new : OrderbookRuntime F near = record old {
        orderbooks = books;
        snapshot_ready = ready;
      } in
      let after = update_leg F near token top received_ns in
      (elim (old.markets condition)
          as (λ found.
            ((c : Bytes) (m : LiveMarketState F near)
              → (elim found as (λ _. Bytes → Option (LiveMarketState F near)) [
                | none ↦ old.markets
                | some market ↦ put condition (after market) old.markets
              ])
                  c
                ≡ some m
              → MarketFine F near (backing F near new) c m)
            → Sound (elim found as (λ _. OrderbookRuntime F near) [
              | none ↦ new
              | some market ↦ record new {
                markets = put condition (after market) old.markets;
                total_updates = old.total_updates + 1;
              }
            ])) [
              | none ↦ λ fine. record { tracked = sound.tracked; fine = fine }
              | some market ↦ λ fine. record { tracked = sound.tracked; fine = fine }
            ])
        (fine-put (backing F near old) (backing F near new) old.markets condition after
          (λ c m other.
            MarketFine-unrouted (backing F near old) (backing F near new) token condition c m routed
              other (move c))
          (λ market fine.
            MarketFine-update_leg F near (backing F near old) (backing F near new) condition token
              top received_ns market (move condition) backed fine)
          sound.fine)

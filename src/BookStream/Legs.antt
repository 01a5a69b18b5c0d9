-- ===== src/BookStream/Legs.antt =====
-- What backs the prices of a market: the books that had a snapshot.
use polymarket_cpp_client.Prelude.{
  ℕ, ◌≡◌, ◌⊎◌, inl, inr, refl, sym, ◌∙◌, subst, Bool, false, if◌then◌else◌, Bool-cases, Option,
  none, some, Bytes, equal_bytes, equal_bytes_lem, equal_bytes_refl, equal_bytes_symm,
}
use polymarket_cpp_client.Floats.{Floats}
use polymarket_cpp_client.MarketBook.{StreamBook}
use polymarket_cpp_client.BookStream.{
  put, drop_key, StreamBookTop, LiveMarketState, no_top, reset_market_leg, reset_market, top_of,
  OrderbookRuntime, update_leg,
}

module _ {ℓ} {A : Type ℓ} where
  pub put-hit :
      (key : Bytes) (value : A) (entries : Bytes → Option A)
      → put key value entries key ≡ some value
  unfolding put
  put-hit key value entries = rw (equal_bytes_refl key) refl

  pub put-miss :
      (key at : Bytes) (value : A) (entries : Bytes → Option A)
      → equal_bytes key at ≡ false
      → put key value entries at ≡ entries at
  unfolding put
  put-miss key at value entries h = rw h refl

  pub drop_key-miss :
      (key at : Bytes) (entries : Bytes → Option A)
      → equal_bytes key at ≡ false
      → drop_key key entries at ≡ entries at
  unfolding drop_key
  drop_key-miss key at entries h = rw h refl

module _ (F : Floats) (near : F.Double → F.Double → Bool) where
  abbrev pub top_if_there : Option (StreamBook F near) → Option (StreamBookTop F near)
  top_if_there none = none
  top_if_there (some book) = some (top_of F near book)

  -- The top of the book of a token that had its snapshot.
  unfoldable pub ready_top :
      (Bytes → Option (StreamBook F near)) → (Bytes → Bool) → Bytes → Option (StreamBookTop F near)
  ready_top books ready token = if ready token then top_if_there (books token) else none

  -- The markets that updates go to, and the tops.
  pub record Backing : Type 0 where
    pub routes : Bytes → Option Bytes
    pub tops : Bytes → Option (StreamBookTop F near)

  abbrev pub backing : OrderbookRuntime F near → Backing
  backing runtime = record {
    routes = runtime.token_to_condition;
    tops = ready_top runtime.orderbooks runtime.snapshot_ready;
  }

  -- The token's updates go to the market, and the price is the top of the token's book.
  pub record Backed (view : Backing) (condition token : Bytes) (top : StreamBookTop F near)
      : Type 0 where
    pub routed : view.routes token ≡ some condition
    pub shown : view.tops token ≡ some top

  abbrev pub LegFine : Backing → Bytes → Bytes → StreamBookTop F near → Type 0
  LegFine runtime condition token top = (top ≡ no_top F near) ⊎ Backed runtime condition token top

  pub record MarketFine (runtime : Backing) (condition : Bytes) (market : LiveMarketState F near)
      : Type 0 where
    pub apart : equal_bytes market.token_yes market.token_no ≡ false
    pub yes : LegFine runtime condition market.token_yes market.best_ask_yes
    pub no : LegFine runtime condition market.token_no market.best_ask_no

  pub LegFine-transfer :
      (old new : Backing) (condition token : Bytes) (top : StreamBookTop F near)
      → (Backed old condition token top → Backed new condition token top)
      → LegFine old condition token top
      → LegFine new condition token top
  LegFine-transfer old new condition token top move (inl zero_top) = inl zero_top
  LegFine-transfer old new condition token top move (inr backed) = inr (move backed)

  pub MarketFine-transfer :
      (old new : Backing) (condition : Bytes) (market : LiveMarketState F near)
      → ((token : Bytes) (top : StreamBookTop F near)
          → Backed old condition token top
          → Backed new condition token top)
      → MarketFine old condition market
      → MarketFine new condition market
  MarketFine-transfer old new condition market move fine = record {
    apart = fine.apart;
    yes =
        LegFine-transfer old new condition market.token_yes market.best_ask_yes (move _ _) fine.yes;
    no = LegFine-transfer old new condition market.token_no market.best_ask_no (move _ _) fine.no;
  }

  -- A market whose legs are reset shows nothing.
  pub MarketFine-reset :
      (runtime : Backing) (condition : Bytes) (market : LiveMarketState F near)
      → equal_bytes market.token_yes market.token_no ≡ false
      → MarketFine runtime condition (reset_market F near market)
  unfolding reset_market reset_market_leg
  MarketFine-reset runtime condition market apart =
      let other : equal_bytes market.token_no market.token_yes ≡ false =
        equal_bytes_symm market.token_no market.token_yes ∙ apart in
      rw (equal_bytes_refl market.token_yes, other, equal_bytes_refl market.token_no)
        (record { apart = apart; yes = inl refl; no = inl refl })

  -- One leg is reset; the others keep what backs them.
  pub MarketFine-reset_leg :
      (old new : Backing) (condition token : Bytes) (market : LiveMarketState F near)
      → ((at : Bytes) (top : StreamBookTop F near)
          → equal_bytes token at ≡ false
          → Backed old condition at top
          → Backed new condition at top)
      → MarketFine old condition market
      → MarketFine new condition (reset_market_leg F near token market)
  unfolding reset_market_leg
  MarketFine-reset_leg old new condition token market move fine =
      elim (Bool-cases (equal_bytes token market.token_yes)) [
        | inl is_yes ↦
            let not_no : equal_bytes token market.token_no ≡ false =
              subst (λ t. equal_bytes t market.token_no ≡ false)
                (sym (equal_bytes_lem token market.token_yes is_yes)) fine.apart in
            rw is_yes (record {
              apart = fine.apart;
              yes = inl refl;
              no = LegFine-transfer old new condition _ _ (move _ _ not_no) fine.no;
            })
        | inr not_yes ↦ elim (Bool-cases (equal_bytes token market.token_no)) [
          | inl is_no ↦
              rw (not_yes, is_no)
                (record {
                  apart = fine.apart;
                  yes = LegFine-transfer old new condition _ _ (move _ _ not_yes) fine.yes;
                  no = inl refl;
                })
          | inr not_no ↦
              rw (not_yes, not_no)
                (record {
                  apart = fine.apart;
                  yes = LegFine-transfer old new condition _ _ (move _ _ not_yes) fine.yes;
                  no = LegFine-transfer old new condition _ _ (move _ _ not_no) fine.no;
                })
        ]
      ]

  -- One leg is updated.
  pub MarketFine-update_leg :
      (old new : Backing) (condition token : Bytes) (top : StreamBookTop F near) (received_ns : ℕ)
      (market : LiveMarketState F near)
      → ((at : Bytes) (top : StreamBookTop F near)
          → equal_bytes token at ≡ false
          → Backed old condition at top
          → Backed new condition at top)
      → Backed new condition token top
      → MarketFine old condition market
      → MarketFine new condition (update_leg F near token top received_ns market)
  unfolding update_leg
  MarketFine-update_leg old new condition token top received_ns market move backed fine =
      elim (Bool-cases (equal_bytes token market.token_yes)) [
        | inl is_yes ↦
            let same : token ≡ market.token_yes = equal_bytes_lem token market.token_yes is_yes in
            let not_no : equal_bytes token market.token_no ≡ false =
              subst (λ t. equal_bytes t market.token_no ≡ false) (sym same) fine.apart in
            rw is_yes (record {
              apart = fine.apart;
              yes = inr (subst (λ t. Backed new condition t top) same backed);
              no = LegFine-transfer old new condition _ _ (move _ _ not_no) fine.no;
            })
        | inr not_yes ↦ elim (Bool-cases (equal_bytes token market.token_no)) [
          | inl is_no ↦
              let same : token ≡ market.token_no = equal_bytes_lem token market.token_no is_no in
              rw (not_yes, is_no)
                (record {
                  apart = fine.apart;
                  yes = LegFine-transfer old new condition _ _ (move _ _ not_yes) fine.yes;
                  no = inr (subst (λ t. Backed new condition t top) same backed);
                })
          | inr not_no ↦
              rw (not_yes, not_no)
                (record {
                  apart = fine.apart;
                  yes = LegFine-transfer old new condition _ _ (move _ _ not_yes) fine.yes;
                  no = LegFine-transfer old new condition _ _ (move _ _ not_no) fine.no;
                })
        ]
      ]

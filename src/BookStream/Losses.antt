-- ===== src/BookStream/Losses.antt =====
-- Losing a subscription or the stream keeps every price backed.
use polymarket_cpp_client.Prelude.{
  ◌+◌, ◌≡◌, inl, inr, refl, sym, ap, ◌∙◌, subst, arith, Bool, true, false, not, ◌&&◌, ◌||◌,
  Bool-cases, Option-cases, on_if, List, [], ◌∷◌, Option, none, some, Bytes, equal_bytes,
  equal_bytes_lem, equal_bytes_symm, contains,
}
use polymarket_cpp_client.Floats.{Floats}
use polymarket_cpp_client.BookStream.{
  drop_key, value_or, erase_token, StreamBookTop, LiveMarketState, reset_market_leg,
  OrderbookRuntime, invalidate_stream_books, reset_if_there, invalidate_cached_state,
  deactivate_stream, invalidate_stream_state, reset_leg_of, unsubscribe, unsubscribe_all,
}
use polymarket_cpp_client.BookStream.Legs.{
  drop_key-miss, ready_top, Backing, backing, Backed, MarketFine, MarketFine-transfer,
  MarketFine-reset, MarketFine-reset_leg,
}
use polymarket_cpp_client.BookStream.Soundness.{
  some-injective, none-ne-some, true-ne-false, Sound, MarketFine-unrouted, fine-put,
}

contains-erase_token :
    (token at : Bytes) (tokens : List Bytes)
    → equal_bytes token at ≡ false
    → contains at (erase_token token tokens) ≡ contains at tokens
unfolding contains erase_token
contains-erase_token token at [] other = refl
contains-erase_token token at (t ∷ tokens) other = elim (Bool-cases (equal_bytes token t)) [
  | inl same ↦
      let is_t : token ≡ t = equal_bytes_lem token t same in
      let apart : equal_bytes at t ≡ false =
        subst (λ x. equal_bytes at x ≡ false) is_t (equal_bytes_symm at token ∙ other) in
      rw (same, apart) refl
  | inr differs ↦
      rw differs (ap (λ b. equal_bytes at t || b) (contains-erase_token token at tokens other))
]

pub other_token :
    (token at : Bytes) (tokens : List Bytes)
    → contains token tokens ≡ false
    → contains at tokens ≡ true
    → equal_bytes token at ≡ false
other_token token at tokens absent present = elim (Bool-cases (equal_bytes token at)) [
  | inl same ↦ absurd (
      true-ne-false
        (sym present ∙ ap (λ t. contains t tokens) (sym (equal_bytes_lem token at same)) ∙ absent))
  | inr other ↦ other
]

module _ (F : Floats) (near : F.Double → F.Double → Bool) where
  -- A token whose book and route go.
  Backed-without :
      (runtime : OrderbookRuntime F near) (routes : Bytes → Option Bytes) (token c at : Bytes)
      (top : StreamBookTop F near)
      → routes at ≡ runtime.token_to_condition at
      → equal_bytes token at ≡ false
      → Backed F near (backing F near runtime) c at top
      → Backed F near
          (record {
            routes = routes;
            tops =
                ready_top F near
                  (drop_key token runtime.orderbooks)
                  (λ at. runtime.snapshot_ready at && not (equal_bytes token at));
          })
          c
          at
          top
  unfolding ready_top drop_key
  Backed-without runtime routes token c at top same other backed =
      let still : (runtime.snapshot_ready at && not (equal_bytes token at))
          ≡ runtime.snapshot_ready at =
        ground (arith, other) in
      record { routed = same ∙ backed.routed; shown = rw (still, other) backed.shown }

  tracked-drop :
      (runtime : OrderbookRuntime F near) (token at c : Bytes)
      → Sound F near runtime
      → drop_key token runtime.token_to_condition at ≡ some c
      → contains at (erase_token token runtime.subscribed_tokens) ≡ true
  unfolding drop_key
  tracked-drop runtime token at c sound =
      on_if
        (λ found. found ≡ some c → contains at (erase_token token runtime.subscribed_tokens) ≡ true)
        (equal_bytes token at) (λ same h. absurd (none-ne-some h))
        (λ other h.
          contains-erase_token token at runtime.subscribed_tokens other ∙ sound.tracked at c h)

  -- The markets that do not get the token's updates, when its route goes.
  MarketFine-without :
      (runtime : OrderbookRuntime F near) (token c : Bytes) (m : LiveMarketState F near)
      → equal_bytes (value_or [] (runtime.token_to_condition token)) c ≡ false
      → MarketFine F near (backing F near runtime) c m
      → MarketFine F near
          (record {
            routes = drop_key token runtime.token_to_condition;
            tops =
                ready_top F near
                  (drop_key token runtime.orderbooks)
                  (λ at. runtime.snapshot_ready at && not (equal_bytes token at));
          })
          c
          m
  MarketFine-without runtime token c m other =
      let drop =
        (λ (at : Bytes) (top : StreamBookTop F near) (apart : equal_bytes token at ≡ false).
          Backed-without runtime (drop_key token runtime.token_to_condition) token c at top
            (drop_key-miss token at runtime.token_to_condition apart) apart) in
      elim (Option-cases (runtime.token_to_condition token)) [
        | inl absent ↦ MarketFine-transfer F near (backing F near runtime) _ c m (λ at top backed.
            elim (Bool-cases (equal_bytes token at)) [
              | inl same ↦ absurd (
                  none-ne-some (
                    sym absent
                    ∙ ap runtime.token_to_condition (equal_bytes_lem token at same)
                    ∙ backed.routed))
              | inr apart ↦ drop at top apart backed
            ])
        | inr (condition, routed) ↦
            MarketFine-unrouted F near (backing F near runtime) _ token condition c m routed
              (ap (λ o. equal_bytes (value_or [] o) c) (sym routed) ∙ other) drop
      ]

  pub unsubscribe-Sound :
      (token : Bytes) (runtime : OrderbookRuntime F near)
      → Sound F near runtime
      → Sound F near (unsubscribe F near token runtime)
  unfolding unsubscribe reset_leg_of
  unsubscribe-Sound token runtime sound =
      on_if (Sound F near) (not runtime.owner_active) (λ idle. sound)
        (λ active.
          on_if (Sound F near) (not (contains token runtime.subscribed_tokens))
            (λ untracked. record {
              tracked = sound.tracked;
              fine = λ c m h.
                  MarketFine-transfer F near (backing F near runtime) _ c m
                    (λ at top backed.
                      Backed-without runtime runtime.token_to_condition token c at top refl
                        (other_token token at runtime.subscribed_tokens (ground (arith, untracked))
                          (sound.tracked at c backed.routed))
                        backed)
                    (sound.fine c m h);
            })
            (λ is_tracked. record {
              tracked = λ at c. tracked-drop runtime token at c sound;
              fine =
                  let condition = value_or [] (runtime.token_to_condition token) in
                  fine-put F near (backing F near runtime) _ runtime.markets condition
                    (reset_market_leg F near token) (λ c m. MarketFine-without runtime token c m)
                    (λ market.
                      MarketFine-reset_leg F near (backing F near runtime) _ condition token market
                        (λ at top apart.
                          Backed-without runtime (drop_key token runtime.token_to_condition) token
                            condition at top
                            (drop_key-miss token at runtime.token_to_condition apart) apart))
                    sound.fine;
            }))

  pub unsubscribe_all-Sound :
      (runtime : OrderbookRuntime F near)
      → Sound F near runtime
      → Sound F near (unsubscribe_all F near runtime)
  unfolding unsubscribe_all invalidate_stream_books
  unsubscribe_all-Sound runtime sound =
      on_if (Sound F near) (not runtime.owner_active) (λ idle. sound)
        (λ active. record {
          tracked = λ t c h. absurd (none-ne-some h);
          fine = λ c m h. absurd (none-ne-some h);
        })

  reset_if_there-Fine :
      (view : Backing F near) (c : Bytes) (found : Option (LiveMarketState F near))
      (m : LiveMarketState F near)
      → ((market : LiveMarketState F near)
          → found ≡ some market
          → equal_bytes market.token_yes market.token_no ≡ false)
      → reset_if_there F near found ≡ some m
      → MarketFine F near view c m
  reset_if_there-Fine view c none m apart h = absurd (none-ne-some h)
  reset_if_there-Fine view c (some market) m apart h =
      subst (λ n. MarketFine F near view c n) (some-injective h)
        (MarketFine-reset F near view c market (apart market refl))

  -- What a step keeps of a state with the same routes and markets.
  invalidate_cached_state-Sound :
      (runtime : OrderbookRuntime F near)
      → Sound F near runtime
      → Sound F near (invalidate_cached_state F near runtime)
  unfolding invalidate_cached_state invalidate_stream_books
  invalidate_cached_state-Sound runtime sound = record {
    tracked = sound.tracked;
    fine = λ c m h.
        reset_if_there-Fine _ c (runtime.markets c) m
          (λ market found. let f = sound.fine c market found in f.apart) h;
  }

  pub deactivate_stream-Sound :
      (runtime : OrderbookRuntime F near)
      → Sound F near runtime
      → Sound F near (deactivate_stream F near runtime)
  unfolding deactivate_stream
  deactivate_stream-Sound runtime sound = invalidate_cached_state-Sound _ (
      on_if (Sound F near) runtime.stream_active
        (λ active. record { tracked = sound.tracked; fine = sound.fine }) (λ inactive. sound))

  pub invalidate_stream_state-Sound :
      (runtime : OrderbookRuntime F near)
      → Sound F near runtime
      → Sound F near (invalidate_stream_state F near runtime)
  unfolding invalidate_stream_state
  invalidate_stream_state-Sound runtime sound =
      on_if (Sound F near) (not runtime.owner_active || not runtime.stream_active) (λ idle. sound)
        (λ active.
          invalidate_cached_state-Sound
            (record runtime { stream_generation = runtime.stream_generation + 1 })
            (record { tracked = sound.tracked; fine = sound.fine }))

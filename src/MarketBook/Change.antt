-- ===== src/MarketBook/Change.antt =====
-- One change keeps a side of a streamed book in order.
use polymarket_cpp_client.Prelude.{
  ◌≡◌, refl, sym, ◌∙◌, arith, Bool, true, false, not, ◌&&◌, on_if, List, [], ◌∷◌,
}
use polymarket_cpp_client.Floats.{Floats}
use polymarket_cpp_client.Amounts.{OrderSide, buy, sell}
use polymarket_cpp_client.Book.{PriceLevel, better, all_finite, is_sorted}
use polymarket_cpp_client.Book.Walk.{Asymmetric, better-asymmetric}
use polymarket_cpp_client.MarketBook.{apply_change}

-- `<` on finite doubles is a strict weak order: a price that is not below another, which is not below a
-- third, is not below the third.
abbrev pub Transitive : Floats → Type 0
Transitive F =
    (x y z : F.Double)
    → F.is_finite x ≡ true
    → F.is_finite y ≡ true
    → F.is_finite z ≡ true
    → F.below y x ≡ false
    → F.below z y ≡ false
    → F.below z x ≡ false

module _ (F : Floats) (near : F.Double → F.Double → Bool) where
  open F use {is_finite}

  better_trans :
      (side : OrderSide) (a b c : PriceLevel F)
      → Transitive F
      → is_finite a.price ≡ true
      → is_finite b.price ≡ true
      → is_finite c.price ≡ true
      → better F side b a ≡ false
      → better F side c b ≡ false
      → better F side c a ≡ false
  unfolding better
  better_trans buy a b c trans fa fb fc ab bc = trans a.price b.price c.price fa fb fc ab bc
  better_trans sell a b c trans fa fb fc ab bc = trans c.price b.price a.price fc fb fa bc ab

  pub apply_change-all_finite :
      (side : OrderSide) (change : PriceLevel F) (levels : List (PriceLevel F))
      → is_finite change.price ≡ true
      → all_finite F levels ≡ true
      → all_finite F (apply_change F near side change levels) ≡ true
  unfolding apply_change all_finite
  apply_change-all_finite side change [] fc fl = ground arith
  apply_change-all_finite side change (level ∷ levels) fc fl =
      ground (arith, apply_change-all_finite side change levels fc)

  -- The first level is not better than x.
  fits_behind : OrderSide → PriceLevel F → List (PriceLevel F) → Bool
  fits_behind side x [] = true
  fits_behind side x (level ∷ levels) = not (better F side level x)

  is_sorted-cons :
      (side : OrderSide) (x : PriceLevel F) (levels : List (PriceLevel F))
      → is_sorted F side (x ∷ levels) ≡ (fits_behind side x levels && is_sorted F side levels)
  unfolding is_sorted fits_behind
  is_sorted-cons side x [] = refl
  is_sorted-cons side x (level ∷ levels) = refl

  fits_behind_level :
      (side : OrderSide) (x level : PriceLevel F) (levels : List (PriceLevel F))
      → better F side level x ≡ false
      → fits_behind side x (level ∷ levels) ≡ true
  unfolding fits_behind
  fits_behind_level side x level levels h = rw h refl

  -- The second of two levels in order, behind what is not worse than the first.
  fits_behind_trans :
      (side : OrderSide) (x level : PriceLevel F) (levels : List (PriceLevel F))
      → Transitive F
      → is_finite x.price ≡ true
      → is_finite level.price ≡ true
      → all_finite F levels ≡ true
      → better F side level x ≡ false
      → fits_behind side level levels ≡ true
      → fits_behind side x levels ≡ true
  unfolding fits_behind all_finite
  fits_behind_trans side x level [] trans fx fl fs h fits = refl
  fits_behind_trans side x level (next ∷ levels) trans fx fl fs h fits =
      let last : better F side next x ≡ false =
        better_trans side x level next trans fx fl (ground arith) h (ground arith) in
      rw last refl

  fits_behind-apply_change :
      (side : OrderSide) (x change : PriceLevel F) (levels : List (PriceLevel F))
      → Transitive F
      → is_finite x.price ≡ true
      → all_finite F levels ≡ true
      → better F side change x ≡ false
      → fits_behind side x levels ≡ true
      → is_sorted F side levels ≡ true
      → fits_behind side x (apply_change F near side change levels) ≡ true
  unfolding apply_change fits_behind all_finite
  fits_behind-apply_change side x change [] trans fx fs h fits sorted = ground arith
  fits_behind-apply_change side x change (level ∷ levels) trans fx fs h fits sorted =
      ground
        (arith, is_sorted-cons side level levels, fits_behind_trans side x level levels trans fx)

  pub apply_change-is_sorted :
      (side : OrderSide) (change : PriceLevel F) (levels : List (PriceLevel F))
      → Asymmetric F
      → Transitive F
      → is_finite change.price ≡ true
      → all_finite F levels ≡ true
      → is_sorted F side levels ≡ true
      → is_sorted F side (apply_change F near side change levels) ≡ true
  unfolding apply_change all_finite
  apply_change-is_sorted side change [] asym trans fc fs sorted = unfold is_sorted in ground arith
  apply_change-is_sorted side change (level ∷ levels) asym trans fc fs sorted =
      let rest : (fits_behind side level levels && is_sorted F side levels) ≡ true =
        sym (is_sorted-cons side level levels) ∙ sorted in
      let tail : is_sorted F side levels ≡ true = ground arith in
      let fits : fits_behind side level levels ≡ true = ground arith in
      let S = (λ (l : List (PriceLevel F)). is_sorted F side l ≡ true) in
      on_if S (better F side level change)
        (λ before.
          let behind : better F side change level ≡ false =
            better-asymmetric F side level change asym before in
          let fits_change : fits_behind side level (apply_change F near side change levels) ≡ true =
            fits_behind-apply_change side level change levels trans (ground arith) (ground arith)
              behind fits tail in
          rw (is_sorted-cons side level (apply_change F near side change levels), fits_change)
            (apply_change-is_sorted side change levels asym trans fc (ground arith) tail))
        (λ after.
          let change_fits : fits_behind side change levels ≡ true =
            fits_behind_trans side change level levels trans fc (ground arith) (ground arith) after
              fits in
          on_if S (F.is_not_positive change.size)
            (λ removes. on_if S (near level.price change.price) (λ same. tail) (λ other. sorted))
            (λ sets.
              on_if S (near level.price change.price)
                (λ same. rw (is_sorted-cons side change levels, change_fits) tail)
                (λ other.
                  rw (is_sorted-cons side change (level ∷ levels))
                    (ground (arith, fits_behind_level side change level levels after)))))

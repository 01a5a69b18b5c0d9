-- ===== src/Book/Walk.antt =====
-- In which order the levels of a book are visited, and the rule for what a walk keeps.
use mathlib.Core.List.{reverse, Perm, reverse_perm}
use mathlib.Core.List.Perm
use polymarket_cpp_client.Prelude.{
  ◌≡◌, refl, Bool, true, false, Bool-cases, inl, inr, List, [], ◌∷◌, arith, subst,
}
use polymarket_cpp_client.Prelude.Except.{Except, ok, throw, throw-ne-ok, ok-injective}
use polymarket_cpp_client.Floats.{Floats}
use polymarket_cpp_client.Amounts.{OrderSide, buy, sell}
use polymarket_cpp_client.Book.{
  Visit, visit_levels, PriceLevel, better, is_sorted, insert_level, sort_levels, best_first,
}

-- What holds at the start and is kept by each visit that goes on gives what each stop and the end of
-- the levels must give.
pub visit_levels_rule {ℓ κ} :
    {L S : Type 0} (visit : Visit L S) (P : List L → S → Type ℓ) (Q : S → Type κ)
    → ((seen : List L) (s : S) (l : L) (s' : S)
        → P seen s
        → visit s l ≡ ok (s', false)
        → P (l ∷ seen) s')
    → ((seen : List L) (s : S) (l : L) (s' : S) → P seen s → visit s l ≡ ok (s', true) → Q s')
    → ((seen : List L) (s : S) → P seen s → Q s)
    → (seen levels : List L) (s r : S) → P seen s
    → visit_levels visit s levels ≡ ok r
    → Q r
unfolding visit_levels
visit_levels_rule visit P Q keep stop end seen [] s r h e = subst Q (ok-injective e) (end seen s h)
visit_levels_rule {S} visit P Q keep stop end seen (l ∷ levels) s r h e =
    go (visit s l) refl e
      (λ s' h' e'. visit_levels_rule visit P Q keep stop end (l ∷ seen) levels s' r h' e')
  where
    go :
        (v : Except (S × Bool))
        → visit s l ≡ v
        → elim v [
          | throw x ↦ throw x
          | ok (next, true) ↦ ok next
          | ok (next, false) ↦ visit_levels visit next levels
        ]
          ≡ ok r
        → ((s' : S) → P (l ∷ seen) s' → visit_levels visit s' levels ≡ ok r → Q r)
        → Q r
    go (throw x) v e rest = absurd (throw-ne-ok e)
    go (ok (next, true)) v e rest = subst Q (ok-injective e) (stop seen s l next h v)
    go (ok (next, false)) v e rest = rest next (keep seen s l next h v) e

-- `x < y` of finite doubles is asymmetric.
abbrev pub Asymmetric : Floats → Type 0
Asymmetric F = (x y : F.Double) → F.below x y ≡ true → F.below y x ≡ false

module _ (F : Floats) where
  insert_level-perm :
      (side : OrderSide) (a : PriceLevel F) (levels : List (PriceLevel F))
      → Perm (insert_level F side a levels) (a ∷ levels)
  unfolding insert_level
  insert_level-perm side a [] = Perm.refl (a ∷ [])
  insert_level-perm side a (b ∷ levels) = elim (Bool-cases (better F side b a)) [
    | inl t ↦
        rw t (Perm.trans (Perm.cons b (insert_level-perm side a levels)) (Perm.swap a b levels))
    | inr t ↦ rw t (Perm.refl (a ∷ b ∷ levels))
  ]

  sort_levels-perm :
      (side : OrderSide) (levels : List (PriceLevel F)) → Perm (sort_levels F side levels) levels
  unfolding sort_levels
  sort_levels-perm side [] = Perm.refl []
  sort_levels-perm side (a ∷ levels) =
      Perm.trans (insert_level-perm side a (sort_levels F side levels))
        (Perm.cons a (sort_levels-perm side levels))

  -- The walk visits every level of the book side once, whatever order the book lists them in.
  best_first-perm :
      (side : OrderSide) (levels : List (PriceLevel F)) → Perm (best_first F side levels) levels
  unfolding best_first
  best_first-perm side levels = elim (Bool-cases (is_sorted F side levels)) [
    | inl t ↦ rw t (Perm.refl levels)
    | inr t ↦ elim (Bool-cases (is_sorted F side (reverse levels))) [
      | inl u ↦ rw (t, u) (reverse_perm levels)
      | inr u ↦ rw (t, u) (sort_levels-perm side levels)
    ]
  ]

  pub better-asymmetric :
      (side : OrderSide) (a b : PriceLevel F)
      → Asymmetric F
      → better F side a b ≡ true
      → better F side b a ≡ false
  unfolding better
  better-asymmetric buy a b asym h = asym a.price b.price h
  better-asymmetric sell a b asym h = asym b.price a.price h

  insert_level-is_sorted :
      (side : OrderSide) (a : PriceLevel F) (levels : List (PriceLevel F))
      → Asymmetric F
      → is_sorted F side levels ≡ true
      → is_sorted F side (insert_level F side a levels) ≡ true
  unfolding insert_level is_sorted
  insert_level-is_sorted side a [] asym h = refl
  insert_level-is_sorted side a (b ∷ []) asym h = ground (arith, better-asymmetric side b a asym)
  insert_level-is_sorted side a (b ∷ c ∷ levels) asym h = ground (
    arith,
    better-asymmetric side b a asym,
    better-asymmetric side c a asym,
    insert_level-is_sorted side a (c ∷ levels) asym,
  )

  pub sort_levels-is_sorted :
      (side : OrderSide) (levels : List (PriceLevel F))
      → Asymmetric F
      → is_sorted F side (sort_levels F side levels) ≡ true
  unfolding sort_levels
  sort_levels-is_sorted side [] asym = unfold is_sorted in refl
  sort_levels-is_sorted side (a ∷ levels) asym =
      insert_level-is_sorted side a (sort_levels F side levels) asym
        (sort_levels-is_sorted side levels asym)

  -- A BUY meets the asks in ascending order and a SELL the bids in descending order: no level is below
  -- the one before it, or above it.
  unfoldable pub IsBestFirst : OrderSide → List (PriceLevel F) → Type 0
  IsBestFirst side [] = Unit
  IsBestFirst side (a ∷ []) = Unit
  IsBestFirst buy (a ∷ b ∷ levels) =
      (F.below b.price a.price ≡ false) × IsBestFirst buy (b ∷ levels)
  IsBestFirst sell (a ∷ b ∷ levels) =
      (F.below a.price b.price ≡ false) × IsBestFirst sell (b ∷ levels)

  is_sorted-IsBestFirst :
      (side : OrderSide) (levels : List (PriceLevel F))
      → is_sorted F side levels ≡ true
      → IsBestFirst side levels
  unfolding is_sorted IsBestFirst better
  is_sorted-IsBestFirst side [] h = tt
  is_sorted-IsBestFirst side (a ∷ []) h = tt
  is_sorted-IsBestFirst buy (a ∷ b ∷ levels) h =
      (ground arith, is_sorted-IsBestFirst buy (b ∷ levels) (ground arith))
  is_sorted-IsBestFirst sell (a ∷ b ∷ levels) h =
      (ground arith, is_sorted-IsBestFirst sell (b ∷ levels) (ground arith))

  best_first-is_sorted :
      (side : OrderSide) (levels : List (PriceLevel F))
      → Asymmetric F
      → is_sorted F side (best_first F side levels) ≡ true
  unfolding best_first
  best_first-is_sorted side levels asym = ground (arith, sort_levels-is_sorted side levels asym)

  -- A walk visits exactly the levels of the book side, each as often as it is listed, from the best
  -- price outward: no ask after one with a higher price for a BUY, and no bid after one with a lower price
  -- for a SELL, whether the book lists the best price first, last, or neither. The comparison of doubles is
  -- asymmetric.
  pub best_first-IsBestFirst :
      (side : OrderSide) (levels : List (PriceLevel F))
      → Asymmetric F
      → Perm (best_first F side levels) levels × IsBestFirst side (best_first F side levels)
  best_first-IsBestFirst side levels asym = (
    best_first-perm side levels,
    is_sorted-IsBestFirst side (best_first F side levels) (best_first-is_sorted side levels asym),
  )

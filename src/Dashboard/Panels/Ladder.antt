-- ===== src/Dashboard/Panels/Ladder.antt =====
-- The levels that the table of the order book shows.
use quant_sim_x.Prelude.{
  ℕ, zero, suc, ◌≤◌, ◌<◌, ◌≡◌, refl, ap, sym, ◌∙◌, Option, none, some, List, [], ◌∷◌, length,
  get_or, take, drop, ltb, arith, Bool-cases, inl, inr, length-take, ltb→lt, ◌⊎◌,
}
use Prim.Native.Nat.{min, max}
use quant_sim_x.Double.{Double}
use quant_sim_x.OrderBook.{Level, OrderBook, no_level}
use quant_sim_x.Dashboard.Panels.{BookRow, level_at, book_rows_from, book_rows}

enough : (x y : ℕ) → let n = min (max x y) 15 in ((15 ≤ n) ⊎ (x ≤ n)) × ((15 ≤ n) ⊎ (y ≤ n))
enough x y = (omega arith, omega arith)

module _ {W : Type 0} where
  -- the levels that are there, from the first row on
  abbrev pub somes : List (Option (Level W)) → List (Level W)
  somes [] = []
  somes (none ∷ os) = somes os
  somes (some l ∷ os) = l ∷ somes os

  abbrev pub bids_of : List (BookRow W) → List (Option (Level W))
  bids_of [] = []
  bids_of (r ∷ rs) = r.bid ∷ bids_of rs

  abbrev pub asks_of : List (BookRow W) → List (Option (Level W))
  asks_of [] = []
  asks_of (r ∷ rs) = r.ask ∷ asks_of rs

  take-short :
      (n m : ℕ) (xs : List (Level W)) → length xs ≤ n → length xs ≤ m → take n xs ≡ take m xs
  take-short zero zero xs h g = refl
  take-short zero (suc m) [] h g = refl
  take-short (suc n) zero [] h g = refl
  take-short (suc n) (suc m) [] h g = refl
  take-short zero (suc m) (x ∷ xs) h g = absurd (omega (arith, h))
  take-short (suc n) zero (x ∷ xs) h g = absurd (omega (arith, g))
  take-short (suc n) (suc m) (x ∷ xs) h g =
      ap (λ ys. x ∷ ys) (take-short n m xs (omega (arith, h)) (omega (arith, g)))

  take-nil : (n : ℕ) → take {A = Level W} n [] ≡ []
  take-nil zero = refl
  take-nil (suc n) = refl

  drop-out : (i cnt : ℕ) (xs : List (Level W)) → cnt ≤ i → drop i (take cnt xs) ≡ []
  drop-out zero zero xs h = refl
  drop-out (suc i) zero xs h = refl
  drop-out zero (suc c) xs h = absurd (omega (arith, h))
  drop-out (suc i) (suc c) [] h = refl
  drop-out (suc i) (suc c) (x ∷ xs) h = drop-out i c xs (omega (arith, h))

  drop-in :
      (i cnt : ℕ) (xs : List (Level W)) (l : Level W)
      → i < cnt
      → cnt ≤ length xs
      → drop i (take cnt xs) ≡ get_or xs i l ∷ drop (suc i) (take cnt xs)
  drop-in i zero xs l h g = absurd (omega (arith, h))
  drop-in i (suc c) [] l h g = absurd (omega (arith, g))
  drop-in zero (suc c) (x ∷ xs) l h g = refl
  drop-in (suc i) (suc c) (x ∷ xs) l h g = drop-in i c xs l (omega (arith, h)) (omega (arith, g))

module _ {W : Type 0} ⦃d : Double W⦄ where
  -- the options of `n` rows from `i` on
  abbrev pub levels_from : List (Level W) → ℕ → ℕ → ℕ → List (Option (Level W))
  levels_from levels cnt i zero = []
  levels_from levels cnt i (suc n) = level_at levels cnt i ∷ levels_from levels cnt (suc i) n

  bids_of-rows :
      (ob : OrderBook W) (i n : ℕ)
      → (bids_of (book_rows_from ob i n) ≡ levels_from ob.bids.levels ob.bids.count i n)
        × (asks_of (book_rows_from ob i n) ≡ levels_from ob.asks.levels ob.asks.count i n)
  unfolding book_rows_from
  bids_of-rows ob i zero = (refl, refl)
  bids_of-rows ob i (suc n) =
      let (b, a) = bids_of-rows ob (suc i) n in
      (
        ap (λ os. level_at ob.bids.levels ob.bids.count i ∷ os) b,
        ap (λ os. level_at ob.asks.levels ob.asks.count i ∷ os) a,
      )

  somes-levels_from :
      (levels : List (Level W)) (cnt i n : ℕ)
      → cnt ≤ length levels
      → somes (levels_from levels cnt i n) ≡ take n (drop i (take cnt levels))
  somes-levels_from levels cnt i zero h = refl
  somes-levels_from levels cnt i (suc n) h =
      let rest = somes-levels_from levels cnt (suc i) n h in
      elim (Bool-cases (ltb i cnt)) [
        | inl e ↦
            let there = drop-in i cnt levels no_level (ltb→lt i cnt e) h in
            rw (e) (ap (λ ls. get_or levels i no_level ∷ ls) rest ∙ sym (ap (take (suc n)) there))
        | inr e ↦
            let low : cnt ≤ i = ground (arith, e) in
            rw (e) (
              rest
              ∙ ap (take n) (drop-out (suc i) cnt levels (omega (arith, low)))
              ∙ take-nil n
              ∙ sym (ap (take (suc n)) (drop-out i cnt levels low)))
      ]

  shown_side :
      (levels : List (Level W)) (cnt n : ℕ)
      → cnt ≤ length levels
      → (15 ≤ n) ⊎ (cnt ≤ n)
      → n ≤ 15
      → somes (levels_from levels cnt 0 n) ≡ take 15 (take cnt levels)
  shown_side levels cnt n h (inl g) k =
      somes-levels_from levels cnt 0 n h
      ∙ ap (λ m. take m (take cnt levels)) {y = 15} (omega (arith, g, k))
  shown_side levels cnt n h (inr g) k =
      let short : length (take cnt levels) ≤ cnt = omega (arith, length-take cnt levels) in
      somes-levels_from levels cnt 0 n h
      ∙ take-short n 15 (take cnt levels) (omega (arith, short, g)) (omega (arith, short, g, k))

  -- Where the counts of the book are within its arrays, the table shows, row by row, the first 15 levels
  -- of either side, each once and in its order.
  pub book_rows_lem :
      (ob : OrderBook W)
      → ob.bids.count ≤ length ob.bids.levels
      → ob.asks.count ≤ length ob.asks.levels
      → (somes (bids_of (book_rows ob)) ≡ take 15 (take ob.bids.count ob.bids.levels))
        × (somes (asks_of (book_rows ob)) ≡ take 15 (take ob.asks.count ob.asks.levels))
  unfolding book_rows
  book_rows_lem ob h g =
      let n = min (max ob.bids.count ob.asks.count) 15 in
      let (b, a) = bids_of-rows ob 0 n in
      (
        ap somes b
            ∙ shown_side ob.bids.levels ob.bids.count n h (enough ob.bids.count ob.asks.count).0
                (omega arith),
        ap somes a
            ∙ shown_side ob.asks.levels ob.asks.count n g (enough ob.bids.count ob.asks.count).1
                (omega arith),
      )

-- ===== src/PackedBook/Best.antt =====
-- The whole book after any insertions: two sorted lists of packed prices, whose first ones are the
-- best prices.
use quant_sim_x.Prelude.{
  ℕ, zero, suc, ◌≤◌, ◌≡◌, refl, ap, Bool, true, false, List, [], ◌∷◌, All, arith, length, replicate,
  if◌then◌else◌, get_or, Bool-cases, inl, inr,
}
use quant_sim_x.Double.{Double, IsOrdered, gt, nought}
use quant_sim_x.PackedBook.{
  PackedSide, PackedBook, PackedOrder, no_order, price_of, price, raw_price, insert_bid, insert_ask,
  insert_order, clear, best_price, best_level, best_bid, best_ask,
}
use quant_sim_x.PackedBook.Sorted.{falling, rising, falling-IsTotal, rising-IsTotal}
use quant_sim_x.PackedBook.Shift.{prices, max_raw, InRange, Places}
use quant_sim_x.PackedBook.Refine.{IsListed, insert_order-IsListed, with_price}

-- One call of `insert_bid` or `insert_ask`.
pub record Insertion {ℓ} (W : Type ℓ) : Type ℓ where
  pub for_bid : Bool
  pub px : W
  pub quantity : W

clear-IsListed :
    (ahead : ℕ → ℕ → Bool) (s : PackedSide)
    → length s.orders ≡ 64
    → IsListed ahead (record s { mask = replicate 64 false; cnt = 0 }) []
clear-IsListed ahead s h = record {
  orders_all = h;
  bits_all = refl;
  counted = refl;
  few = omega arith;
  listed = refl;
  lowest_bit = refl;
  ordered = tt;
  small = tt;
}

module _ {W : Type 0} ⦃d : Double W⦄ where
  open d use {lt}

  -- the price of the first entry, and 0 where there is none
  abbrev pub first_price : List ℕ → W
  first_price [] = nought
  first_price (r ∷ rs) = price_of r

  best_price_lem :
      (ahead : ℕ → ℕ → Bool) (s : PackedSide) (rs : List ℕ)
      → IsListed ahead s rs
      → best_price s ≡ first_price rs
  unfolding best_price best_level price
  best_price_lem ahead s [] v = rw (v.lowest_bit, best_price) refl
  best_price_lem ahead s (r ∷ rs) v =
      rw (v.lowest_bit, best_price) (ap price_of (head s.orders s.cnt v.counted v.listed))
    where
      head :
          (os : List PackedOrder) (n : ℕ)
          → n ≡ suc (length rs)
          → prices os n ≡ r ∷ rs
          → (get_or os 0 no_order).price_raw ≡ r
      head os zero e m = absurd (omega (arith, e))
      head [] (suc n) e m = ground (arith, m)
      head (o ∷ os) (suc n) e m = ground (arith, m)

  not_both : IsOrdered W → (x y : W) → lt y x ≡ true → lt x y ≡ false
  not_both o x y e = elim (Bool-cases (lt x y)) [
    | inl f ↦ absurd (ground (arith, o.lt_trans x y x f e, o.lt_irrefl x))
    | inr f ↦ f
  ]

module _ {W : Type 0} ⦃d : Double W⦄ (to_uint32 : W → ℕ) where
  open d use {lt}

  -- What packing a price relies on: on prices from 0 to 40 millions it is monotone, and it gives back
  -- a packed price. IEEE arithmetic has this, since the 0.5 that is added is far more than the error of
  -- the products.
  pub record IsPacking : Type 0 where
    pub monotone :
        (x y : W)
        → InRange x
        → InRange y
        → lt x y ≡ false
        → raw_price to_uint32 y ≤ raw_price to_uint32 x
    pub bounded : (x : W) → InRange x → raw_price to_uint32 x ≤ max_raw
    pub back_fits : (r : ℕ) → r ≤ max_raw → InRange {W = W} (price_of r)
    pub back : (r : ℕ) → r ≤ max_raw → raw_price to_uint32 (price_of r) ≡ r

  abbrev pub insert : PackedBook → Insertion W → PackedBook
  insert b e =
      if e.for_bid
      then insert_bid to_uint32 b e.px e.quantity
      else insert_ask to_uint32 b e.px e.quantity

  abbrev pub run : PackedBook → List (Insertion W) → PackedBook
  run b [] = b
  run b (e ∷ es) = run (insert b e) es

  -- the packed prices of both sides, highest bid first and lowest ask first, 64 of each at most
  abbrev pub listed : List ℕ × List ℕ → List (Insertion W) → List ℕ × List ℕ
  listed m [] = m
  listed (bids, asks) (e ∷ es) =
      let r = raw_price to_uint32 e.px in
      listed
        (if e.for_bid then (with_price falling r bids, asks) else (bids, with_price rising r asks))
        es

  falling-Places :
      IsOrdered W
      → IsPacking
      → (px : W) → InRange px
      → Places (λ p. lt p px) falling (raw_price to_uint32 px)
  falling-Places o k px f y h =
      let p : W = price_of y in
      (
        λ e. ground (arith, k.back y h, k.monotone px p f (k.back_fits y h) (not_both o px p e)),
        λ e. ground (arith, k.back y h, k.monotone p px (k.back_fits y h) f e),
      )

  rising-Places :
      IsOrdered W
      → IsPacking
      → (px : W) → InRange px
      → Places (λ p. gt p px) rising (raw_price to_uint32 px)
  rising-Places o k px f y h =
      let p : W = price_of y in
      (
        λ e. ground (arith, k.back y h, k.monotone p px (k.back_fits y h) f (not_both o p px e)),
        λ e. ground (arith, k.back y h, k.monotone px p f (k.back_fits y h) e),
      )

  -- Each side of the book is a list of packed prices.
  pub record IsShown (b : PackedBook) (m : List ℕ × List ℕ) : Type 0 where
    pub bids_listed : IsListed falling b.bids m.0
    pub asks_listed : IsListed rising b.asks m.1

  run-IsShown :
      IsOrdered W
      → IsPacking
      → (b : PackedBook) (m : List ℕ × List ℕ) (es : List (Insertion W))
      → All (λ e. InRange e.px) es
      → IsShown b m
      → IsShown (run b es) (listed m es)
  unfolding insert_bid insert_order insert_ask
  run-IsShown o k b m [] r v = v
  run-IsShown o k b (bids, asks) (e ∷ es) (f, fs) v = elim (Bool-cases e.for_bid) [
    | inl t ↦ rw (t) (
        run-IsShown o k (insert_bid to_uint32 b e.px e.quantity)
          (with_price falling (raw_price to_uint32 e.px) bids, asks) es fs
          (record {
            bids_listed =
                insert_order-IsListed to_uint32 (λ p. lt p e.px) falling 0 1 b.bids e.px e.quantity
                  bids falling-IsTotal (falling-Places o k e.px f) (k.bounded e.px f) v.bids_listed;
            asks_listed = v.asks_listed;
          }))
    | inr t ↦ rw (t) (
        run-IsShown o k (insert_ask to_uint32 b e.px e.quantity)
          (bids, with_price rising (raw_price to_uint32 e.px) asks) es fs
          (record {
            bids_listed = v.bids_listed;
            asks_listed =
                insert_order-IsListed to_uint32 (λ p. gt p e.px) rising 64 0 b.asks e.px e.quantity
                  asks rising-IsTotal (rising-Places o k e.px f) (k.bounded e.px f) v.asks_listed;
          }))
  ]

  -- After `clear` and any insertions of prices from 0 to 40 millions into a book with its two arrays,
  -- whatever these held: each side is the sorted list of the rounded prices that were inserted, the
  -- first 64 of them where there were more, the highest bid and the lowest ask first; and the best bid
  -- and the best ask are the first prices of these lists, or 0 where there is none.
  pub run_lem :
      IsOrdered W
      → IsPacking
      → (b : PackedBook) (es : List (Insertion W)) → length b.bids.orders ≡ 64
      → length b.asks.orders ≡ 64
      → All (λ e. InRange e.px) es
      → let c = run (clear b) es in
        let m = listed ([], []) es in
        IsShown c m
        × (best_bid {W = W} c ≡ first_price m.0)
        × (best_ask {W = W} c ≡ first_price m.1)
  unfolding best_bid best_ask clear
  run_lem o k b es h g fs =
      let start : IsShown (clear b) ([], []) = record {
        bids_listed = clear-IsListed falling b.bids h;
        asks_listed = clear-IsListed rising b.asks g;
      } in
      let v = run-IsShown o k (clear b) ([], []) es fs start in
      let c = run (clear b) es in
      let m = listed ([], []) es in
      (
        v,
        best_price_lem falling c.bids m.0 v.bids_listed,
        best_price_lem rising c.asks m.1 v.asks_listed,
      )

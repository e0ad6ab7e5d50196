-- ===== src/OrderBook.antt =====
-- `OrderBook` (include/OrderBook.h, src/OrderBook.cpp): two arrays of 256 levels, the best one first.
-- A method that may throw returns the book as the exception leaves it.
pub mod Arrays
pub mod Ladder
pub mod Insertion
pub mod Refine
pub mod Messages
pub mod Best
pub mod Lookup
mod Tests
use quant_sim_x.Prelude.{
  ℕ, zero, suc, ◌+◌, ◌-◌, Bool, true, false, ◌&&◌, Option, none, some, List, [], ◌∷◌, get_or, set,
  ltb, if◌then◌else◌,
}
use quant_sim_x.Double.{Double, gt, nought}

abbrev pub max_levels : ℕ
max_levels = 256

pub record Level {ℓ} (W : Type ℓ) : Type ℓ where
  pub price : W
  pub quantity : W

-- `bids_` with `bid_count_`, or `asks_` with `ask_count_`
pub record Side {ℓ} (W : Type ℓ) : Type ℓ where
  pub levels : List (Level W)
  pub count : ℕ

pub record OrderBook {ℓ} (W : Type ℓ) : Type ℓ where
  pub bids : Side W
  pub asks : Side W
  pub last_update_id : ℕ
  pub last_trade_price : W
  pub last_trade_qty : W
  pub last_trade_time : ℕ

-- What a method leaves behind, and whether it threw.
pub record Outcome {ℓ} (S : Type ℓ) : Type ℓ where
  pub state : S
  pub thrown : Bool

module _ {ℓ} {W : Type ℓ} ⦃d : Double W⦄ where
  open d use {add, mul, lt, eq, decimal}

  -- A level as it is constructed; it also stands for a read out of the array.
  abbrev pub no_level : Level W
  no_level = record { price = nought; quantity = nought }

  -- `levels[j] = levels[j - 1]` for `j` from `i + n` down to `i + 1`
  pub shift : List (Level W) → ℕ → ℕ → List (Level W)
  shift ls i zero = ls
  shift ls i (suc n) = shift (set ls (i + suc n) (get_or ls (i + n) no_level)) i n

  -- `levels[i] = levels[i + 1]` for the `n` indices from `i` on
  pub close : List (Level W) → ℕ → ℕ → List (Level W)
  close ls i zero = ls
  close ls i (suc n) = close (set ls i (get_or ls (suc i) no_level)) (suc i) n

  -- The two sides differ in the order alone: `before p q` is `p > q` for bids, `p < q` for asks.
  module _ (before : W → W → Bool) where
    -- the first `while` of `insert_bid` and `insert_ask`, with `n` levels left
    pub place : List (Level W) → W → ℕ → ℕ → ℕ
    place ls price zero i = i
    place ls price (suc n) i =
        if before (get_or ls i no_level).price price then place ls price n (suc i) else i

    pub insert_level : Side W → W → W → Side W
    unfolding place shift
    insert_level s price qty =
        let i = place s.levels price s.count 0 in
        if ltb i max_levels
        then record {
          levels =
              set (shift s.levels i (s.count - i)) i (record { price = price; quantity = qty });
          count = if ltb s.count max_levels then s.count + 1 else s.count;
        }
        else s

  pub erase_level : Side W → ℕ → Side W
  unfolding close
  erase_level s idx = record {
    levels = close s.levels idx (s.count - 1 - idx);
    count = s.count - 1;
  }

  -- the first of the `n` levels from `i` on whose price is `price`
  pub find_price : List (Level W) → W → ℕ → ℕ → Option ℕ
  find_price ls price zero i = none
  find_price ls price (suc n) i =
      if eq (get_or ls i no_level).price price then some i else find_price ls price n (suc i)

  abbrev pub set_quantity : Side W → ℕ → W → Side W
  set_quantity s i qty = record s {
    levels = set s.levels i (record (get_or s.levels i no_level) { quantity = qty });
  }

  -- the body of a loop of `apply_depth_update`
  pub update_level : (W → W → Bool) → Side W → W → W → Side W
  unfolding find_price insert_level erase_level
  update_level before s price qty =
      let found = find_price s.levels price s.count 0 in
      if eq qty nought then elim found [ none ↦ s | some i ↦ erase_level s i ] else elim found [
        | none ↦ if ltb s.count max_levels then insert_level before s price qty else s
        | some i ↦ set_quantity s i qty
      ]

  -- the body of a loop of `init_from_snapshot`
  pub snapshot_level : (W → W → Bool) → Side W → W → W → Side W
  unfolding insert_level
  snapshot_level before s price qty =
      if gt qty nought && ltb s.count max_levels then insert_level before s price qty else s

  pub insert_bid : Side W → W → W → Side W
  insert_bid = insert_level gt

  pub insert_ask : Side W → W → W → Side W
  insert_ask = insert_level lt

  pub get_best_bid : OrderBook W → W
  get_best_bid b = (get_or b.bids.levels 0 no_level).price

  pub get_best_ask : OrderBook W → W
  get_best_ask b = (get_or b.asks.levels 0 no_level).price

  pub get_mid_price : OrderBook W → W
  unfolding get_best_bid get_best_ask
  get_mid_price b =
      let bid = get_best_bid b in
      let ask = get_best_ask b in
      if gt bid nought && gt ask nought then mul (add bid ask) (decimal 5 1) else nought

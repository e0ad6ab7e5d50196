-- ===== src/PackedBook.antt =====
-- `PackedOrder` and `BitmaskOrderBook` (include/HFTPerf.h): 64 orders a side in the order of their
-- prices, each price packed into 32 bits, and a mask of the entries in use, which is the list of its
-- 64 bits as in BitBook. `to_uint32` is the conversion of a `double` by `static_cast<uint32_t>`.
mod Sorted
mod Shift
mod Refine
mod Best
mod Tests
use quant_sim_x.Prelude.{
  ℕ, zero, suc, ◌+◌, ◌%◌, Bool, true, false, not, ◌&&◌, ◌||◌, Option, none, some, List, [], ◌∷◌,
  get_or, set, replicate, ◌==◌, leb, if◌then◌else◌,
}
use quant_sim_x.Double.{Double, gt, nought}
use quant_sim_x.BitBook.{get_best_level}

pub record PackedOrder : Type 0 where
  pub id : ℕ
  pub price_raw : ℕ
  pub qty_raw : ℕ
  pub flags : ℕ
  pub ts_ns : ℕ

unfoldable pub is_bid : PackedOrder → Bool
is_bid o = o.flags % 2 == 1

-- an entry out of range, which no access of the code reads
abbrev pub no_order : PackedOrder
no_order = record { id = 0; price_raw = 0; qty_raw = 0; flags = 0; ts_ns = 0 }

pub record PackedSide : Type 0 where
  pub orders : List PackedOrder
  pub mask : List Bool
  pub cnt : ℕ

pub record PackedBook : Type 0 where
  pub bids : PackedSide
  pub asks : PackedSide

abbrev pub max_levels : ℕ
max_levels = 64

abbrev pub clear_side : PackedSide → PackedSide
clear_side s = record s { mask = replicate max_levels false; cnt = 0 }

unfoldable pub clear : PackedBook → PackedBook
clear b = record { bids = clear_side b.bids; asks = clear_side b.asks }

-- `best_bid_level` and `best_ask_level`; `none` is -1
unfoldable pub best_level : PackedSide → Option ℕ
best_level s = get_best_level s.mask

module _ {ℓ} {W : Type ℓ} ⦃d : Double W⦄ where
  open d use {of_nat, decimal, add, sub, mul, lt, eq}

  unfoldable pub price_of : ℕ → W
  price_of raw = mul (of_nat raw) (decimal 1 2)

  unfoldable pub price : PackedOrder → W
  unfolding price_of
  price o = price_of o.price_raw

  unfoldable pub qty : PackedOrder → W
  qty o = mul (of_nat o.qty_raw) (decimal 1 5)

  -- the while loop, which looks at the entry in front of `i`, and whose test on it is `past`
  unfoldable pub shift : (W → Bool) → List PackedOrder → ℕ → ℕ × List PackedOrder
  unfolding price
  shift past os zero = (zero, os)
  shift past os (suc i) = elim (past (price (get_or os i no_order))) [
    | true ↦ shift past (set os (suc i) (get_or os i no_order)) i
    | false ↦ (suc i, os)
  ]

  unfoldable pub best_price : PackedSide → W
  unfolding best_level price
  best_price s = elim (best_level s) [ none ↦ nought | some l ↦ price (get_or s.orders l no_order) ]

  unfoldable pub best_bid : PackedBook → W
  unfolding best_price
  best_bid b = best_price b.bids

  unfoldable pub best_ask : PackedBook → W
  unfolding best_price
  best_ask b = best_price b.asks

  unfoldable pub spread : PackedBook → W
  unfolding best_bid best_ask
  spread b =
      if not (eq (best_bid b) nought) && not (eq (best_ask b) nought)
      then sub (best_ask b) (best_bid b)
      else nought

module _ {ℓ} {W : Type ℓ} ⦃d : Double W⦄ (to_uint32 : W → ℕ) where
  open d use {of_nat, decimal, add, sub, mul, lt, eq}

  unfoldable pub raw_price : W → ℕ
  raw_price p = to_uint32 (add (mul p (of_nat 100)) (decimal 5 1))

  unfoldable pub raw_qty : W → ℕ
  raw_qty q = to_uint32 (add (mul q (of_nat 100000)) (decimal 5 1))

  unfoldable pub set_price : PackedOrder → W → PackedOrder
  unfolding raw_price
  set_price o p = record o { price_raw = raw_price p }

  unfoldable pub set_qty : PackedOrder → W → PackedOrder
  unfolding raw_qty
  set_qty o q = record o { qty_raw = raw_qty q }

  -- What both insertions do, from the id of the first entry on, with the flags of the side.
  unfoldable pub insert_order : (W → Bool) → ℕ → ℕ → PackedSide → W → W → PackedSide
  unfolding shift set_price set_qty
  insert_order past first_id flags s px qty =
      if leb max_levels s.cnt
      then s
      else (let (i, os) = shift past s.orders s.cnt in
          let o =
            set_qty (set_price (record (get_or os i no_order) { id = i + first_id }) px) qty in
          record {
            orders = set os i (record o { ts_ns = 0; flags = flags });
            mask = set s.mask i true;
            cnt = s.cnt + 1;
          })

  unfoldable pub insert_bid : PackedBook → W → W → PackedBook
  unfolding insert_order
  insert_bid b px qty = record b { bids = insert_order (λ p. lt p px) 0 1 b.bids px qty }

  unfoldable pub insert_ask : PackedBook → W → W → PackedBook
  unfolding insert_order
  insert_ask b px qty = record b { asks = insert_order (λ p. gt p px) max_levels 0 b.asks px qty }

-- ===== src/BitBook.antt =====
-- `BitScanningOrderBook` (include/HFT.h): 64 levels a side with a mask of those in use, and a log of
-- orders. A mask is the list of its 64 bits, the lowest first; `__builtin_ctzll` of a mask that is
-- not 0 is the index of its first `true`.
pub mod Levels
mod Tests
use quant_sim_x.Prelude.{
  ℕ, zero, suc, ◌+◌, ◌-◌, Bool, true, false, ◌&&◌, Option, none, some, List, [], ◌∷◌, get_or, set,
  replicate, ◌==◌, leb, sub64, if◌then◌else◌,
}

pub record PriceLevel : Type 0 where
  pub price_nano : ℕ
  pub quantity : ℕ

-- `side` is 1 for a bid; `status` is 1 for a live order and 2 for one that was removed.
pub record Order : Type 0 where
  pub order_id : ℕ
  pub price_nano : ℕ
  pub quantity : ℕ
  pub side : ℕ
  pub status : ℕ

pub record BitSide : Type 0 where
  pub levels : List PriceLevel
  pub bitmask : List Bool
  pub count : ℕ

pub record BitBook : Type 0 where
  pub bids : BitSide
  pub asks : BitSide
  pub orders : List Order
  pub order_count : ℕ

abbrev pub max_price_levels : ℕ
max_price_levels = 64

abbrev pub max_orders : ℕ
max_orders = 1024

abbrev pub no_price : PriceLevel
no_price = record { price_nano = 0; quantity = 0 }

abbrev pub no_order : Order
no_order = record { order_id = 0; price_nano = 0; quantity = 0; side = 0; status = 0 }

abbrev pub empty_side : BitSide
empty_side = record {
  levels = replicate max_price_levels no_price;
  bitmask = replicate max_price_levels false;
  count = 0;
}

abbrev pub reset : BitBook
reset = record {
  bids = empty_side;
  asks = empty_side;
  orders = replicate max_orders no_order;
  order_count = 0;
}

-- `__builtin_ctzll(~bitmask)`, `none` for a full mask
abbrev pub find_empty_level : List Bool → Option ℕ
find_empty_level [] = none
find_empty_level (false ∷ bits) = some 0
find_empty_level (true ∷ bits) = elim (find_empty_level bits) [
  | none ↦ none
  | some l ↦ some (suc l)
]

-- `get_best_bid_level` and `get_best_ask_level`; `none` is -1
abbrev pub get_best_level : List Bool → Option ℕ
get_best_level [] = none
get_best_level (true ∷ bits) = some 0
get_best_level (false ∷ bits) = elim (get_best_level bits) [ none ↦ none | some l ↦ some (suc l) ]

unfoldable pub get_best_price : BitSide → ℕ
get_best_price s = elim (get_best_level s.bitmask) [
  | none ↦ 0
  | some l ↦ (get_or s.levels l no_price).price_nano
]

unfoldable pub get_best_qty : BitSide → ℕ
get_best_qty s = elim (get_best_level s.bitmask) [
  | none ↦ 0
  | some l ↦ (get_or s.levels l no_price).quantity
]

unfoldable pub take_level : BitSide → ℕ → ℕ → ℕ → BitSide
take_level s l price_nano quantity = record {
  levels = set s.levels l (record { price_nano = price_nano; quantity = quantity });
  bitmask = set s.bitmask l true;
  count = s.count + 1;
}

abbrev pub side_of : BitBook → Bool → BitSide
side_of b is_bid = if is_bid then b.bids else b.asks

abbrev pub with_side : BitBook → Bool → BitSide → BitBook
with_side b is_bid s = if is_bid then record b { bids = s } else record b { asks = s }

-- `none` is -1.
unfoldable pub add_order : BitBook → ℕ → ℕ → ℕ → Bool → Option ℕ × BitBook
unfolding take_level
add_order b order_id price_nano quantity is_bid =
    let s = side_of b is_bid in
    if leb max_orders b.order_count then (none, b) else elim (find_empty_level s.bitmask) [
      | none ↦ (none, b)
      | some l ↦
          let c = with_side b is_bid (take_level s l price_nano quantity) in
          (
            some b.order_count,
            record c {
              orders = set c.orders b.order_count (record {
                order_id = order_id;
                price_nano = price_nano;
                quantity = quantity;
                side = if is_bid then 1 else 0;
                status = 1;
              });
              order_count = b.order_count + 1;
            },
          )
    ]

-- the loop over the levels of `remove_order`, with `n` levels left: the first of the price
abbrev pub find_level : List PriceLevel → ℕ → ℕ → ℕ → Option ℕ
find_level ls price zero l = none
find_level ls price (suc n) l =
    let rest = find_level ls price n (suc l) in
    if (get_or ls l no_price).price_nano == price then some l else rest

unfoldable pub free_level : BitSide → ℕ → BitSide
free_level s price = elim (find_level s.levels price max_price_levels 0) [
  | none ↦ s
  | some l ↦ record s { bitmask = set s.bitmask l false; count = sub64 s.count 1 }
]

-- the loop over the orders, with `n` of them left
abbrev pub find_live : List Order → ℕ → ℕ → ℕ → Option ℕ
find_live os order_id zero i = none
find_live os order_id (suc n) i =
    let o = get_or os i no_order in
    let rest = find_live os order_id n (suc i) in
    if o.order_id == order_id && o.status == 1 then some i else rest

unfoldable pub remove_order : BitBook → ℕ → BitBook
unfolding free_level
remove_order b order_id = elim (find_live b.orders order_id b.order_count 0) [
  | none ↦ b
  | some i ↦
      let o = get_or b.orders i no_order in
      let is_bid = o.side == 1 in
      with_side (record b { orders = set b.orders i (record o { status = 2 }) }) is_bid
        (free_level (side_of b is_bid) o.price_nano)
]

-- `find_order`: the first order of the id, whatever its status
abbrev pub find_order : List Order → ℕ → ℕ → ℕ → Option Order
find_order os order_id zero i = none
find_order os order_id (suc n) i =
    let o = get_or os i no_order in
    let rest = find_order os order_id n (suc i) in if o.order_id == order_id then some o else rest

-- ===== src/BitBook/Levels.antt =====
-- Which level `add_order` takes, and which one is the best.
use quant_sim_x.Prelude.{
  ℕ, zero, suc, ◌+◌, ◌<◌, ◌≡◌, refl, ◌∙◌, Bool, true, false, not, some, List, [], ◌∷◌, arith,
  length, length-set, get_or, set, get_or-set_self, get_or-set_ne, leb, if◌then◌else◌, Option-cases,
  inl, inr,
}
use quant_sim_x.BitBook.{
  BitSide, BitBook, PriceLevel, Order, max_orders, no_order, no_price, find_empty_level,
  get_best_level, get_best_price, take_level, add_order, side_of,
}

-- the number of bits that are set
abbrev pub ones : List Bool → ℕ
ones [] = 0
ones (true ∷ bits) = suc (ones bits)
ones (false ∷ bits) = ones bits

-- Every bit below the level is set, and its own is not.
abbrev pub LowestFree : List Bool → ℕ → Type 0
LowestFree [] l = ⊥
LowestFree (b ∷ bits) zero = b ≡ false
LowestFree (b ∷ bits) (suc l) = (b ≡ true) × LowestFree bits l

find_empty_level-LowestFree :
    (bits : List Bool) (l : ℕ)
    → find_empty_level bits ≡ some l
    → LowestFree bits l × (ones (set bits l true) ≡ suc (ones bits)) × (l < length bits)
find_empty_level-LowestFree [] l e = ground arith
find_empty_level-LowestFree (false ∷ bits) zero e = (refl, refl, omega arith)
find_empty_level-LowestFree (false ∷ bits) (suc l) e = ground arith
find_empty_level-LowestFree (true ∷ bits) zero e = ground arith
find_empty_level-LowestFree (true ∷ bits) (suc l) e =
    ground (arith, find_empty_level-LowestFree bits l)

first_kept :
    (bits : List Bool) (l : ℕ)
    → get_best_level bits ≡ some 0
    → find_empty_level bits ≡ some l
    → (0 < l) × (get_best_level (set bits l true) ≡ some 0)
first_kept [] l e f = ground arith
first_kept (false ∷ bits) l e f = ground arith
first_kept (true ∷ bits) zero e f = ground arith
first_kept (true ∷ bits) (suc l) e f = (omega arith, refl)

-- A side whose count is the number of bits, with its 64 levels and bits.
pub record IsCounted (s : BitSide) : Type 0 where
  pub levels_all : length s.levels ≡ 64
  pub bits_all : length s.bitmask ≡ 64
  pub counted : s.count ≡ ones s.bitmask

take_level_lem :
    (s : BitSide) (l price qty : ℕ)
    → IsCounted s
    → find_empty_level s.bitmask ≡ some l
    → IsCounted (take_level s l price qty)
      × (get_or (take_level s l price qty).levels l no_price
          ≡ record { price_nano = price; quantity = qty })
      × (get_or (take_level s l price qty).bitmask l false ≡ true)
unfolding take_level
take_level_lem s l price qty v e =
    let p : PriceLevel = record { price_nano = price; quantity = qty } in
    let (_, more, inside) = find_empty_level-LowestFree s.bitmask l e in
    (
      record {
        levels_all = length-set s.levels l p ∙ v.levels_all;
        bits_all = length-set s.bitmask l true ∙ v.bits_all;
        counted = omega (arith, v.counted);
      },
      get_or-set_self s.levels l p no_price (omega (arith, v.levels_all, v.bits_all)),
      get_or-set_self s.bitmask l true false inside,
    )

-- What the log has at the index of the next order once it is written there.
log_lem :
    (b : BitBook) (id price qty : ℕ) (is_bid : Bool)
    → length b.orders ≡ 1024
    → leb max_orders b.order_count ≡ false
    → let o : Order = record {
      order_id = id;
      price_nano = price;
      quantity = qty;
      side = if is_bid then 1 else 0;
      status = 1;
    } in
      get_or (set b.orders b.order_count o) b.order_count no_order ≡ o
log_lem b id price qty is_bid long h =
    get_or-set_self b.orders b.order_count
      (record {
        order_id = id;
        price_nano = price;
        quantity = qty;
        side = if is_bid then 1 else 0;
        status = 1;
      })
      no_order (ground (arith, long, h))

-- An order that is accepted gets the next index of the log, where its entry has its id, price,
-- quantity and side and is live, and the count of the log goes up by 1. It takes the lowest level of
-- its side that is free: every level below is in use. That level then has its price and quantity and is
-- in use; the other side stays as it is, and the count of the side is still the number of its levels in
-- use.
pub add_order_lem :
    (b : BitBook) (id price qty : ℕ) (is_bid : Bool) (i : ℕ)
    → IsCounted (side_of b is_bid)
    → length b.orders ≡ 1024
    → (add_order b id price qty is_bid).0 ≡ some i
    → let c = (add_order b id price qty is_bid).1 in
      (i ≡ b.order_count)
      × (c.order_count ≡ b.order_count + 1)
      × (get_or c.orders i no_order ≡ record {
        order_id = id;
        price_nano = price;
        quantity = qty;
        side = if is_bid then 1 else 0;
        status = 1;
      })
      × IsCounted (side_of c is_bid)
      × (side_of c (not is_bid) ≡ side_of b (not is_bid))
      × ((l : ℕ) × LowestFree (side_of b is_bid).bitmask l
          × (get_or (side_of c is_bid).levels l no_price
              ≡ record { price_nano = price; quantity = qty })
          × (get_or (side_of c is_bid).bitmask l false ≡ true))
unfolding add_order
add_order_lem b id price qty true i v long e =
    elim (Option-cases (find_empty_level b.bids.bitmask)) [
      | inl g ↦ absurd (ground (arith, g))
      | inr (l, g) ↦
          let (kept, priced, used) = take_level_lem b.bids l price qty v g in
          let (lowest, _, _) = find_empty_level-LowestFree b.bids.bitmask l g in
          let logged = log_lem b id price qty true long in
          (
            ground (arith, g),
            ground (arith, g),
            ground (arith, g, logged),
            ground (arith, g, kept),
            ground (arith, g),
            (l, lowest, ground (arith, g, priced), ground (arith, g, used)),
          )
    ]
add_order_lem b id price qty false i v long e =
    elim (Option-cases (find_empty_level b.asks.bitmask)) [
      | inl g ↦ absurd (ground (arith, g))
      | inr (l, g) ↦
          let (kept, priced, used) = take_level_lem b.asks l price qty v g in
          let (lowest, _, _) = find_empty_level-LowestFree b.asks.bitmask l g in
          let logged = log_lem b id price qty false long in
          (
            ground (arith, g),
            ground (arith, g),
            ground (arith, g, logged),
            ground (arith, g, kept),
            ground (arith, g),
            (l, lowest, ground (arith, g, priced), ground (arith, g, used)),
          )
    ]

best_side_kept :
    (s : BitSide) (l price qty : ℕ)
    → get_best_level s.bitmask ≡ some 0
    → find_empty_level s.bitmask ≡ some l
    → get_best_price (take_level s l price qty) ≡ get_best_price s
unfolding take_level get_best_price
best_side_kept s l price qty e f =
    let p : PriceLevel = record { price_nano = price; quantity = qty } in
    let (above, same) = first_kept s.bitmask l e f in
    ground (arith, same, get_or-set_ne s.levels l 0 p no_price (λ z. absurd (omega arith)))

-- The best level is the lowest one in use, not the one of the best price: while the first level is in
-- use, no further order changes the best price of its side, whatever its own price is.
pub best_price_kept :
    (b : BitBook) (id price qty : ℕ) (is_bid : Bool)
    → get_best_level (side_of b is_bid).bitmask ≡ some 0
    → get_best_price (side_of (add_order b id price qty is_bid).1 is_bid)
      ≡ get_best_price (side_of b is_bid)
unfolding add_order
best_price_kept b id price qty true e = elim (Option-cases (find_empty_level b.bids.bitmask)) [
  | inl g ↦ ground (arith, g)
  | inr (l, g) ↦ ground (arith, g, best_side_kept b.bids l price qty e g)
]
best_price_kept b id price qty false e = elim (Option-cases (find_empty_level b.asks.bitmask)) [
  | inl g ↦ ground (arith, g)
  | inr (l, g) ↦ ground (arith, g, best_side_kept b.asks l price qty e g)
]

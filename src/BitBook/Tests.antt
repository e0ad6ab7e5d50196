-- ===== src/BitBook/Tests.antt =====
-- Each theorem on a book with one bid at the price 100.
use quant_sim_x.Prelude.{ℕ, ◌≡◌, refl, true, false, some, set, get_or}
use quant_sim_x.BitBook.{BitBook, no_price, no_order, empty_side, reset, add_order, side_of}
use quant_sim_x.BitBook.Levels.{IsCounted, LowestFree, add_order_lem}

empty-IsCounted : IsCounted (side_of reset true)
empty-IsCounted = record { levels_all = refl; bits_all = refl; counted = refl }

accepted : (add_order reset 1 100 5 true).0 ≡ some 0
unfolding add_order
accepted = refl

add_order_lem_example :
    let c = (add_order reset 1 100 5 true).1 in
    (reset.order_count ≡ 0)
    × (c.order_count ≡ 1)
    × (get_or c.orders 0 no_order
        ≡ record { order_id = 1; price_nano = 100; quantity = 5; side = 1; status = 1 })
    × IsCounted (side_of c true)
    × (side_of c false ≡ empty_side)
    × ((l : ℕ) × LowestFree empty_side.bitmask l
        × (get_or (side_of c true).levels l no_price ≡ record { price_nano = 100; quantity = 5 })
        × (get_or (side_of c true).bitmask l false ≡ true))
add_order_lem_example = add_order_lem reset 1 100 5 true 0 empty-IsCounted refl accepted

abbrev one_bid : BitBook
one_bid = record reset {
  bids = record {
    levels = set empty_side.levels 0 (record { price_nano = 100; quantity = 5 });
    bitmask = set empty_side.bitmask 0 true;
    count = 1;
  };
}

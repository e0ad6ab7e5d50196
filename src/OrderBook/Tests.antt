-- ===== src/OrderBook/Tests.antt =====
-- Each theorem on the book, on a book with two bids and one ask.
use quant_sim_x.Prelude.{ℕ, ◌≡◌, refl, true, All, List, [], ◌∷◌, ◌++◌, replicate, arith}
use quant_sim_x.Double.{gt, nought}
use quant_sim_x.Double.Fixed.{Fixed, fixed_double, fixed, Fixed-IsOrdered}
use quant_sim_x.Json.Document.{
  Document, object, array, quoted, number, nil, cons, end, member, document_json,
}
use quant_sim_x.OrderBook.{Level, Side, OrderBook, no_level, update_level}
use quant_sim_x.OrderBook.Ladder.{IsLadder, IsNumber, update}
use quant_sim_x.OrderBook.Insertion.{in_use, IsValid}
use quant_sim_x.OrderBook.Refine.{update_level_refines}
use quant_sim_x.OrderBook.Messages.{init_from_snapshot, level?, number?}
use quant_sim_x.OrderBook.Messages.Invariant.{IsBook, prices_at}
use quant_sim_x.OrderBook.Messages.Snapshot.{init_from_snapshot-IsBook}

abbrev level : ℕ → ℕ → Level Fixed
level p q = record { price = fixed p 0; quantity = fixed q 0 }

abbrev two_bids : List (Level Fixed)
two_bids = level 101 3 ∷ level 100 7 ∷ []

abbrev bid_side : Side Fixed
bid_side = record { levels = two_bids ++ replicate 254 no_level; count = 2 }

abbrev ask_side : Side Fixed
ask_side = record { levels = level 103 2 ∷ replicate 255 no_level; count = 1 }

abbrev book : OrderBook Fixed
book = record {
  bids = bid_side;
  asks = ask_side;
  last_update_id = 1;
  last_trade_price = nought;
  last_trade_qty = nought;
  last_trade_time = 0;
}

two_bids-IsLadder : IsLadder gt two_bids
two_bids-IsLadder = ground arith

bid_side-IsValid : IsValid bid_side
bid_side-IsValid = record { array = refl; counted = omega arith }

ask_side-IsValid : IsValid ask_side
ask_side-IsValid = record { array = refl; counted = omega arith }

one_ask-IsLadder : IsLadder fixed_double.lt (in_use ask_side)
one_ask-IsLadder = ground arith

book-IsBook : IsBook book
book-IsBook = record {
  bids_side = record { valid = bid_side-IsValid; ladder = two_bids-IsLadder };
  asks_side = record { valid = ask_side-IsValid; ladder = one_ask-IsLadder };
}

update_level_refines_example :
    (in_use (update_level gt bid_side (fixed 102 0) (fixed 5 0))
      ≡ update gt (fixed 102 0) (fixed 5 0) two_bids)
    × IsValid (update_level gt bid_side (fixed 102 0) (fixed 5 0))
update_level_refines_example =
    update_level_refines gt bid_side (fixed 102 0) (fixed 5 0) bid_side-IsValid

abbrev one_bid_book : OrderBook Fixed
one_bid_book = record book {
  bids = record { levels = level 101 3 ∷ replicate 255 no_level; count = 1 };
}

abbrev pair : Document → Document → Document
pair p q = array (cons p (cons q nil))

-- One bid is taken off, one is added, and the second ask does not convert.
abbrev depth_message : Document
depth_message = object (
    member "b"
      (array (cons (pair (quoted "100") (quoted "0")) (cons (pair (quoted "99") (quoted "4")) nil)))
      (member "a"
        (array (cons (pair (quoted "104") (quoted "1")) (cons (pair (number 1) (quoted "1")) nil)))
        (member "U" (number 2) end)))

Fixed-IsNumber : (p : Fixed) → fixed_double.eq p p ≡ true
Fixed-IsNumber p = ground arith

-- The bids are not in order, and one quantity is 0.
abbrev snapshot : Document
snapshot = object (
    member "bids"
      (array (cons (pair (quoted "99") (quoted "1")) (cons (pair (quoted "100") (quoted "4")) nil)))
      (member "asks"
        (array
          (cons (pair (quoted "102") (quoted "0")) (cons (pair (quoted "101") (quoted "1")) nil)))
        end))

all_numbers : (ps : List Fixed) → All IsNumber ps
all_numbers [] = tt
all_numbers (p ∷ ps) = (Fixed-IsNumber p, all_numbers ps)

init_from_snapshot-IsBook_example : IsBook (init_from_snapshot document_json snapshot book).state
unfolding level? number?
init_from_snapshot-IsBook_example =
    init_from_snapshot-IsBook document_json Fixed-IsOrdered snapshot book refl refl
      (
        all_numbers (prices_at document_json snapshot "bids"),
        all_numbers (prices_at document_json snapshot "asks"),
      )
      ((refl, tt), (tt, tt)) ((refl, tt), (tt, tt))

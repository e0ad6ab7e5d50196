-- ===== src/PackedBook/Tests.antt =====
-- The insertions of a book with three bids and two asks, and the theorem on them.
use quant_sim_x.Prelude.{
  ℕ, zero, suc, ◌+◌, ◌*◌, ◌/◌, ◌≤◌, ◌≡◌, refl, ap, true, false, List, [], ◌∷◌, replicate, arith,
  ◌%◌,
}
use quant_sim_x.Prelude.Int.{pos, negsuc, pos_part}
use quant_sim_x.Double.Fixed.{Fixed, fixed, fixed_double, Fixed-IsOrdered}
use quant_sim_x.PackedBook.{
  PackedBook, PackedSide, no_order, clear, price_of, raw_price, best_bid, best_ask, spread,
}
use quant_sim_x.PackedBook.Shift.{InRange}
use quant_sim_x.PackedBook.Best.{Insertion, IsPacking, IsShown, run, listed, first_price, run_lem}

-- the conversion to 32 bits, for numbers from 0 on
abbrev to_word : Fixed → ℕ
to_word x = pos_part x / 1_000_000 % 4_294_967_296

abbrev top : ℕ
top = 40_000_000_000_000

raw_pos : (a : ℕ) → a ≤ top → raw_price to_word (pos a) ≡ (a * 100 + 500_000) / 1_000_000
unfolding raw_price
raw_pos a h = ground arith

price_pos : (r : ℕ) → price_of {W = Fixed} r ≡ pos (r * 10_000)
unfolding price_of
price_pos r = ap pos (omega arith)

InRange-cases : (x : Fixed) → InRange x → (a : ℕ) × (a ≤ top) × (x ≡ pos a)
InRange-cases (pos a) (p, q) = (a, ground (arith, q), refl)
InRange-cases (negsuc a) (p, q) = absurd (ground (arith, p))

word-IsPacking : IsPacking to_word
word-IsPacking = record {
  monotone = λ x y p q e.
      let (a, h, x_is) = InRange-cases x p in
      let (b, g, y_is) = InRange-cases y q in
      let low : b ≤ a = ground (arith, e, x_is, y_is) in
      rw (x_is, y_is) (omega (arith, raw_pos a h, raw_pos b g, low));
  bounded =
      λ x p. let (a, h, x_is) = InRange-cases x p in rw (x_is) (omega (arith, raw_pos a h, h));
  back_fits = λ r h. rw (price_pos r) (ground (arith, h), ground (arith, h));
  back = λ r h. rw (price_pos r) (omega (arith, raw_pos (r * 10_000) (omega (arith, h))));
}

abbrev insertion : ℕ → ℕ → Insertion Fixed
insertion b p = record {
  for_bid = elim b [ zero ↦ false | suc _ ↦ true ];
  px = fixed p 1;
  quantity = fixed 10 0;
}

abbrev some_side : PackedSide
some_side = record { orders = replicate 64 no_order; mask = []; cnt = 7 }

abbrev some_book : PackedBook
some_book = record { bids = some_side; asks = some_side }

abbrev insertions : List (Insertion Fixed)
insertions =
    insertion 1 1000 ∷ insertion 1 990 ∷ insertion 1 1010 ∷ insertion 0 1015 ∷ insertion 0 1020 ∷ []

run_lem_example :
    let c = run to_word (clear some_book) insertions in
    let m = listed to_word ([], []) insertions in
    IsShown to_word c m
    × (best_bid {W = Fixed} c ≡ first_price m.0)
    × (best_ask {W = Fixed} c ≡ first_price m.1)
run_lem_example =
    run_lem to_word Fixed-IsOrdered word-IsPacking some_book insertions refl refl
      ((refl, refl), ((refl, refl), ((refl, refl), ((refl, refl), ((refl, refl), tt)))))

prices_listed : listed to_word ([], []) insertions ≡ (10100 ∷ 10000 ∷ 9900 ∷ [], 10150 ∷ 10200 ∷ [])
unfolding raw_price quant_sim_x.PackedBook.Refine.with_price quant_sim_x.PackedBook.Sorted.insert_in
prices_listed = refl

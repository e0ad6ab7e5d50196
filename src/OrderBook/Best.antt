-- ===== src/OrderBook/Best.antt =====
-- `get_best_bid` and `get_best_ask`, on a side in order and on an empty one.
use quant_sim_x.Prelude.{
  ℕ, zero, suc, ◌≡◌, refl, ap, subst, true, List, [], ◌∷◌, get_or, take, arith,
}
use quant_sim_x.Double.{Double, nought, gt}
use quant_sim_x.OrderBook.{
  Level, OrderBook, no_level, find_price, erase_level, close, update_level, get_best_bid,
  get_best_ask,
}
use quant_sim_x.OrderBook.Ladder.{IsLadder, Ahead}
use quant_sim_x.OrderBook.Insertion.{in_use}

module _ {W : Type 0} ⦃d : Double W⦄ where
  open d use {lt, eq}

  first_level :
      (n : ℕ) (ls : List (Level W)) (x : Level W) (xs : List (Level W))
      → take n ls ≡ x ∷ xs
      → get_or ls 0 no_level ≡ x
  first_level zero ls x xs e = cc
  first_level (suc n) [] x xs e = cc
  first_level (suc n) (l ∷ ls) x xs e = ground arith

  -- If the bids in use are in order and not empty, `get_best_bid` is the price of the first one, and
  -- it is greater than every other bid; `get_best_ask` is less than every other ask.
  pub best_lem :
      (b : OrderBook W) (x y : Level W) (xs ys : List (Level W))
      → in_use b.bids ≡ x ∷ xs
      → in_use b.asks ≡ y ∷ ys
      → IsLadder gt (in_use b.bids)
      → IsLadder lt (in_use b.asks)
      → (get_best_bid b ≡ x.price)
        × Ahead gt (get_best_bid b) xs
        × (get_best_ask b ≡ y.price)
        × Ahead lt (get_best_ask b) ys
  unfolding get_best_bid get_best_ask
  best_lem b x y xs ys e f s t =
      let bid : get_best_bid b ≡ x.price =
        ap (λ l. l.price) (first_level b.bids.count b.bids.levels x xs e) in
      let ask : get_best_ask b ≡ y.price =
        ap (λ l. l.price) (first_level b.asks.count b.asks.levels y ys f) in
      let s' : IsLadder gt (x ∷ xs) = subst (IsLadder gt) e s in
      let t' : IsLadder lt (y ∷ ys) = subst (IsLadder lt) f t in
      rw (bid, ask) (refl, s'.1, refl, t'.1)

  -- When a depth update takes the only bid off, no bid is left in use, and `get_best_bid` still
  -- gives the price of the bid that is gone.
  pub best_bid_stale :
      (b : OrderBook W) (p q : W)
      → b.bids.count ≡ 1
      → eq (get_best_bid b) p ≡ true
      → eq q nought ≡ true
      → let bids = update_level gt b.bids p q in
        (bids.count ≡ 0) × (get_best_bid (record b { bids = bids }) ≡ get_best_bid b)
  unfolding get_best_bid update_level find_price erase_level close
  best_bid_stale b p q c e z = rw c (ground arith)

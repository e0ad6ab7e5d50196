-- ===== src/Dashboard/Histories.antt =====
-- What the dashboard keeps of the prices and of the trades.
use mathlib.Core.List.{append_assoc, append-nil}
use Prim.Native.Nat.{min}
use quant_sim_x.Prelude.{
  ℕ, zero, suc, ◌-◌, ◌≤◌, ◌<◌, ◌≡◌, refl, sym, ap, ◌∙◌, Bool-cases, inl, inr, List, [], ◌∷◌, ◌++◌,
  length, length-append, drop, get_elem?, get_elem?-eq-get_or, ltb, arith,
}
use quant_sim_x.Double.{Double}
use quant_sim_x.Dashboard.{
  Dashboard, TradePosition, push_bounded, smooth, see_price, trade_rows_from, trade_rows,
}

module _ {A : Type 0} where
  abbrev pub last_of : ℕ → List A → List A
  last_of n xs = drop (length xs - n) xs

  last_of_short : (n : ℕ) (xs : List A) → length xs ≤ n → last_of n xs ≡ xs
  last_of_short n xs l =
      let none_too_many : length xs - n ≡ 0 = omega (arith, l) in rw none_too_many refl

  last_of-cons : (n : ℕ) (x : A) (xs : List A) → n ≤ length xs → last_of n (x ∷ xs) ≡ last_of n xs
  last_of-cons n x xs l =
      let one_more : suc (length xs) - n ≡ suc (length xs - n) = omega (arith, l) in
      rw one_more refl

  length-push_bounded :
      (n : ℕ) (xs : List A) (x : A) → length xs ≤ n → length (push_bounded n xs x) ≤ n
  unfolding push_bounded
  length-push_bounded n [] x l = ground (arith, l)
  length-push_bounded n (y ∷ ys) x l = ground (arith, l, length-append ys (x ∷ []))

  last_of-push_bounded :
      (n : ℕ) (xs : List A) (x : A) (ys : List A)
      → length xs ≤ n
      → last_of n (push_bounded n xs x ++ ys) ≡ last_of n (xs ++ x ∷ ys)
  unfolding push_bounded
  last_of-push_bounded n [] x ys l = elim (Bool-cases (ltb n 1)) [
    | inl e ↦ rw (e, push_bounded) (sym (last_of-cons n x ys (ground (arith, e))))
    | inr e ↦ rw (e, push_bounded) refl
  ]
  last_of-push_bounded n (y ∷ xs) x ys l = elim (Bool-cases (ltb n (length (y ∷ xs ++ x ∷ [])))) [
    | inl e ↦
        rw (e, push_bounded)
          (ap (last_of n) (append_assoc xs (x ∷ []) ys)
            ∙ sym (
                last_of-cons n y (xs ++ x ∷ ys)
                  (ground (arith, e, l, length-append xs (x ∷ []), length-append xs (x ∷ ys)))))
    | inr e ↦ rw (e, push_bounded) (ap (last_of n) (append_assoc (y ∷ xs) (x ∷ []) ys))
  ]

module _ {W : Type 0} ⦃d : Double W⦄ where
  -- the smoothed prices of some rounds, one after another
  pub shown_prices : W → W → List W → List W
  shown_prices alpha shown [] = []
  shown_prices alpha shown (mid ∷ mids) =
      let next = smooth alpha shown mid in next ∷ shown_prices alpha next mids

  pub see_prices : List W → Dashboard W → Dashboard W
  see_prices [] u = u
  see_prices (mid ∷ mids) u = see_prices mids (see_price mid u)

  -- The chart holds the last 500 of the smoothed prices, in their order, and no more.
  pub see_prices-last :
      (mids : List W) (u : Dashboard W)
      → length u.price_history ≤ 500
      → (see_prices mids u).price_history
        ≡ last_of 500 (u.price_history ++ shown_prices u.smooth_alpha u.displayed_price mids)
  unfolding see_prices shown_prices see_price
  see_prices-last [] u l =
      sym (ap (last_of 500) (append-nil u.price_history) ∙ last_of_short 500 u.price_history l)
  see_prices-last (mid ∷ mids) u l =
      let next = smooth u.smooth_alpha u.displayed_price mid in
      see_prices-last mids (see_price mid u) (length-push_bounded 500 u.price_history next l)
      ∙ last_of-push_bounded 500 u.price_history next (shown_prices u.smooth_alpha next mids) l

module _ {W : Type 0} (no_trade : TradePosition W) where
  length-trade_rows_from :
      (ts : List (TradePosition W)) (i n : ℕ) → length (trade_rows_from no_trade ts i n) ≡ n
  unfolding trade_rows_from
  length-trade_rows_from ts i zero = refl
  length-trade_rows_from ts i (suc n) = ap suc (length-trade_rows_from ts (i - 1) n)

  get_elem?-trade_rows_from :
      (ts : List (TradePosition W)) (i n k : ℕ)
      → k < n
      → n ≤ i
      → i ≤ length ts
      → get_elem? (trade_rows_from no_trade ts i n) k ≡ get_elem? ts (i - 1 - k)
  unfolding trade_rows_from
  get_elem?-trade_rows_from ts i zero k l m r = absurd (omega (arith, l))
  get_elem?-trade_rows_from ts i (suc n) zero l m r =
      sym (get_elem?-eq-get_or ts (i - 1) no_trade (omega (arith, m, r)))
      ∙ ap (get_elem? ts) (omega arith)
  get_elem?-trade_rows_from ts i (suc n) (suc k) l m r =
      get_elem?-trade_rows_from ts (i - 1) n k (omega (arith, l)) (omega (arith, m))
        (omega (arith, r))
      ∙ ap (get_elem? ts) (omega arith)

  -- The trades panel has a row for each of the newest 50 closed trades, or for each trade if they are
  -- fewer, the newest first.
  pub trade_rows_lem :
      (u : Dashboard W) (k : ℕ)
      → k < min 50 (length u.closed_trades)
      → (length (trade_rows no_trade u) ≡ min 50 (length u.closed_trades))
        × (get_elem? (trade_rows no_trade u) k
            ≡ get_elem? u.closed_trades (length u.closed_trades - 1 - k))
  unfolding trade_rows
  trade_rows_lem u k l =
      let size = length u.closed_trades in
      let shown : size - (size - 50) ≡ min 50 size = omega arith in
      (
        length-trade_rows_from u.closed_trades size (size - (size - 50)) ∙ shown,
        get_elem?-trade_rows_from u.closed_trades size (size - (size - 50)) k (omega (arith, l))
            (omega arith) (omega arith),
      )

-- ===== src/Backtester/Csv/Times.antt =====
-- The order of the bars that `load_csv` makes.
use quant_sim_x.Prelude.{
  ℕ, ◌*◌, ◌/◌, ◌≤◌, ◌≡◌, refl, List, [], ◌∷◌, ◌++◌, ◌==◌, arith, Bool-cases, inl, inr,
}
use quant_sim_x.Double.{Double, gt, nought}
use quant_sim_x.Backtester.{BacktestBar}
use quant_sim_x.Backtester.Positions.{Rising}
use quant_sim_x.Backtester.Csv.{
  Row, Loader, add_row, add_rows, no_rows, bars_of, open_bar, extend_bar, bar_time_of,
}

module _ {W : Type 0} where
  -- The rows come in the order of their times.
  abbrev pub InTime : ℕ → List (Row W) → Type 0
  InTime from [] = Unit
  InTime from (r ∷ rs) = (from ≤ r.ts) × InTime r.ts rs

  Rising-front :
      (from : ℕ) (bs : List (BacktestBar W)) (b : BacktestBar W)
      → Rising from (bs ++ b ∷ [])
      → Rising from bs
  Rising-front from [] b h = tt
  Rising-front from (x ∷ bs) b (l, h) = (l, Rising-front x.timestamp_ms bs b h)

  Rising-replace :
      (from : ℕ) (bs : List (BacktestBar W)) (b c : BacktestBar W)
      → b.timestamp_ms ≤ c.timestamp_ms
      → Rising from (bs ++ b ∷ [])
      → Rising from (bs ++ c ∷ [])
  Rising-replace from [] b c l h = (omega arith, tt)
  Rising-replace from (x ∷ bs) b c l (k, h) = (k, Rising-replace x.timestamp_ms bs b c l h)

  Rising-push :
      (from : ℕ) (bs : List (BacktestBar W)) (b c : BacktestBar W)
      → b.timestamp_ms ≤ c.timestamp_ms
      → Rising from (bs ++ b ∷ [])
      → Rising from ((bs ++ b ∷ []) ++ c ∷ [])
  Rising-push from [] b c l (k, _) = (k, (l, tt))
  Rising-push from (x ∷ bs) b c l (k, h) = (k, Rising-push x.timestamp_ms bs b c l h)

  -- The bars with the current one are in order, and that one is not after the row at `now`.
  abbrev Timed : Loader W → ℕ → Type 0
  Timed s now =
      Rising 0 (s.bars ++ s.current_bar ∷ [])
      × (s.current_bar.timestamp_ms ≡ s.current_bar_time)
      × (s.current_bar_time ≤ now / 5000 * 5000)

module _ {W : Type 0} ⦃d : Double W⦄ where
  add_row-Timed :
      (s : Loader W) (r : Row W) (now : ℕ) → now ≤ r.ts → Timed s now → Timed (add_row s r) r.ts
  unfolding add_row
  add_row-Timed s r now l (h, e, k) = elim (Bool-cases (s.current_bar_time == 0)) [
    | inl f ↦
        rw (f, add_row)
          (Rising-replace 0 s.bars s.current_bar (open_bar r) (omega arith) h, refl, omega arith)
    | inr f ↦ elim (Bool-cases (bar_time_of r.ts == s.current_bar_time)) [
      | inl g ↦
          rw (f, add_row, g)
            (
              Rising-replace 0 s.bars s.current_bar (extend_bar s.current_bar r) (omega arith) h,
              e,
              omega arith,
            )
      | inr g ↦
          rw (f, add_row, g)
            (Rising-push 0 s.bars s.current_bar (open_bar r) (omega arith) h, refl, omega arith)
    ]
  ]

  add_rows-Timed :
      (rs : List (Row W)) (s : Loader W) (now : ℕ)
      → InTime now rs
      → Timed s now
      → Rising 0 ((add_rows s rs).bars ++ (add_rows s rs).current_bar ∷ [])
  unfolding add_rows
  add_rows-Timed [] s now t h = h.0
  add_rows-Timed (r ∷ rs) s now (l, t) h =
      add_rows-Timed rs (add_row s r) r.ts t (add_row-Timed s r now l h)

  -- If the rows of a file come in the order of their times, so do the bars.
  pub bars_of-Rising : (rows : List (Row W)) → InTime 0 rows → Rising 0 (bars_of rows)
  unfolding bars_of
  bars_of-Rising rows t =
      let s = add_rows no_rows rows in
      let h = add_rows-Timed rows no_rows 0 t ((omega arith, tt), refl, omega arith) in
      elim (Bool-cases (gt s.current_bar.volume nought)) [
        | inl e ↦ rw (e, bars_of) h
        | inr e ↦ rw (e, bars_of) (Rising-front 0 s.bars s.current_bar h)
      ]

-- ===== src/Backtester/Metrics/Days.antt =====
-- The map of daily results in `compute_returns`.
use quant_sim_x.Prelude.{
  ℕ, suc, ◌*◌, ◌<◌, ◌≤◌, ◌≡◌, refl, Bool, ◌&&◌, List, [], ◌∷◌, Option, none, some, arith, ltb, leb,
  ◌==◌, if◌then◌else◌,
}
use quant_sim_x.Double.{Double, nought}
use quant_sim_x.Backtester.{BacktestTrade}
use quant_sim_x.Backtester.Metrics.{day_of, add_day, daily}

module _ {W : Type 0} where
  -- The keys of the map rise, all of them at least `from`.
  abbrev pub Keys : ℕ → List (ℕ × W) → Type 0
  Keys from [] = Unit
  Keys from ((k, _) ∷ m) = (from ≤ k) × Keys (suc k) m

  abbrev pub value : ℕ → List (ℕ × W) → Option W
  value day [] = none
  value day ((k, v) ∷ m) = if day == k then some v else value day m

module _ {W : Type 0} ⦃d : Double W⦄ where
  open d use {add}

  abbrev add_to : Option W → W → W
  add_to none pnl = add nought pnl
  add_to (some v) pnl = add v pnl

  -- The trade ended on the day: its exit, in milliseconds since 1970, is in the day's 24 hours.
  abbrev pub ended_on : ℕ → BacktestTrade W → Bool
  ended_on day t = leb (day * 86_400_000) t.exit_time && ltb t.exit_time (suc day * 86_400_000)

  -- The results of one day alone, added in the order of the trades.
  abbrev pub day_sum : ℕ → Option W → List (BacktestTrade W) → Option W
  day_sum day o [] = o
  day_sum day o (t ∷ ts) = day_sum day (if ended_on day t then some (add_to o t.pnl) else o) ts

  value-Keys : (day from : ℕ) (m : List (ℕ × W)) → Keys from m → day < from → value day m ≡ none
  value-Keys day from [] h l = refl
  value-Keys day from ((k, v) ∷ m) h l = ground (arith, value-Keys day (suc k) m)

  add_day-Keys :
      (day from : ℕ) (pnl : W) (m : List (ℕ × W))
      → from ≤ day
      → Keys from m
      → Keys from (add_day day pnl m)
  unfolding add_day
  add_day-Keys day from pnl [] l h = (l, tt)
  add_day-Keys day from pnl ((k, v) ∷ m) l h = ground (arith, add_day-Keys day (suc k) pnl m)

  value-add_day :
      (q day from : ℕ) (pnl : W) (m : List (ℕ × W))
      → Keys from m
      → value q (add_day day pnl m)
        ≡ (if q == day then some (add_to (value q m) pnl) else value q m)
  unfolding add_day
  value-add_day q day from pnl [] h = ground arith
  value-add_day q day from pnl ((k, v) ∷ m) h =
      ground (arith, value-add_day q day (suc k) pnl m, value-Keys day (suc k) m)

  -- The key of a trade in the map is the day on which it ended.
  ended_on-day_of : (day : ℕ) (t : BacktestTrade W) → (day == day_of t) ≡ ended_on day t
  ended_on-day_of day t = ground arith

  -- The map that `compute_returns` reads in order has each day once, in rising order, and the value
  -- of a day is the sum of the results of the trades whose exit is in the 24 hours of that day, in the order of the trades;
  -- a day without trades is not in it.
  pub daily_lem :
      (ts : List (BacktestTrade W)) (m : List (ℕ × W)) (day : ℕ)
      → Keys 0 m
      → Keys 0 (daily m ts) × (value day (daily m ts) ≡ day_sum day (value day m) ts)
  unfolding daily
  daily_lem [] m day h = (h, refl)
  daily_lem (t ∷ ts) m day h = ground (
    arith,
    daily_lem ts (add_day (day_of t) t.pnl m) day,
    add_day-Keys (day_of t) 0 t.pnl m,
    value-add_day day (day_of t) 0 t.pnl m h,
    ended_on-day_of day t,
  )

-- ===== src/Backtester/Positions.antt =====
-- The trades that `run` books: their times, their number and their figures.
use native.Mathlib.Nat.{add-zero}
use quant_sim_x.Prelude.{
  ℕ, suc, ◌+◌, ◌*◌, ◌≤◌, ◌≡◌, refl, subst, List, [], ◌∷◌, ◌++◌, arith, length, length-append,
}
use quant_sim_x.Double.{Double}
use quant_sim_x.Signals
use quant_sim_x.Signals.{Signal, none_signal, buy, sell, SignalGenerator}
use quant_sim_x.Backtester.{
  BacktestBar, BacktestTrade, Run, trade_of, trade_signal, run_bar, run_bars, last_bar, close_last,
  start_run, run_trades,
}

module _ {W : Type 0} where
  -- The trades follow one another between two times, none beginning before the last one ended.
  abbrev pub InOrder : ℕ → List (BacktestTrade W) → ℕ → Type 0
  InOrder from [] until = from ≤ until
  InOrder from (t ∷ ts) until =
      (from ≤ t.entry_time) × (t.entry_time ≤ t.exit_time) × InOrder t.exit_time ts until

  InOrder-append :
      (from until : ℕ) (ts : List (BacktestTrade W)) (t : BacktestTrade W)
      → InOrder from ts until
      → until ≤ t.entry_time
      → t.entry_time ≤ t.exit_time
      → InOrder from (ts ++ t ∷ []) t.exit_time
  InOrder-append from until [] t h l m = omega arith
  InOrder-append from until (s ∷ ts) t (a, b, h) l m =
      (a, b, InOrder-append s.exit_time until ts t h l m)

  InOrder-mono :
      (from until later : ℕ) (ts : List (BacktestTrade W))
      → until ≤ later
      → InOrder from ts until
      → InOrder from ts later
  InOrder-mono from until later [] l h = omega arith
  InOrder-mono from until later (t ∷ ts) l (a, b, h) =
      (a, b, InOrder-mono t.exit_time until later ts l h)

  -- The bars come in the order of their times.
  abbrev pub Rising : ℕ → List (BacktestBar W) → Type 0
  Rising from [] = Unit
  Rising from (b ∷ bs) = (from ≤ b.timestamp_ms) × Rising b.timestamp_ms bs

  -- After `k` bars up to the time `now`: an open position was entered after the trades were over.
  abbrev Booked : Signal → Run W → ℕ → ℕ → Type 0
  Booked none_signal r now k = InOrder 0 r.trades now × (2 * length r.trades ≤ k)
  Booked buy r now k =
      InOrder 0 r.trades r.entry_time × (r.entry_time ≤ now) × (2 * length r.trades + 1 ≤ k)
  Booked sell r now k =
      InOrder 0 r.trades r.entry_time × (r.entry_time ≤ now) × (2 * length r.trades + 1 ≤ k)

module _ {W : Type 0} ⦃d : Double W⦄ where
  open d use {sub, mul, div, of_nat}

  trade_signal-Booked :
      (r : Run W) (bar : BacktestBar W) (position sig : Signal) (now k : ℕ)
      → r.position ≡ position
      → now ≤ bar.timestamp_ms
      → Booked position r now k
      → let r' = trade_signal r bar position sig in Booked r'.position r' bar.timestamp_ms (suc k)
  unfolding trade_signal
  trade_signal-Booked r bar none_signal none_signal now k e l b =
      rw e (InOrder-mono 0 now bar.timestamp_ms r.trades l b.0, omega (arith, b.1))
  trade_signal-Booked r bar none_signal buy now k e l b =
      (InOrder-mono 0 now bar.timestamp_ms r.trades l b.0, omega arith, omega (arith, b.1))
  trade_signal-Booked r bar none_signal sell now k e l b =
      (InOrder-mono 0 now bar.timestamp_ms r.trades l b.0, omega arith, omega (arith, b.1))
  trade_signal-Booked r bar buy none_signal now k e l (b, c, n) = rw e (b, omega arith, omega arith)
  trade_signal-Booked r bar buy buy now k e l (b, c, n) = rw e (b, omega arith, omega arith)
  trade_signal-Booked r bar buy sell now k e l (b, c, n) =
      let t = trade_of r bar r.gen.last_signal.reason in
      (
        InOrder-append 0 r.entry_time r.trades t b (omega arith) (omega arith),
        omega (arith, length-append {0} r.trades (t ∷ [])),
      )
  trade_signal-Booked r bar sell none_signal now k e l (b, c, n) =
      rw e (b, omega arith, omega arith)
  trade_signal-Booked r bar sell sell now k e l (b, c, n) = rw e (b, omega arith, omega arith)
  trade_signal-Booked r bar sell buy now k e l (b, c, n) =
      let t = trade_of r bar r.gen.last_signal.reason in
      (
        InOrder-append 0 r.entry_time r.trades t b (omega arith) (omega arith),
        omega (arith, length-append {0} r.trades (t ∷ [])),
      )

  run_bar-Booked :
      (r : Run W) (bar : BacktestBar W) (now k : ℕ)
      → now ≤ bar.timestamp_ms
      → Booked r.position r now k
      → Booked (run_bar r bar).position (run_bar r bar) bar.timestamp_ms (suc k)
  unfolding run_bar
  run_bar-Booked r bar now k l b =
      let (sig, gen) = Signals.update r.gen bar.timestamp_ms bar.close_price bar.vwap bar.rsi in
      trade_signal-Booked (record r { gen = gen }) bar r.position sig now k refl l
        (same r.position r gen now k b)
    where
      same :
          (p : Signal) (r : Run W) (gen : SignalGenerator W) (now k : ℕ)
          → Booked p r now k
          → Booked p (record r { gen = gen }) now k
      same none_signal r gen now k b = b
      same buy r gen now k b = b
      same sell r gen now k b = b

  run_bars-Booked :
      (bars : List (BacktestBar W)) (r : Run W) (b : BacktestBar W) (k : ℕ)
      → Rising b.timestamp_ms bars
      → Booked r.position r b.timestamp_ms k
      → let r' = run_bars r bars in
        Booked r'.position r' (last_bar b bars).timestamp_ms (k + length bars)
  unfolding run_bars
  run_bars-Booked [] r b k h v = rw add-zero v
  run_bars-Booked (bar ∷ bars) r b k (l, h) v =
      subst
        (λ n.
          Booked (run_bars (run_bar r bar) bars).position (run_bars (run_bar r bar) bars)
            (last_bar bar bars).timestamp_ms n)
        (omega arith)
        (run_bars-Booked bars (run_bar r bar) bar (suc k) h
          (run_bar-Booked r bar b.timestamp_ms k l v))

  close_last-InOrder :
      (position : Signal) (r : Run W) (bar : BacktestBar W) (k : ℕ)
      → Booked position r bar.timestamp_ms k
      → InOrder 0 (close_last position r bar).trades bar.timestamp_ms
        × (2 * length (close_last position r bar).trades ≤ k + 1)
  unfolding close_last
  close_last-InOrder none_signal r bar k (b, n) = (b, omega arith)
  close_last-InOrder buy r bar k (b, c, n) =
      let t = trade_of r bar "End of backtest" in
      (
        InOrder-append 0 r.entry_time r.trades t b (omega arith) (omega arith),
        omega (arith, length-append {0} r.trades (t ∷ [])),
      )
  close_last-InOrder sell r bar k (b, c, n) =
      let t = trade_of r bar "End of backtest" in
      (
        InOrder-append 0 r.entry_time r.trades t b (omega arith) (omega arith),
        omega (arith, length-append {0} r.trades (t ∷ [])),
      )

  -- If the bars come in the order of their times, so do the trades of a run: each one ends no earlier
  -- than it begins, none begins before the one in front of it has ended, and the last one ends no
  -- later than the last bar. There are at most half as many as bars, rounded up.
  pub run_trades-InOrder :
      (gen : SignalGenerator W) (b : BacktestBar W) (bs : List (BacktestBar W))
      → Rising b.timestamp_ms bs
      → let trades = (run_trades gen b bs).trades in
        InOrder 0 trades (last_bar b bs).timestamp_ms × (2 * length trades ≤ suc (length bs) + 1)
  unfolding run_trades run_bars
  run_trades-InOrder gen b bs h =
      let first = run_bar (start_run gen) b in
      let r = run_bars first bs in
      close_last-InOrder r.position r (last_bar b bs) (suc (length bs)) (
        subst (Booked r.position r (last_bar b bs).timestamp_ms) (omega arith) (
          run_bars-Booked bs first b 1 h
            (run_bar-Booked (start_run gen) b 0 0 (omega arith) (omega arith, omega arith))))

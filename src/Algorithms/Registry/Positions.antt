-- ===== src/Algorithms/Registry/Positions.antt =====
-- Positions, logs and `reset`, for all ten algorithms.
use Prim.Native.String.{String}
use quant_sim_x.Prelude.{
  ◌≡◌, refl, ap, ◌∙◌, subst, Bool, true, false, List, [], ◌∷◌, ◌++◌, map, arith, All, some,
}
use quant_sim_x.Double.{Double}
use quant_sim_x.Signals.{Signal, none_signal, buy, sell, SignalEvent, TickData}
use quant_sim_x.Algorithms.{Base, Turns, Logs}
use quant_sim_x.Algorithms.RsiMeanReversion
use quant_sim_x.Algorithms.MacdCrossover
use quant_sim_x.Algorithms.DualSma
use quant_sim_x.Algorithms.MomentumBurst
use quant_sim_x.Algorithms.Supertrend
use quant_sim_x.Algorithms.VwapBreakout
use quant_sim_x.Algorithms.TradeSizeSpike
use quant_sim_x.Algorithms.DeltaMomentum
use quant_sim_x.Algorithms.SpreadCompression
use quant_sim_x.Algorithms.VolatilityMomentum
use quant_sim_x.Algorithms.Registry.Factories.{create, factories}
use quant_sim_x.Algorithms.Registry.{
  Algorithm, rsi_mean_reversion, macd_crossover, dual_sma, momentum_burst, supertrend,
  vwap_breakout, trade_size_spike, delta_momentum, spread_compression, volatility_momentum, base_of,
  in_position, update, run, reset, name,
}

-- The algorithms that also enter by SELL.
abbrev pub may_short {ℓ} : {W : Type ℓ} → Algorithm W → Bool
may_short (rsi_mean_reversion a) = false
may_short (macd_crossover a) = false
may_short (dual_sma a) = false
may_short (momentum_burst a) = false
may_short (supertrend a) = false
may_short (vwap_breakout a) = true
may_short (trade_size_spike a) = true
may_short (delta_momentum a) = false
may_short (spread_compression a) = false
may_short (volatility_momentum a) = true

-- Signals, from a position that is held or not: entries and exits take turns, an exit is SELL, and
-- without `short` an entry is BUY.
abbrev pub Rounds : Bool → Bool → List Signal → Type 0
Rounds short held [] = Unit
Rounds short held (none_signal ∷ ss) = Rounds short held ss
Rounds short false (buy ∷ ss) = Rounds short true ss
Rounds short true (buy ∷ ss) = ⊥
Rounds short true (sell ∷ ss) = Rounds short false ss
Rounds true false (sell ∷ ss) = Rounds true true ss
Rounds false false (sell ∷ ss) = ⊥

-- the results other than NONE
abbrev pub signalled : List Signal → List Signal
signalled [] = []
signalled (none_signal ∷ ss) = signalled ss
signalled (buy ∷ ss) = buy ∷ signalled ss
signalled (sell ∷ ss) = sell ∷ signalled ss

Rounds-step :
    (short before : Bool) (sig : Signal) (after : Bool) (ss : List Signal)
    → Turns short before sig after
    → Rounds short after ss
    → Rounds short before (sig ∷ ss)
Rounds-step short before none_signal after ss t h = subst (λ b. Rounds short b ss) t h
Rounds-step short true buy after ss t h = ground arith
Rounds-step short false buy after ss t h = subst (λ b. Rounds short b ss) t.1 h
Rounds-step true true sell after ss t h = subst (λ b. Rounds true b ss) t h
Rounds-step true false sell after ss t h = subst (λ b. Rounds true b ss) t h
Rounds-step false true sell after ss t h = subst (λ b. Rounds false b ss) t.1 h
Rounds-step false false sell after ss t h = ground arith

append-one :
    (xs : List Signal) (y : Signal) (ys : List Signal) → (xs ++ y ∷ []) ++ ys ≡ xs ++ y ∷ ys
append-one [] y ys = refl
append-one (x ∷ xs) y ys = ap (λ l. x ∷ l) (append-one xs y ys)

append-nil : (xs : List Signal) → xs ≡ xs ++ []
append-nil [] = refl
append-nil (x ∷ xs) = ap (λ l. x ∷ l) (append-nil xs)

module _ {W : Type 0} where
  abbrev pub logged : Base W → List Signal
  logged b = map (λ e. e.signal) b.signals

  logged-append :
      (xs : List (SignalEvent W)) (e : SignalEvent W)
      → map (λ x. x.signal) (xs ++ e ∷ []) ≡ map (λ x. x.signal) xs ++ e.signal ∷ []
  logged-append [] e = refl
  logged-append (x ∷ xs) e = ap (λ l. x.signal ∷ l) (logged-append xs e)

  -- one more event, before the others
  logged-cons :
      (b c : Base W) (sig : Signal) (ss : List Signal)
      → c.signals ≡ b.signals ++ c.last_signal ∷ []
      → c.last_signal.signal ≡ sig
      → logged c ++ ss ≡ logged b ++ sig ∷ ss
  logged-cons b c sig ss e f =
      ap (λ l. map (λ x. x.signal) l ++ ss) e
      ∙ ap (λ l. l ++ ss) (logged-append b.signals c.last_signal)
      ∙ append-one (logged b) (c.last_signal.signal) ss
      ∙ ap (λ s. logged b ++ s ∷ ss) f

  logged-step :
      (b : Base W) (sig : Signal) (c : Base W) (ss : List Signal)
      → Logs b sig c
      → logged c ++ signalled ss ≡ logged b ++ signalled (sig ∷ ss)
  logged-step b none_signal c ss h = ap (λ l. map (λ x. x.signal) l ++ signalled ss) h.0
  logged-step b buy c ss h = logged-cons b c buy (signalled ss) h.0 h.1
  logged-step b sell c ss h = logged-cons b c sell (signalled ss) h.0 h.1

module _ {W : Type 0} ⦃d : Double W⦄ (to_string : W → String) where
  update_lem :
      (a : Algorithm W) (t : TickData W)
      → let (sig, b) = update to_string a t in
        Turns (may_short a) (in_position a) sig (in_position b)
        × Logs (base_of a) sig (base_of b)
        × (may_short b ≡ may_short a)
  unfolding update
  update_lem (rsi_mean_reversion a) t =
      let (turns, logs) = RsiMeanReversion.update_lem a t in (turns, logs, refl)
  update_lem (macd_crossover a) t =
      let (turns, logs) = MacdCrossover.update_lem a t in (turns, logs, refl)
  update_lem (dual_sma a) t = let (turns, logs) = DualSma.update_lem a t in (turns, logs, refl)
  update_lem (momentum_burst a) t =
      let (turns, logs) = MomentumBurst.update_lem to_string a t in (turns, logs, refl)
  update_lem (supertrend a) t = let (turns, logs) = Supertrend.update_lem a t in (turns, logs, refl)
  update_lem (vwap_breakout a) t =
      let (turns, logs) = VwapBreakout.update_lem to_string a t in (turns, logs, refl)
  update_lem (trade_size_spike a) t =
      let (turns, logs) = TradeSizeSpike.update_lem a t in (turns, logs, refl)
  update_lem (delta_momentum a) t =
      let (turns, logs) = DeltaMomentum.update_lem a t in (turns, logs, refl)
  update_lem (spread_compression a) t =
      let (turns, logs) = SpreadCompression.update_lem a t in (turns, logs, refl)
  update_lem (volatility_momentum a) t =
      let (turns, logs) = VolatilityMomentum.update_lem a t in (turns, logs, refl)

  -- Over any ticks, the signals of an algorithm are entries and exits that take turns. An exit is
  -- always SELL. An entry is always BUY, except that VWAP Breakout, Trade Size Spike and Volatility
  -- Momentum may also enter by SELL; then both the entry and the exit are SELL.
  pub run-Rounds :
      (a : Algorithm W) (ts : List (TickData W))
      → Rounds (may_short a) (in_position a) (run to_string a ts).0
  unfolding run
  run-Rounds a [] = tt
  run-Rounds a (t ∷ ts) =
      let (sig, b) = update to_string a t in
      let (turns, _, same) = update_lem a t in
      Rounds-step (may_short a) (in_position a) sig (in_position b) (run to_string b ts).0 turns
        (subst (λ s. Rounds s (in_position b) (run to_string b ts).0) same (run-Rounds b ts))

  -- The log of an algorithm grows by exactly the signals that `update` returns, in their order; NONE
  -- leaves it alone.
  pub run-logged :
      (a : Algorithm W) (ts : List (TickData W))
      → logged (base_of (run to_string a ts).1)
        ≡ logged (base_of a) ++ signalled (run to_string a ts).0
  unfolding run
  run-logged a [] = append-nil (logged (base_of a))
  run-logged a (t ∷ ts) =
      let (sig, b) = update to_string a t in
      let (_, logs, _) = update_lem a t in
      run-logged b ts ∙ logged-step (base_of a) sig (base_of b) (run to_string b ts).0 logs

module _ {W : Type 0} ⦃d : Double W⦄ where
  -- `reset` empties the log of every algorithm but keeps its position: the runs after a `reset` take
  -- their turns from the position that was held before.
  pub reset_lem :
      (a : Algorithm W)
      → ((base_of (reset a)).signals ≡ []) × (in_position (reset a) ≡ in_position a)
  unfolding reset
  reset_lem (rsi_mean_reversion a) = RsiMeanReversion.reset_lem a
  reset_lem (macd_crossover a) = MacdCrossover.reset_lem a
  reset_lem (dual_sma a) = DualSma.reset_lem a
  reset_lem (momentum_burst a) = MomentumBurst.reset_lem a
  reset_lem (supertrend a) = Supertrend.reset_lem a
  reset_lem (vwap_breakout a) = VwapBreakout.reset_lem a
  reset_lem (trade_size_spike a) = TradeSizeSpike.reset_lem a
  reset_lem (delta_momentum a) = DeltaMomentum.reset_lem a
  reset_lem (spread_compression a) = SpreadCompression.reset_lem a
  reset_lem (volatility_momentum a) = VolatilityMomentum.reset_lem a

  -- The registry creates, under the name of each of the ten algorithms, that algorithm with its
  -- defaults, out of position and with an empty log.
  pub create_lem :
      (tick : TickData W)
      → All
          (λ a.
            (create tick (name a) ≡ some a) × (in_position a ≡ false) × ((base_of a).signals ≡ []))
          (factories tick)
  unfolding create
  create_lem tick = (
    (refl, refl, refl),
    (
      (refl, refl, refl),
      (
        (refl, refl, refl),
        (
          (refl, refl, refl),
          (
            (refl, refl, refl),
            (
              (refl, refl, refl),
              (
                (refl, refl, refl),
                ((refl, refl, refl), ((refl, refl, refl), ((refl, refl, refl), tt))),
              ),
            ),
          ),
        ),
      ),
    ),
  )

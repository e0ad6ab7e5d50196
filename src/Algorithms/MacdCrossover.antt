-- ===== src/Algorithms/MacdCrossover.antt =====
-- `MACDCrossover` (src/TradingAlgorithms.cpp).
use quant_sim_x.Prelude.{ℕ, ◌≡◌, refl, ◌+◌, Bool, true, false, not, ◌&&◌, [], arith, if◌then◌else◌}
use quant_sim_x.Double.{Double, gt, nought}
use quant_sim_x.Signals.{Signal, none_signal, buy, sell, TickData}
use quant_sim_x.Algorithms.{Base, see, emit_signal, forget, Turns, Logs}

pub record MacdCrossover {ℓ} (W : Type ℓ) : Type ℓ where
  pub base : Base W
  pub in_position : Bool
  pub fast_period : ℕ
  pub slow_period : ℕ
  pub signal_period : ℕ
  pub ema_fast : W
  pub ema_slow : W
  pub macd_line : W
  pub signal_line : W

module _ {ℓ} {W : Type ℓ} ⦃d : Double W⦄ where
  open d use {le, eq, add, sub, mul, div, of_nat}

  unfoldable pub update : MacdCrossover W → TickData W → Signal × MacdCrossover W
  update a tick =
      let s = record a { base = see a.base tick } in
      let smooth : ℕ → W → W → W = λ period x old.
        let alpha = div (of_nat 2) (of_nat (period + 1)) in
        add (mul x alpha) (mul old (sub (of_nat 1) alpha)) in
      let fast = smooth s.fast_period tick.price s.ema_fast in
      let slow = smooth s.slow_period tick.price s.ema_slow in
      let new_macd = sub fast slow in
      let new_signal = smooth s.signal_period new_macd s.signal_line in
      let was_above = gt s.macd_line s.signal_line in
      let is_above = gt new_macd new_signal in
      let r = record s {
        ema_fast = fast;
        ema_slow = slow;
        macd_line = new_macd;
        signal_line = new_signal;
      } in
      if le tick.price nought
      then (none_signal, s)
      else if eq s.ema_fast nought
      then (
        none_signal,
        record s {
          ema_fast = tick.price;
          ema_slow = tick.price;
          macd_line = nought;
          signal_line = nought;
        },
      )
      else if is_above && (not was_above && not s.in_position)
      then (
        buy,
        record r { in_position = true; base = emit_signal s.base buy "MACD bullish crossover" },
      )
      else if not is_above && (was_above && s.in_position)
      then (
        sell,
        record r { in_position = false; base = emit_signal s.base sell "MACD bearish crossover" },
      )
      else (none_signal, r)

module _ {ℓ} {W : Type ℓ} ⦃d : Double W⦄ where
  open d use {of_nat}

  unfoldable pub reset : MacdCrossover W → MacdCrossover W
  reset a = record a { base = forget a.base; ema_fast = of_nat 0; ema_slow = of_nat 0 }

module _ {W : Type 0} ⦃d : Double W⦄ where
  pub update_lem :
      (a : MacdCrossover W) (t : TickData W)
      → let (sig, b) = update a t in
        Turns false a.in_position sig b.in_position × Logs a.base sig b.base
  unfolding update
  update_lem a t = ground arith

module _ {W : Type 0} ⦃d : Double W⦄ where
  pub reset_lem :
      (a : MacdCrossover W)
      → ((reset a).base.signals ≡ []) × ((reset a).in_position ≡ a.in_position)
  unfolding reset
  reset_lem a = (refl, refl)

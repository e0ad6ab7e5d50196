-- ===== src/Algorithms/RsiMeanReversion.antt =====
-- `RSIMeanReversion` (src/TradingAlgorithms.cpp).
use quant_sim_x.Prelude.{
  ◌≡◌, refl, Bool, true, false, not, Option, none, some, ◌&&◌, [], arith, if◌then◌else◌,
}
use quant_sim_x.Prelude.Text.{Text}
use quant_sim_x.Double.{Double, gt, nought}
use quant_sim_x.Signals.{Signal, none_signal, buy, sell, TickData}
use quant_sim_x.Algorithms.{Base, see, emit_signal, forget, Turns, Logs}

pub record RsiMeanReversion {ℓ} (W : Type ℓ) : Type ℓ where
  pub base : Base W
  pub in_position : Bool
  pub oversold : W
  pub overbought : W

module _ {ℓ} {W : Type ℓ} ⦃d : Double W⦄ where
  open d use {lt, le}

  unfoldable pub update : RsiMeanReversion W → TickData W → Signal × RsiMeanReversion W
  update a tick =
      let s = record a { base = see a.base tick } in
      if le tick.rsi nought
      then (none_signal, s)
      else if lt tick.rsi s.oversold && not s.in_position
      then (buy, record s { in_position = true; base = emit_signal s.base buy "RSI oversold" })
      else if gt tick.rsi s.overbought && s.in_position
      then (sell, record s { in_position = false; base = emit_signal s.base sell "RSI overbought" })
      else (none_signal, s)

module _ {ℓ} {W : Type ℓ} ⦃d : Double W⦄ where
  open d use {of_nat}

  unfoldable pub reset : RsiMeanReversion W → RsiMeanReversion W
  reset a = record a { base = forget a.base }

-- `configure`: `ss >> oversold_ >> delim >> overbought_`. `read_number` is `>>` of a double, which
-- stores a value in any case, with the rest of the stream or `none` where it fails; `read_char` is that
-- of a character. Behind a failure the stream reads nothing more.
module _ {ℓ} {W : Type ℓ} (read_number : Text → W × Option Text)
    (read_char : Text → Option Text) where
  unfoldable pub configure : RsiMeanReversion W → Text → RsiMeanReversion W
  configure a params =
      let (low, rest) = read_number params in
      let b = record a { oversold = low } in
      elim rest [
        | none ↦ b
        | some s ↦ elim (read_char s) [
          | none ↦ b
          | some t ↦ record b { overbought = (read_number t).0 }
        ]
      ]

module _ {W : Type 0} ⦃d : Double W⦄ where
  pub update_lem :
      (a : RsiMeanReversion W) (t : TickData W)
      → let (sig, b) = update a t in
        Turns false a.in_position sig b.in_position × Logs a.base sig b.base
  unfolding update
  update_lem a t = ground arith

module _ {W : Type 0} ⦃d : Double W⦄ where
  pub reset_lem :
      (a : RsiMeanReversion W)
      → ((reset a).base.signals ≡ []) × ((reset a).in_position ≡ a.in_position)
  unfolding reset
  reset_lem a = (refl, refl)

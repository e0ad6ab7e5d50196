-- ===== src/Algorithms/SpreadCompression.antt =====
-- `SpreadCompression` (src/TradingAlgorithms.cpp).
use quant_sim_x.Prelude.{◌≡◌, refl, Bool, true, false, not, ◌&&◌, ◌||◌, [], arith, if◌then◌else◌}
use quant_sim_x.Double.{Double, gt, nought}
use quant_sim_x.Signals.{Signal, none_signal, buy, sell, TickData, mid_price}
use quant_sim_x.Algorithms.{Base, see, emit_signal, forget, Turns, Logs}

pub record SpreadCompression {ℓ} (W : Type ℓ) : Type ℓ where
  pub base : Base W
  pub in_position : Bool
  pub narrow_bps : W
  pub wide_bps : W

module _ {ℓ} {W : Type ℓ} ⦃d : Double W⦄ where
  open d use {lt, le, sub, mul, div, of_nat}

  unfoldable pub update : SpreadCompression W → TickData W → Signal × SpreadCompression W
  update a tick =
      let s = record a { base = see a.base tick } in
      let spread = mul (div (sub tick.ask_price tick.bid_price) (mid_price tick)) (of_nat 10000) in
      if le tick.bid_price nought || le tick.ask_price nought
      then (none_signal, s)
      else if lt spread s.narrow_bps && not s.in_position
      then (buy, record s { in_position = true; base = emit_signal s.base buy "Spread compressed" })
      else if gt spread s.wide_bps && s.in_position
      then (sell, record s { in_position = false; base = emit_signal s.base sell "Spread widened" })
      else (none_signal, s)

module _ {ℓ} {W : Type ℓ} ⦃d : Double W⦄ where
  open d use {of_nat}

  unfoldable pub reset : SpreadCompression W → SpreadCompression W
  reset a = record a { base = forget a.base }

module _ {W : Type 0} ⦃d : Double W⦄ where
  pub update_lem :
      (a : SpreadCompression W) (t : TickData W)
      → let (sig, b) = update a t in
        Turns false a.in_position sig b.in_position × Logs a.base sig b.base
  unfolding update
  update_lem a t = ground arith

module _ {W : Type 0} ⦃d : Double W⦄ where
  pub reset_lem :
      (a : SpreadCompression W)
      → ((reset a).base.signals ≡ []) × ((reset a).in_position ≡ a.in_position)
  unfolding reset
  reset_lem a = (refl, refl)

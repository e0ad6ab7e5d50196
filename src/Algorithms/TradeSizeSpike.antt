-- ===== src/Algorithms/TradeSizeSpike.antt =====
-- `TradeSizeSpike` (src/TradingAlgorithms.cpp).
use quant_sim_x.Prelude.{
  ℕ, ◌≡◌, refl, Bool, true, false, not, ◌&&◌, List, [], ◌∷◌, ◌++◌, length, ltb, arith,
  if◌then◌else◌,
}
use quant_sim_x.Double.{Double, gt, nought}
use quant_sim_x.Signals.{Signal, none_signal, buy, sell, TickData}
use quant_sim_x.Algorithms.{Base, see, emit_signal, keep_last, sum_from, forget, Turns, Logs}

pub record TradeSizeSpike {ℓ} (W : Type ℓ) : Type ℓ where
  pub base : Base W
  pub in_position : Bool
  pub spike_multiplier : W
  pub window : ℕ
  pub trade_sizes : List W

module _ {ℓ} {W : Type ℓ} ⦃d : Double W⦄ where
  open d use {lt, le, mul, div, decimal, of_nat}

  unfoldable pub update : TradeSizeSpike W → TickData W → Signal × TradeSizeSpike W
  update a tick =
      let s = record a { base = see a.base tick } in
      let sizes = keep_last s.window (s.trade_sizes ++ tick.volume ∷ []) in
      let r = record s { trade_sizes = sizes } in
      let avg_size = div (sum_from nought sizes) (of_nat (length sizes)) in
      let side = if tick.is_buy_tick then buy else sell in
      if le tick.volume nought
      then (none_signal, s)
      else if ltb (length sizes) s.window
      then (none_signal, r)
      else if gt tick.volume (mul avg_size s.spike_multiplier) && not s.in_position
      then (
        side,
        record r { in_position = true; base = emit_signal s.base side "Large trade detected" },
      )
      else if s.in_position && lt tick.volume (mul avg_size (decimal 15 1))
      then (
        sell,
        record r { in_position = false; base = emit_signal s.base sell "Trade size normalized" },
      )
      else (none_signal, r)

module _ {ℓ} {W : Type ℓ} ⦃d : Double W⦄ where
  open d use {of_nat}

  unfoldable pub reset : TradeSizeSpike W → TradeSizeSpike W
  reset a = record a { base = forget a.base; trade_sizes = [] }

module _ {W : Type 0} ⦃d : Double W⦄ where
  pub update_lem :
      (a : TradeSizeSpike W) (t : TickData W)
      → let (sig, b) = update a t in
        Turns true a.in_position sig b.in_position × Logs a.base sig b.base
  unfolding update
  update_lem a t = ground arith

module _ {W : Type 0} ⦃d : Double W⦄ where
  pub reset_lem :
      (a : TradeSizeSpike W)
      → ((reset a).base.signals ≡ []) × ((reset a).in_position ≡ a.in_position)
  unfolding reset
  reset_lem a = (refl, refl)

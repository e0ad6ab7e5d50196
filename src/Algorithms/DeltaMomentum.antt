-- ===== src/Algorithms/DeltaMomentum.antt =====
-- `DeltaMomentum` (src/TradingAlgorithms.cpp).
use quant_sim_x.Prelude.{
  ℕ, ◌≡◌, refl, ◌-◌, Bool, true, false, not, ◌&&◌, List, [], ◌∷◌, ◌++◌, length, get_or, ltb, arith,
  if◌then◌else◌,
}
use quant_sim_x.Double.{Double, gt, nought}
use quant_sim_x.Signals.{Signal, none_signal, buy, sell, TickData}
use quant_sim_x.Algorithms.{Base, see, emit_signal, keep_last, forget, Turns, Logs}

pub record DeltaMomentum {ℓ} (W : Type ℓ) : Type ℓ where
  pub base : Base W
  pub in_position : Bool
  pub threshold : W
  pub window : ℕ
  pub deltas : List W
  pub cum_delta : W

module _ {ℓ} {W : Type ℓ} ⦃d : Double W⦄ where
  open d use {add, neg}

  unfoldable pub update : DeltaMomentum W → TickData W → Signal × DeltaMomentum W
  update a tick =
      let s = record a { base = see a.base tick } in
      let cum_delta = add s.cum_delta (if tick.is_buy_tick then tick.volume else neg tick.volume) in
      let deltas = keep_last s.window (s.deltas ++ cum_delta ∷ []) in
      let r = record s { deltas = deltas; cum_delta = cum_delta } in
      let was_positive = gt (get_or deltas (length deltas - 2) nought) s.threshold in
      let is_positive = gt cum_delta s.threshold in
      if ltb (length deltas) 2
      then (none_signal, r)
      else if is_positive && (not was_positive && not s.in_position)
      then (
        buy,
        record r { in_position = true; base = emit_signal s.base buy "Delta turned positive" },
      )
      else if not is_positive && (was_positive && s.in_position)
      then (
        sell,
        record r { in_position = false; base = emit_signal s.base sell "Delta turned negative" },
      )
      else (none_signal, r)

module _ {ℓ} {W : Type ℓ} ⦃d : Double W⦄ where
  open d use {of_nat}

  unfoldable pub reset : DeltaMomentum W → DeltaMomentum W
  reset a = record a { base = forget a.base; deltas = [] }

module _ {W : Type 0} ⦃d : Double W⦄ where
  pub update_lem :
      (a : DeltaMomentum W) (t : TickData W)
      → let (sig, b) = update a t in
        Turns false a.in_position sig b.in_position × Logs a.base sig b.base
  unfolding update
  update_lem a t = ground arith

module _ {W : Type 0} ⦃d : Double W⦄ where
  pub reset_lem :
      (a : DeltaMomentum W)
      → ((reset a).base.signals ≡ []) × ((reset a).in_position ≡ a.in_position)
  unfolding reset
  reset_lem a = (refl, refl)

-- ===== src/Algorithms/Supertrend.antt =====
-- `Supertrend` (src/TradingAlgorithms.cpp).
use quant_sim_x.Prelude.{
  ℕ, ◌≡◌, refl, Bool, true, false, not, ◌&&◌, List, [], ◌∷◌, ◌++◌, length, ltb, arith,
  if◌then◌else◌,
}
use quant_sim_x.Double.{Double, gt, nought, max_of, min_of}
use quant_sim_x.Signals.{Signal, none_signal, buy, sell, TickData}
use quant_sim_x.Algorithms.{Base, see, emit_signal, keep_last, back, sum_from, forget, Turns, Logs}

pub record Supertrend {ℓ} (W : Type ℓ) : Type ℓ where
  pub base : Base W
  pub in_position : Bool
  pub period : ℕ
  pub multiplier : W
  pub price_history : List W
  pub tr_list : List W
  pub upper_band : W
  pub lower_band : W

module _ {ℓ} {W : Type ℓ} ⦃d : Double W⦄ where
  open d use {lt, le, add, sub, mul, div, abs, of_nat}

  unfoldable pub update : Supertrend W → TickData W → Signal × Supertrend W
  update a tick =
      let s = record a { base = see a.base tick } in
      let last = back s.price_history in
      let tr =
        max_of (sub tick.price last)
          (max_of (abs (sub tick.price last)) (abs (sub tick.price last))) in
      let trs : List W = elim s.price_history [
        | [] ↦ s.tr_list
        | _ ∷ _ ↦ keep_last s.period (s.tr_list ++ tr ∷ [])
      ] in
      let r = record s {
        tr_list = trs;
        price_history = keep_last s.period (s.price_history ++ tick.price ∷ []);
      } in
      let atr = div (sum_from nought trs) (of_nat s.period) in
      let upper = add tick.price (mul s.multiplier atr) in
      let lower = sub tick.price (mul s.multiplier atr) in
      let banded = gt s.upper_band nought in
      let q = record r {
        upper_band = if banded then min_of upper s.upper_band else upper;
        lower_band = if banded then max_of lower s.lower_band else lower;
      } in
      if le tick.price nought
      then (none_signal, s)
      else if ltb (length trs) s.period
      then (none_signal, r)
      else if gt tick.price s.upper_band && not s.in_position
      then (buy, record q { in_position = true; base = emit_signal s.base buy "Supertrend long" })
      else if lt tick.price s.lower_band && s.in_position
      then (
        sell,
        record q { in_position = false; base = emit_signal s.base sell "Supertrend short" },
      )
      else (none_signal, q)

module _ {ℓ} {W : Type ℓ} ⦃d : Double W⦄ where
  open d use {of_nat}

  unfoldable pub reset : Supertrend W → Supertrend W
  reset a = record a { base = forget a.base; tr_list = [] }

module _ {W : Type 0} ⦃d : Double W⦄ where
  pub update_lem :
      (a : Supertrend W) (t : TickData W)
      → let (sig, b) = update a t in
        Turns false a.in_position sig b.in_position × Logs a.base sig b.base
  unfolding update
  update_lem a t = ground arith

module _ {W : Type 0} ⦃d : Double W⦄ where
  pub reset_lem :
      (a : Supertrend W) → ((reset a).base.signals ≡ []) × ((reset a).in_position ≡ a.in_position)
  unfolding reset
  reset_lem a = (refl, refl)

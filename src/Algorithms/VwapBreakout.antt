-- ===== src/Algorithms/VwapBreakout.antt =====
-- `VWAPBreakout` (src/TradingAlgorithms.cpp).
use Prim.Native.String.{String, ◌++◌ as append}
use quant_sim_x.Prelude.{
  ℕ, ◌≡◌, refl, Bool, true, false, not, ◌&&◌, ◌||◌, List, [], ◌∷◌, ◌++◌, arith, if◌then◌else◌,
}
use quant_sim_x.Double.{Double, gt, nought}
use quant_sim_x.Signals.{Signal, none_signal, buy, sell, TickData}
use quant_sim_x.Algorithms.{Base, see, emit_signal, forget, Turns, Logs}

pub record VwapBreakout {ℓ} (W : Type ℓ) : Type ℓ where
  pub base : Base W
  pub in_position : Bool
  pub threshold_pct : W
  pub vwap_history : List (ℕ × W × W)

module _ {ℓ} {W : Type ℓ} ⦃d : Double W⦄ (to_string : W → String) where
  open d use {lt, le, sub, mul, div, abs, neg, decimal, of_nat}

  unfoldable pub update : VwapBreakout W → TickData W → Signal × VwapBreakout W
  update a tick =
      let s = record a { base = see a.base tick } in
      let r = record s {
        vwap_history = s.vwap_history ++ (tick.timestamp_ms, tick.vwap, tick.volume) ∷ [];
      } in
      let change_pct = mul (div (sub tick.price tick.vwap) tick.vwap) (of_nat 100) in
      if le tick.vwap nought || le tick.price nought
      then (none_signal, s)
      else if gt change_pct s.threshold_pct && not s.in_position
      then (
        buy,
        record r {
          in_position = true;
          base =
              emit_signal s.base buy (append "VWAP breakout +" (append (to_string change_pct) "%"));
        },
      )
      else if lt change_pct (neg s.threshold_pct) && not s.in_position
      then (
        sell,
        record r {
          in_position = true;
          base =
              emit_signal s.base sell
                (append "VWAP breakdown " (append (to_string change_pct) "%"));
        },
      )
      else if s.in_position && lt (abs change_pct) (mul s.threshold_pct (decimal 5 1))
      then (
        sell,
        record r { in_position = false; base = emit_signal s.base sell "Price returned to VWAP" },
      )
      else (none_signal, r)

module _ {ℓ} {W : Type ℓ} ⦃d : Double W⦄ where
  open d use {of_nat}

  unfoldable pub reset : VwapBreakout W → VwapBreakout W
  reset a = record a { base = forget a.base; vwap_history = [] }

module _ {W : Type 0} ⦃d : Double W⦄ (to_string : W → String) where
  pub update_lem :
      (a : VwapBreakout W) (t : TickData W)
      → let (sig, b) = update to_string a t in
        Turns true a.in_position sig b.in_position × Logs a.base sig b.base
  unfolding update
  update_lem a t = ground arith

module _ {W : Type 0} ⦃d : Double W⦄ where
  pub reset_lem :
      (a : VwapBreakout W) → ((reset a).base.signals ≡ []) × ((reset a).in_position ≡ a.in_position)
  unfolding reset
  reset_lem a = (refl, refl)

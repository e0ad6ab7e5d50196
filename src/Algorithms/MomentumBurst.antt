-- ===== src/Algorithms/MomentumBurst.antt =====
-- `MomentumBurst` (src/TradingAlgorithms.cpp).
use Prim.Native.String.{String, ◌++◌ as append}
use quant_sim_x.Prelude.{
  ℕ, ◌≡◌, refl, Bool, true, false, not, ◌&&◌, ◌||◌, List, [], ◌∷◌, ◌++◌, length, get_or, ltb, sub64,
  arith, if◌then◌else◌,
}
use quant_sim_x.Double.{Double, gt, nought}
use quant_sim_x.Signals.{Signal, none_signal, buy, sell, TickData}
use quant_sim_x.Algorithms.{Base, see, emit_signal, forget, Turns, Logs}

pub record MomentumBurst {ℓ} (W : Type ℓ) : Type ℓ where
  pub base : Base W
  pub in_position : Bool
  pub threshold_pct : W
  pub window_ms : ℕ
  pub burst_prices : List (ℕ × W)
  pub entry_price : W

module _ {ℓ} {W : Type ℓ} ⦃d : Double W⦄ (to_string : W → String) where
  open d use {lt, le, sub, mul, div, neg, of_nat}

  -- `while (!empty() && front().first < cutoff) pop_front()`
  abbrev drop_before : ℕ → List (ℕ × W) → List (ℕ × W)
  drop_before cutoff [] = []
  drop_before cutoff (x ∷ xs) = if ltb x.0 cutoff then drop_before cutoff xs else x ∷ xs

  unfoldable pub update : MomentumBurst W → TickData W → Signal × MomentumBurst W
  update a tick =
      let s = record a { base = see a.base tick } in
      let cutoff = sub64 tick.timestamp_ms s.window_ms in
      let kept = drop_before cutoff s.burst_prices ++ (tick.timestamp_ms, tick.price) ∷ [] in
      let r = record s { burst_prices = kept } in
      let earliest = (get_or kept 0 (0, nought)).1 in
      let change_pct = mul (div (sub tick.price earliest) earliest) (of_nat 100) in
      let drawdown = mul (div (sub tick.price s.entry_price) s.entry_price) (of_nat 100) in
      if le tick.price nought
      then (none_signal, s)
      else if ltb (length kept) 2
      then (none_signal, r)
      else if gt change_pct s.threshold_pct && not s.in_position
      then (
        buy,
        record r {
          in_position = true;
          entry_price = tick.price;
          base =
              emit_signal s.base buy
                (append "Momentum burst +" (append (to_string change_pct) "%"));
        },
      )
      else if s.in_position
          && (lt drawdown (neg s.threshold_pct)
              || (lt change_pct (neg s.threshold_pct) && lt change_pct nought))
      then (
        sell,
        record r { in_position = false; base = emit_signal s.base sell "Momentum reversal" },
      )
      else (none_signal, r)

module _ {ℓ} {W : Type ℓ} ⦃d : Double W⦄ where
  open d use {of_nat}

  unfoldable pub reset : MomentumBurst W → MomentumBurst W
  reset a = record a { base = forget a.base; burst_prices = [] }

module _ {W : Type 0} ⦃d : Double W⦄ (to_string : W → String) where
  pub update_lem :
      (a : MomentumBurst W) (t : TickData W)
      → let (sig, b) = update to_string a t in
        Turns false a.in_position sig b.in_position × Logs a.base sig b.base
  unfolding update
  update_lem a t = ground arith

module _ {W : Type 0} ⦃d : Double W⦄ where
  pub reset_lem :
      (a : MomentumBurst W)
      → ((reset a).base.signals ≡ []) × ((reset a).in_position ≡ a.in_position)
  unfolding reset
  reset_lem a = (refl, refl)

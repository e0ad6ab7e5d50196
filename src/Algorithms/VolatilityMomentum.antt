-- ===== src/Algorithms/VolatilityMomentum.antt =====
-- `VolatilityMomentum` (src/TradingAlgorithms.cpp).
use quant_sim_x.Prelude.{
  ℕ, ◌≡◌, refl, Bool, true, false, not, ◌&&◌, ◌||◌, List, [], ◌∷◌, ◌++◌, length, ltb, arith,
  if◌then◌else◌,
}
use quant_sim_x.Double.{Double, gt, nought}
use quant_sim_x.Signals.{Signal, none_signal, buy, sell, TickData}
use quant_sim_x.Algorithms.{Base, see, emit_signal, keep_last, back, sum_from, forget, Turns, Logs}

pub record VolatilityMomentum {ℓ} (W : Type ℓ) : Type ℓ where
  pub base : Base W
  pub in_position : Bool
  pub lookback : ℕ
  pub burst_threshold : W
  pub price_history : List W
  pub returns : List W

module _ {ℓ} {W : Type ℓ} ⦃d : Double W⦄ where
  open d use {lt, le, add, sub, mul, div, abs, sqrt, decimal, of_nat}

  abbrev sum_squares : W → W → List W → W
  sum_squares mean acc [] = acc
  sum_squares mean acc (x ∷ xs) = sum_squares mean (add acc (mul (sub x mean) (sub x mean))) xs

  unfoldable pub update : VolatilityMomentum W → TickData W → Signal × VolatilityMomentum W
  update a tick =
      let s = record a { base = see a.base tick } in
      let last = back s.price_history in
      let ret = mul (div (sub tick.price last) last) (of_nat 100) in
      let seen = s.price_history ++ tick.price ∷ [] in
      let returns = keep_last s.lookback (s.returns ++ abs ret ∷ []) in
      let r = record s { price_history = keep_last s.lookback seen; returns = returns } in
      let size = of_nat (length returns) in
      let avg_vol = div (sum_from nought returns) size in
      let stddev = sqrt (div (sum_squares avg_vol nought returns) size) in
      let side = if gt ret nought then buy else sell in
      if le tick.price nought || ltb (length s.price_history) 2
      then (none_signal, record s { price_history = seen })
      else if ltb (length returns) s.lookback
      then (none_signal, r)
      else if lt stddev (mul avg_vol (decimal 5 1))
          && (gt (abs ret) (mul avg_vol s.burst_threshold) && not s.in_position)
      then (
        side,
        record r { in_position = true; base = emit_signal s.base side "Vol momentum burst" },
      )
      else if s.in_position && gt stddev (mul avg_vol (of_nat 2))
      then (
        sell,
        record r { in_position = false; base = emit_signal s.base sell "Volatility expansion" },
      )
      else (none_signal, r)

module _ {ℓ} {W : Type ℓ} ⦃d : Double W⦄ where
  open d use {of_nat}

  unfoldable pub reset : VolatilityMomentum W → VolatilityMomentum W
  reset a = record a { base = forget a.base; returns = [] }

module _ {W : Type 0} ⦃d : Double W⦄ where
  pub update_lem :
      (a : VolatilityMomentum W) (t : TickData W)
      → let (sig, b) = update a t in
        Turns true a.in_position sig b.in_position × Logs a.base sig b.base
  unfolding update
  update_lem a t = ground arith

module _ {W : Type 0} ⦃d : Double W⦄ where
  pub reset_lem :
      (a : VolatilityMomentum W)
      → ((reset a).base.signals ≡ []) × ((reset a).in_position ≡ a.in_position)
  unfolding reset
  reset_lem a = (refl, refl)

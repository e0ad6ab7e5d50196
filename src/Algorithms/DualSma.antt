-- ===== src/Algorithms/DualSma.antt =====
-- `DualSMA` (src/TradingAlgorithms.cpp).
use quant_sim_x.Prelude.{
  ℕ, ◌≡◌, refl, ◌-◌, zero, suc, Bool, true, false, not, ◌&&◌, List, [], ◌∷◌, ◌++◌, length, get_or,
  ltb, arith, if◌then◌else◌,
}
use quant_sim_x.Double.{Double, gt, nought}
use quant_sim_x.Signals.{Signal, none_signal, buy, sell, TickData}
use quant_sim_x.Algorithms.{Base, see, emit_signal, keep_last, forget, Turns, Logs}

pub record DualSma {ℓ} (W : Type ℓ) : Type ℓ where
  pub base : Base W
  pub in_position : Bool
  pub fast_period : ℕ
  pub slow_period : ℕ
  pub prices : List W
  pub prev_fast_sma : W
  pub prev_slow_sma : W

module _ {ℓ} {W : Type ℓ} ⦃d : Double W⦄ where
  open d use {le, add, sub, mul, div, of_nat}

  -- `for (int i = 0; i < n; ++i) acc += prices_[prices_.size() - 1 - i]`, from `i` on. The fast
  -- period is at most the slow one, so no read is out of the deque.
  abbrev sum_back : W → List W → ℕ → ℕ → W
  sum_back acc xs zero i = acc
  sum_back acc xs (suc n) i = sum_back (add acc (get_or xs (length xs - 1 - i) nought)) xs n (suc i)

  unfoldable pub update : DualSma W → TickData W → Signal × DualSma W
  update a tick =
      let s = record a { base = see a.base tick } in
      let prices = keep_last s.slow_period (s.prices ++ tick.price ∷ []) in
      let r = record s { prices = prices } in
      let fast_sma = div (sum_back nought prices s.fast_period 0) (of_nat s.fast_period) in
      let slow_sma = div (sum_back nought prices s.slow_period 0) (of_nat s.slow_period) in
      let was_above = gt s.prev_fast_sma s.prev_slow_sma in
      let is_above = gt fast_sma slow_sma in
      let q = record r { prev_fast_sma = fast_sma; prev_slow_sma = slow_sma } in
      if le tick.price nought
      then (none_signal, s)
      else if ltb (length prices) s.slow_period
      then (none_signal, r)
      else if is_above && (not was_above && not s.in_position)
      then (
        buy,
        record q {
          in_position = true;
          base = emit_signal s.base buy "Fast SMA crossed above slow SMA";
        },
      )
      else if not is_above && (was_above && s.in_position)
      then (
        sell,
        record q {
          in_position = false;
          base = emit_signal s.base sell "Fast SMA crossed below slow SMA";
        },
      )
      else (none_signal, q)

module _ {ℓ} {W : Type ℓ} ⦃d : Double W⦄ where
  open d use {of_nat}

  unfoldable pub reset : DualSma W → DualSma W
  reset a = record a { base = forget a.base; prices = [] }

module _ {W : Type 0} ⦃d : Double W⦄ where
  pub update_lem :
      (a : DualSma W) (t : TickData W)
      → let (sig, b) = update a t in
        Turns false a.in_position sig b.in_position × Logs a.base sig b.base
  unfolding update
  update_lem a t = ground arith

module _ {W : Type 0} ⦃d : Double W⦄ where
  pub reset_lem :
      (a : DualSma W) → ((reset a).base.signals ≡ []) × ((reset a).in_position ≡ a.in_position)
  unfolding reset
  reset_lem a = (refl, refl)

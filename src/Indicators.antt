-- ===== src/Indicators.antt =====
-- `VWAPCalculator` (include/VWAPCalculator.h, src/VWAPCalculator.cpp). The periods that the
-- constructor is given are not used; the windows are the constants below.
pub mod Vwap
pub mod Frozen
mod Tests
use quant_sim_x.Prelude.{
  ℕ, zero, suc, ◌+◌, ◌-◌, Bool, true, false, List, [], ◌∷◌, drop, take, get_or, ltb, if◌then◌else◌,
}
use quant_sim_x.Double.{Double, gt, nought}
use quant_sim_x.Queues.RingBuffer
use quant_sim_x.Queues.RingBuffer.{RingBuffer}

abbrev pub max_samples : ℕ
max_samples = 4096

abbrev pub sma_window : ℕ
sma_window = 20

abbrev pub rsi_window : ℕ
rsi_window = 14

pub record Sample {ℓ} (W : Type ℓ) : Type ℓ where
  pub timestamp_ms : ℕ
  pub price : W
  pub volume : W

pub record VwapCalculator {ℓ} (W : Type ℓ) : Type ℓ where
  pub samples : RingBuffer (Sample W)
  pub cumulative_volume_price : W
  pub cumulative_volume : W
  pub vwap : W
  pub sma : W
  pub rsi : W
  pub gain_sum : W
  pub loss_sum : W

module _ {ℓ} {W : Type ℓ} ⦃d : Double W⦄ where
  open d use {add, sub, mul, div, abs, eq, of_nat}

  pub add_price : VwapCalculator W → ℕ → W → W → VwapCalculator W
  add_price c timestamp_ms price volume =
      let s : Sample W = record { timestamp_ms = timestamp_ms; price = price; volume = volume } in
      let vp = add c.cumulative_volume_price (mul price volume) in
      let v = add c.cumulative_volume volume in
      record c {
        samples = (RingBuffer.push max_samples c.samples s).1;
        cumulative_volume_price = vp;
        cumulative_volume = v;
        vwap = if gt v nought then div vp v else c.vwap;
      }

  abbrev pub sum_prices : W → List (Sample W) → W
  sum_prices acc [] = acc
  sum_prices acc (s ∷ ss) = sum_prices (add acc s.price) ss

  -- `begin()[start]`, …, `begin()[start + 19]`: slots of the raw array
  pub compute_sma : VwapCalculator W → VwapCalculator W
  compute_sma c =
      let start = c.samples.count - sma_window in
      if ltb c.samples.count sma_window then record c { sma = nought } else record c {
        sma =
            div (sum_prices nought (take sma_window (drop start c.samples.items)))
              (of_nat sma_window);
      }

  -- the loop of `compute_rsi`: the sums of the gains and of the losses
  abbrev pub sum_changes : W → W → W → List (Sample W) → W × W
  sum_changes prev gains losses [] = (gains, losses)
  sum_changes prev gains losses (s ∷ ss) =
      let change = sub s.price prev in
      sum_changes s.price (if gt change nought then add gains change else gains)
        (if gt change nought then losses else add losses (abs change)) ss

  abbrev pub rsi_of : W → W → W
  rsi_of gains losses =
      let avg_gain = div gains (of_nat rsi_window) in
      let avg_loss = div losses (of_nat rsi_window) in
      if eq avg_loss nought
      then of_nat 100
      else sub (of_nat 100) (div (of_nat 100) (add (of_nat 1) (div avg_gain avg_loss)))

  -- `no_sample` stands for a read out of the array.
  pub compute_rsi : Sample W → VwapCalculator W → VwapCalculator W
  compute_rsi no_sample c =
      let window = take (rsi_window + 1) c.samples.items in
      let (gains, losses) =
        sum_changes (get_or window 0 no_sample).price nought nought (drop 1 window) in
      if ltb c.samples.count (rsi_window + 1)
      then record c { rsi = of_nat 50 }
      else record c { gain_sum = gains; loss_sum = losses; rsi = rsi_of gains losses }

  pub update : Sample W → VwapCalculator W → VwapCalculator W
  unfolding compute_sma compute_rsi
  update no_sample c = compute_rsi no_sample (compute_sma c)

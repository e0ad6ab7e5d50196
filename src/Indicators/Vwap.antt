-- ===== src/Indicators/Vwap.antt =====
-- The running VWAP over any number of trades.
use quant_sim_x.Prelude.{◌≡◌, true, List, [], ◌∷◌, arith}
use quant_sim_x.Double.{Double, gt, nought}
use quant_sim_x.Indicators.{Sample, VwapCalculator, add_price}

module _ {W : Type 0} ⦃d : Double W⦄ where
  open d use {add, mul, div}

  unfoldable pub add_prices : VwapCalculator W → List (Sample W) → VwapCalculator W
  add_prices c [] = c
  add_prices c (s ∷ ss) = add_prices (add_price c s.timestamp_ms s.price s.volume) ss

  -- the sums of price times volume, and of volume, in the order of the trades
  abbrev pub notional : W → List (Sample W) → W
  notional acc [] = acc
  notional acc (s ∷ ss) = notional (add acc (mul s.price s.volume)) ss

  abbrev pub volume : W → List (Sample W) → W
  volume acc [] = acc
  volume acc (s ∷ ss) = volume (add acc s.volume) ss

  -- After at least one trade, if the total volume is positive, the VWAP is the total of price times
  -- volume over the total volume, of all the trades: those that the sample buffer had no room for
  -- included.
  pub add_prices-vwap :
      (c : VwapCalculator W) (s : Sample W) (ss : List (Sample W))
      → let total = volume c.cumulative_volume (s ∷ ss) in
        gt total nought ≡ true
        → (add_prices c (s ∷ ss)).vwap ≡ div (notional c.cumulative_volume_price (s ∷ ss)) total
  unfolding add_prices add_price
  add_prices-vwap c s [] h = ground arith
  add_prices-vwap c s (t ∷ ts) h =
      add_prices-vwap (add_price c s.timestamp_ms s.price s.volume) t ts h

-- ===== src/Signals/Tests.antt =====
-- Each theorem on the signal generator, on a few ticks around the VWAP 100.
use quant_sim_x.Prelude.{ℕ, ◌≡◌, ◌↔◌}
use quant_sim_x.Double.Fixed.{Fixed, fixed_double, fixed}
use quant_sim_x.Signals.{buy, sell, SignalGenerator, make_generator}
use quant_sim_x.Signals.Crossings.{Quote, next, SellCrossing, BuyCrossing, signal_iff}

abbrev quote : ℕ → ℕ → Quote Fixed
quote t p = record { time = t; price = fixed p 0; vwap = fixed 100 0; rsi = fixed 50 0 }

abbrev generator : SignalGenerator Fixed
generator = make_generator (fixed 30 0) (fixed 70 0)

signal_iff_example :
    let signal = (next (next generator (quote 1 99)).1 (quote 2 101)).0 in
    ((signal ≡ sell) ↔ SellCrossing (fixed 70 0) (quote 1 99) (quote 2 101))
    × ((signal ≡ buy) ↔ (
        BuyCrossing (fixed 30 0) (quote 1 99) (quote 2 101)
        × ¬ SellCrossing (fixed 70 0) (quote 1 99) (quote 2 101)))
unfolding make_generator
signal_iff_example = signal_iff generator (quote 1 99) (quote 2 101)

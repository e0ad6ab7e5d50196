-- ===== src/Trades/Tests.antt =====
-- Each theorem on the trades, on three trades.
use quant_sim_x.Prelude.{ℕ, List, [], ◌∷◌}
use quant_sim_x.Trades.{Trade}

-- the prices and quantities are whole numbers here
abbrev trade : ℕ → Trade ℕ
trade t = record { timestamp_ms = t; price = 100; quantity = 1 }

abbrev later : List (Trade ℕ)
later = trade 2000 ∷ trade 3000 ∷ []

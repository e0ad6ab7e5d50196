-- ===== src/Udp/Tests.antt =====
-- Each theorem on small datagrams.
use quant_sim_x.Prelude.{
  ℕ, ◌≤◌, ◌<◌, ◌≡◌, refl, true, false, List, [], ◌∷◌, ◌++◌, replicate, arith, length, take, drop,
}
use quant_sim_x.Prelude.Int.{pos, negsuc}
use quant_sim_x.Udp.{MarketData, Reception, new_receiver, recv, market_data, word_at, recv_raw}
use quant_sim_x.Udp.Sequence.{recv_all, IsReceived, recv_all_lem}
use quant_sim_x.Udp.Short.{recv_short, recv_raw_lem}

abbrev no_data : MarketData
no_data = record {
  ts_ns = 0;
  seq = 0;
  bid = 0;
  ask = 0;
  bid_qty = 0;
  ask_qty = 0;
  last_px = 0;
  last_qty = 0;
}

-- a buffer whose sequence number is `n`
abbrev buffer_of : ℕ → List ℕ
buffer_of n = replicate 56 0 ++ n ∷ replicate 967 0

abbrev full : ℕ → Reception
full n = record { n = pos 64; would_block = false; buf = buffer_of n }

-- the numbers 3, 2, 5, a short datagram and nothing
abbrev receptions : List Reception
receptions =
    full 3
    ∷ full 2
    ∷ full 5
    ∷ record { n = pos 40; would_block = false; buf = buffer_of 9 }
    ∷ record { n = negsuc 0; would_block = true; buf = buffer_of 9 }
    ∷ []

recv_all_lem_example : IsReceived new_receiver receptions (recv_all new_receiver no_data receptions)
recv_all_lem_example = recv_all_lem new_receiver no_data receptions (omega arith) (omega arith)

two_accepted : (recv_all new_receiver no_data receptions).1.rx ≡ 2
unfolding recv market_data word_at
two_accepted = refl

-- what an earlier datagram left behind the first 48 bytes: the number 4 at byte 56
abbrev leftover : List ℕ
leftover = replicate 8 1 ++ 4 ∷ replicate 967 0

recv_short_example :
    let (code, (m, v)) =
      recv new_receiver no_data
        (record { n = pos 48; would_block = false; buf = replicate 48 7 ++ leftover }) in
    (m ≡ market_data (replicate 48 7 ++ leftover))
    × (4 ≤ 0 → (code ≡ negsuc 0) × (v ≡ record new_receiver { drops = 1 }))
    × (0 < 4 → (code ≡ pos 1) × (v ≡ record new_receiver { last_seq = 4; rx = 1 }))
recv_short_example =
    recv_short new_receiver no_data false (replicate 48 7) leftover (omega arith) (omega arith)

recv_raw_lem_example :
    let (returned, copied) = recv_raw (pos 3) (1 ∷ 2 ∷ 3 ∷ []) (7 ∷ 8 ∷ []) 2 in
    (returned ≡ pos 2)
    × (length copied ≡ 2)
    × (take 2 copied ≡ take 2 (1 ∷ 2 ∷ 3 ∷ []))
    × (drop 2 copied ≡ drop 2 (7 ∷ 8 ∷ []))
recv_raw_lem_example = recv_raw_lem 3 (1 ∷ 2 ∷ 3 ∷ []) (7 ∷ 8 ∷ []) 2 (omega arith) (omega arith)

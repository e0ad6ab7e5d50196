-- ===== src/Indicators/Frozen.antt =====
-- What the fixed sample buffer does to the windowed indicators: nothing is ever taken out of it, so it
-- fills up, and the RSI window stands at its front.
use quant_sim_x.Prelude.{
  ℕ, ◌+◌, ◌%◌, ◌≤◌, ◌≡◌, refl, sym, ap, ◌∙◌, List, [], ◌∷◌, arith, length, get_or, take-take, take,
  drop, take-set, length-set, slot_of, add64,
}
use quant_sim_x.Prelude.Bits.{bit_and_mask, mod-mod_two_pow}
use quant_sim_x.Double.{Double, nought}
use quant_sim_x.Queues.RingBuffer
use quant_sim_x.Queues.RingBuffer.{RingBuffer}
use quant_sim_x.Indicators.{Sample, VwapCalculator, add_price, update, sum_changes, rsi_of}
use quant_sim_x.Indicators.Vwap.{add_prices}

module _ {W : Type 0} ⦃d : Double W⦄ (no_sample : Sample W) where
  -- The buffer as the calculator uses it: filled from slot 0 on, and never popped.
  pub record IsFilled (c : VwapCalculator W) : Type 0 where
    pub array : length c.samples.items ≡ 4096
    pub within : c.samples.count ≤ 4096
    pub write_at : c.samples.write_pos ≡ c.samples.count % 4096

  next_slot : (i : ℕ) → slot_of 4096 (add64 i 1) ≡ (i + 1) % 4096
  next_slot i = bit_and_mask 12 (add64 i 1) ∙ mod-mod_two_pow 12 64 (i + 1) (omega arith)

  -- A trade leaves the samples that are there where they are, and changes nothing at all once there
  -- are 4096.
  add_price_lem :
      (c : VwapCalculator W) (t : ℕ) (p v : W)
      → IsFilled c
      → IsFilled (add_price c t p v)
        × (c.samples.count ≤ (add_price c t p v).samples.count)
        × (take c.samples.count (add_price c t p v).samples.items
            ≡ take c.samples.count c.samples.items)
        × (c.samples.count ≡ 4096 → (add_price c t p v).samples ≡ c.samples)
  unfolding add_price RingBuffer.push
  add_price_lem c t p v f =
      let s : Sample W = record { timestamp_ms = t; price = p; volume = v } in
      let n = c.samples.count in
      ground (
        arith,
        next_slot c.samples.write_pos,
        length-set c.samples.items c.samples.write_pos s,
        take-set n c.samples.write_pos c.samples.items s,
      )

  first_kept :
      (c : VwapCalculator W) (t : ℕ) (p v : W)
      → IsFilled c
      → 15 ≤ c.samples.count
      → take 15 (add_price c t p v).samples.items ≡ take 15 c.samples.items
  first_kept c t p v f h =
      let n = c.samples.count in
      let (_, _, kept, _) = add_price_lem c t p v f in
      sym (take-take 15 n (add_price c t p v).samples.items h)
      ∙ ap (take 15) kept
      ∙ take-take 15 n c.samples.items h

  window : List (Sample W) → W
  window xs =
      let sums = sum_changes (get_or xs 0 no_sample).price nought nought (drop 1 xs) in
      rsi_of sums.0 sums.1

  rsi_of_window :
      (c : VwapCalculator W)
      → 15 ≤ c.samples.count
      → (update no_sample c).rsi ≡ window (take 15 c.samples.items)
  unfolding update window
  rsi_of_window c h = ground arith

  rsi_kept :
      (ts : List (Sample W)) (c : VwapCalculator W)
      → IsFilled c
      → 15 ≤ c.samples.count
      → (15 ≤ (add_prices c ts).samples.count)
        × (take 15 (add_prices c ts).samples.items ≡ take 15 c.samples.items)
  unfolding add_prices
  rsi_kept [] c f h = (h, refl)
  rsi_kept (s ∷ ss) c f h =
      let c' = add_price c s.timestamp_ms s.price s.volume in
      let (filled, grows, _, _) = add_price_lem c s.timestamp_ms s.price s.volume f in
      let (enough, same) = rsi_kept ss c' filled (omega arith) in
      (enough, same ∙ first_kept c s.timestamp_ms s.price s.volume f h)

  -- Once there are 15 samples, the RSI never changes again, whatever trades come.
  pub rsi_frozen :
      (ts : List (Sample W)) (c : VwapCalculator W)
      → IsFilled c
      → 15 ≤ c.samples.count
      → (update no_sample (add_prices c ts)).rsi ≡ (update no_sample c).rsi
  rsi_frozen ts c f h =
      let (enough, same) = rsi_kept ts c f h in
      rsi_of_window (add_prices c ts) enough ∙ ap window same ∙ sym (rsi_of_window c h)

  samples_kept :
      (ts : List (Sample W)) (c : VwapCalculator W)
      → IsFilled c
      → c.samples.count ≡ 4096
      → (add_prices c ts).samples ≡ c.samples
  unfolding add_prices
  samples_kept [] c f h = refl
  samples_kept (s ∷ ss) c f h =
      let c' = add_price c s.timestamp_ms s.price s.volume in
      let (filled, _, _, full) = add_price_lem c s.timestamp_ms s.price s.volume f in
      samples_kept ss c' filled (ap (λ b. b.count) (full h) ∙ h) ∙ full h

  sma_of_samples :
      (c c' : VwapCalculator W)
      → c.samples ≡ c'.samples
      → (update no_sample c).sma ≡ (update no_sample c').sma
  unfolding update
  sma_of_samples c c' e = ground arith

  -- Once there are 4096 samples, the SMA never changes again either.
  pub sma_frozen :
      (ts : List (Sample W)) (c : VwapCalculator W)
      → IsFilled c
      → c.samples.count ≡ 4096
      → (update no_sample (add_prices c ts)).sma ≡ (update no_sample c).sma
  sma_frozen ts c f h = sma_of_samples (add_prices c ts) c (samples_kept ts c f h)

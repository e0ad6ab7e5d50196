-- ===== src/Session/Counts.antt =====
-- How many rows the session writes.
use quant_sim_x.Prelude.{
  ℕ, suc, ◌+◌, ◌/◌, ◌^◌, ◌<◌, add64, ◌≡◌, refl, sym, subst, Option-cases, inl, inr, Option, some,
  List, [], ◌∷◌, All-Unit, length, length-append, arith,
}
use quant_sim_x.Prelude.Text.{Text}
use quant_sim_x.Double.{Double}
use quant_sim_x.Indicators.{Sample}
use quant_sim_x.Signals.{Signal}
use quant_sim_x.Session.{
  Frame, Session, press_stop, press_disconnect, press_connect, press_backtest, run_backtest,
  write_row, sample, collect, take_sample, auto_backtest, after_buttons, round, rounds,
}
use quant_sim_x.Session.Rounds.{
  Each, with_events, round_connected, round_terminated, pressed-SameData, rounds-Each,
}

module _ {W : Type 0} ⦃d : Double W⦄ where
  -- Every fifth sample has a row, and `n` more samples do not overflow the count.
  pub record IsCounted (n : ℕ) (s : Session W) : Type 0 where
    pub fifth : length s.rows ≡ s.sample_count / 5
    pub fits : s.sample_count + n < 2 ^ 64

  lower-IsCounted : (n : ℕ) (s : Session W) → IsCounted (suc n) s → IsCounted n s
  lower-IsCounted n s h = record { fifth = h.fifth; fits = omega (arith, h.fits) }

  -- The buttons leave the rows and the count alone.
  buttons-IsCounted :
      (n : ℕ) (f : Frame W) (s s' : Session W)
      → IsCounted n s
      → press_connect f (press_disconnect f.buttons (press_stop f.buttons (with_events f s)))
        ≡ some s'
      → IsCounted n (press_backtest f.buttons s')
  unfolding press_backtest run_backtest
  buttons-IsCounted n f s s' h e =
      let same = pressed-SameData f s s' e in ground (arith, h, same.rows, same.sample_count)

  module _ (no_sample : Sample W) where
    length-write_row :
        (f : Frame W) (sig : Signal) (s : Session W)
        → (length (write_row f sig s).rows ≡ suc (length s.rows))
          × ((write_row f sig s).sample_count ≡ s.sample_count)
    unfolding write_row
    length-write_row f sig s = (omega (arith, length-append s.rows (_ ∷ [])), refl)

    sample_lem :
        (f : Frame W) (s : Session W)
        → ((sample no_sample f s).1.rows ≡ s.rows)
          × ((sample no_sample f s).1.sample_count ≡ add64 s.sample_count 1)
    unfolding sample
    sample_lem f s = (refl, refl)

    collect-IsCounted :
        (n : ℕ) (f : Frame W) (s : Session W)
        → IsCounted (suc n) s
        → IsCounted n (collect no_sample f s)
    unfolding collect take_sample
    collect-IsCounted n f s h =
        let (sig, s') = sample no_sample f s in
        let (same, one_more) = sample_lem f s in
        ground (arith, h, same, one_more, length-write_row f sig s')

    module _ (stoull? : Text → Option ℕ) (stod? : Text → Option W) where
      after_buttons-IsCounted :
          (n : ℕ) (f : Frame W) (s : Session W)
          → IsCounted (suc n) s
          → Each Unit (IsCounted n) (after_buttons no_sample stoull? stod? f s)
      unfolding after_buttons auto_backtest run_backtest
      after_buttons-IsCounted n f s h =
          ground (arith, h, lower-IsCounted n s h, collect-IsCounted n f s h)

      round-IsCounted :
          (n : ℕ) (f : Frame W) (s : Session W)
          → IsCounted (suc n) s
          → Each Unit (IsCounted n) (round no_sample stoull? stod? f s)
      round-IsCounted n f s h =
          let out =
            press_connect f (press_disconnect f.buttons (press_stop f.buttons (with_events f s))) in
          elim (Option-cases out) [
            | inl e ↦
                subst (Each Unit (IsCounted n))
                  (sym (round_terminated no_sample stoull? stod? f s e)) tt
            | inr (s', e) ↦
                subst (Each Unit (IsCounted n))
                  (sym (round_connected no_sample stoull? stod? f s s' e))
                  (after_buttons-IsCounted n f (press_backtest f.buttons s')
                    (buttons-IsCounted (suc n) f s s' h e))
          ]

      -- After any rounds with any buttons the rows of the file are a fifth of the samples, rounded down,
      -- provided that the 64-bit count does not overflow.
      pub rows_every_fifth :
          (fs : List (Frame W)) (s : Session W)
          → IsCounted (length fs) s
          → Each Unit (IsCounted 0) (rounds no_sample stoull? stod? fs s)
      rows_every_fifth fs s h =
          rounds-Each no_sample stoull? stod? Unit IsCounted (λ _. Unit) lower-IsCounted
            (λ n f s' _ p. round-IsCounted n f s' p) fs s (All-Unit fs) h

-- ===== src/Session/Backtests.antt =====
-- The backtests of `main`. The program has emptied market_data.csv by the time that it is loaded, so the
-- file then holds the header line at most.
use quant_sim_x.Prelude.{
  ℕ, ◌≤◌, ◌≡◌, refl, sym, ◌∙◌, subst, false, Option-cases, inl, inr, Option, none, some, List, [],
  ◌∷◌, All-Unit, length, arith,
}
use quant_sim_x.Prelude.Text.{Text}
use quant_sim_x.Double.{Double, IsOrdered, nought}
use quant_sim_x.Feed.{Dial, Incident}
use quant_sim_x.Indicators.{Sample, VwapCalculator}
use quant_sim_x.Signals.{SignalGenerator}
use quant_sim_x.Backtester.{BacktestBar}
use quant_sim_x.Backtester.Csv.{load_csv, rows_of, bars_of, add_rows}
use quant_sim_x.Backtester.Metrics.{Backtester}
use quant_sim_x.Session.{
  Frame, Session, press_stop, press_disconnect, press_connect, press_backtest, write_row, sample,
  collect, take_sample, auto_backtest, after_buttons, round, rounds, enter,
}
use quant_sim_x.Session.Rounds.{
  Each, with_events, round_connected, round_terminated, pressed-SameData, rounds-Each,
}

module _ {W : Type 0} ⦃d : Double W⦄ where
  -- Nothing is loaded, and no result is shown.
  pub IsBare : Session W → Type 0
  IsBare s = (s.backtest_loaded ≡ false) × (s.shown ≡ none)

  module _ (no_sample : Sample W) where
    collect_same :
        (f : Frame W) (s : Session W)
        → ((collect no_sample f s).backtest_loaded ≡ s.backtest_loaded)
          × ((collect no_sample f s).shown ≡ s.shown)
    unfolding collect take_sample write_row sample
    collect_same f s = ground arith

    module _ (stoull? : Text → Option ℕ) (stod? : Text → Option W) where
      after_buttons-IsBare :
          (f : Frame W) (s : Session W)
          → IsBare s
          → Each Unit IsBare (after_buttons no_sample stoull? stod? f s)
      unfolding after_buttons auto_backtest IsBare
      after_buttons-IsBare f s h = ground (arith, h, collect_same f s)

      press_backtest-IsBare :
          (f : Frame W) (s : Session W) → IsBare s → IsBare (press_backtest f.buttons s)
      unfolding press_backtest IsBare
      press_backtest-IsBare f s h = ground (arith, h)

      round-IsBare :
          (f : Frame W) (s : Session W)
          → IsBare s
          → Each Unit IsBare (round no_sample stoull? stod? f s)
      unfolding IsBare
      round-IsBare f s h =
          let out =
            press_connect f (press_disconnect f.buttons (press_stop f.buttons (with_events f s))) in
          elim (Option-cases out) [
            | inl e ↦
                subst (Each Unit IsBare) (sym (round_terminated no_sample stoull? stod? f s e)) tt
            | inr (s', e) ↦
                let same = pressed-SameData f s s' e in
                subst (Each Unit IsBare) (sym (round_connected no_sample stoull? stod? f s s' e)) (
                  after_buttons-IsBare f (press_backtest f.buttons s')
                    (press_backtest-IsBare f s' (same.backtest_loaded ∙ h.0, same.shown ∙ h.1)))
          ]

      load-header :
          (laws : IsOrdered W) (lines : List Text) (old : List (BacktestBar W))
          → length lines ≤ 1
          → (load_csv stoull? stod? (some lines) old).0 ≡ false
      unfolding load_csv bars_of add_rows rows_of
      load-header laws [] old l = refl
      load-header laws (first ∷ []) old l = ground (arith, laws.lt_irrefl nought)
      load-header laws (first ∷ second ∷ lines) old l = absurd (omega (arith, l))

      enter-IsBare :
          (laws : IsOrdered W) (dial : Dial) (meanwhile : List Incident) (lines : List Text)
          → length lines ≤ 1
          → (vwap : VwapCalculator W) (gen : SignalGenerator W) (bt : Backtester W)
          → (s : Session W) → enter stoull? stod? dial meanwhile (some lines) vwap gen bt ≡ some s
          → IsBare s
      unfolding enter IsBare
      enter-IsBare laws dial meanwhile lines l vwap gen bt s e =
          ground (arith, load-header laws lines bt.bars l, e)

      -- The session of `main` never runs a backtest and never shows a result: whatever is pressed in
      -- whatever rounds follow, if the file holds the header line at most when the loop is entered.
      pub backtest_never_runs :
          (laws : IsOrdered W) (dial : Dial) (meanwhile : List Incident) (lines : List Text)
          → length lines ≤ 1
          → (vwap : VwapCalculator W) (gen : SignalGenerator W) (bt : Backtester W)
          → (s : Session W) → enter stoull? stod? dial meanwhile (some lines) vwap gen bt ≡ some s
          → (fs : List (Frame W)) → Each Unit IsBare (rounds no_sample stoull? stod? fs s)
      backtest_never_runs laws dial meanwhile lines l vwap gen bt s e fs =
          rounds-Each no_sample stoull? stod? Unit (λ _. IsBare) (λ _. Unit) (λ _ _ p. p)
            (λ n f s' _ p. round-IsBare f s' p) fs s (All-Unit fs)
            (enter-IsBare laws dial meanwhile lines l vwap gen bt s e)

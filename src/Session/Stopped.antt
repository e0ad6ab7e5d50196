-- ===== src/Session/Stopped.antt =====
-- The STOP button.
use quant_sim_x.Prelude.{
  ℕ, ◌≡◌, refl, sym, subst, ap, ◌∙◌, true, false, Option, some, List, ◌∷◌, All, arith,
}
use quant_sim_x.Prelude.Text.{Text}
use quant_sim_x.Double.{Double}
use quant_sim_x.Feed.{Client}
use quant_sim_x.Indicators.{Sample}
use quant_sim_x.Session.{
  stopped, Buttons, Frame, Session, Outcome, terminated, left, going, press_stop, press_disconnect,
  press_connect, press_backtest, run_backtest, collect, auto_backtest, after_buttons, round, rounds,
}
use quant_sim_x.Session.Rounds.{Each, with_events, round_connected, rounds-Each}

module _ {W : Type 0} ⦃d : Double W⦄ where
  -- `s` is stopped, and all that sampling changes is as in `at`.
  pub record IsStopped (at s : Session W) : Type 0 where
    pub state : s.app_state ≡ stopped
    pub closed : s.collecting_data ≡ false
    pub same_vwap : s.vwap_calc ≡ at.vwap_calc
    pub same_signals : s.signal_gen ≡ at.signal_gen
    pub same_count : s.sample_count ≡ at.sample_count
    pub same_rows : s.rows ≡ at.rows

  client-IsStopped :
      (at : Session W) (c : Client) (s : Session W)
      → IsStopped at s
      → IsStopped at (record s { client = c })
  client-IsStopped at c s h = ground (arith, h)

  press_connect-stopped :
      (f : Frame W) (s : Session W) → s.app_state ≡ stopped → press_connect f s ≡ some s
  unfolding press_connect
  press_connect-stopped f s e = ground (arith, e)

  press_disconnect_quiet :
      (b : Buttons) (s : Session W) → b.disconnect ≡ false → press_disconnect b s ≡ s
  unfolding press_disconnect
  press_disconnect_quiet b s q = rw (q, press_disconnect) refl

  press_stop-IsStopped :
      (at : Session W) (b : Buttons) (s : Session W)
      → IsStopped at s
      → IsStopped at (press_stop b s)
  unfolding press_stop
  press_stop-IsStopped at b s h = ground (arith, h)

  -- STOP itself stops the session and changes nothing that sampling changes.
  pressed_stop :
      (f : Frame W) (s : Session W)
      → f.buttons.stop ≡ true
      → IsStopped s (press_stop f.buttons (with_events f s))
  unfolding press_stop
  pressed_stop f s e =
      rw (e, press_stop)
        (record {
          state = refl;
          closed = refl;
          same_vwap = refl;
          same_signals = refl;
          same_count = refl;
          same_rows = refl;
        })

  press_backtest-IsStopped :
      (at : Session W) (b : Buttons) (s : Session W)
      → IsStopped at s
      → IsStopped at (press_backtest b s)
  unfolding press_backtest run_backtest
  press_backtest-IsStopped at b s h = ground (arith, h)

  module _ (no_sample : Sample W) (stoull? : Text → Option ℕ) (stod? : Text → Option W) where
    after_buttons-IsStopped :
        (at : Session W) (f : Frame W) (s : Session W)
        → IsStopped at s
        → Each ⊥ (IsStopped at) (after_buttons no_sample stoull? stod? f s)
    unfolding after_buttons collect auto_backtest run_backtest
    after_buttons-IsStopped at f s h = ground (arith, h)

    -- a round whose STOP button, pressed or not, leaves a stopped session
    round_lem :
        (at : Session W) (f : Frame W) (s : Session W)
        → f.buttons.disconnect ≡ false
        → IsStopped at (press_stop f.buttons (with_events f s))
        → Each ⊥ (IsStopped at) (round no_sample stoull? stod? f s)
    round_lem at f s q v =
        let s1 = press_stop f.buttons (with_events f s) in
        let s2 = press_backtest f.buttons s1 in
        let pressed : press_connect f (press_disconnect f.buttons s1) ≡ some s1 =
          ap (press_connect f) (press_disconnect_quiet f.buttons s1 q)
          ∙ press_connect-stopped f s1 v.state in
        subst (Each ⊥ (IsStopped at)) (sym (round_connected no_sample stoull? stod? f s s1 pressed))
          (after_buttons-IsStopped at f s2 (press_backtest-IsStopped at f.buttons s1 v))

    round-IsStopped :
        (at : Session W) (f : Frame W) (s : Session W)
        → f.buttons.disconnect ≡ false
        → IsStopped at s
        → Each ⊥ (IsStopped at) (round no_sample stoull? stod? f s)
    round-IsStopped at f s q h =
        round_lem at f s q
          (press_stop-IsStopped at f.buttons (with_events f s) (client-IsStopped at _ s h))

    pressing_round :
        (f : Frame W) (s : Session W)
        → f.buttons.stop ≡ true
        → f.buttons.disconnect ≡ false
        → Each ⊥ (IsStopped s) (round no_sample stoull? stod? f s)
    pressing_round f s pressed q = round_lem s f s q (pressed_stop f s pressed)

    rounds-IsStopped :
        (at : Session W) (fs : List (Frame W)) (s : Session W)
        → All (λ f. f.buttons.disconnect ≡ false) fs
        → IsStopped at s
        → Each ⊥ (IsStopped at) (rounds no_sample stoull? stod? fs s)
    rounds-IsStopped at fs s a v =
        rounds-Each no_sample stoull? stod? ⊥ (λ _. IsStopped at)
          (λ f. f.buttons.disconnect ≡ false) (λ n s' p. p)
          (λ n f s' q p. round-IsStopped at f s' q p) fs s a v

    -- From the round in which STOP is pressed, its own sampling included, no round takes a sample,
    -- writes a row, gives a signal or ends the program by `std::terminate`, whatever the state of the
    -- session was before and whichever other buttons are pressed, as long as DISCONNECT is not pressed:
    -- CONNECT is left aside too.
    pub stop_holds :
        (f : Frame W) (fs : List (Frame W)) (s : Session W)
        → f.buttons.stop ≡ true
        → f.buttons.disconnect ≡ false
        → All (λ g. g.buttons.disconnect ≡ false) fs
        → Each ⊥ (IsStopped s) (rounds no_sample stoull? stod? (f ∷ fs) s)
    unfolding rounds
    stop_holds f fs s pressed q a =
        pressing (round no_sample stoull? stod? f s) (pressing_round f s pressed q)
      where
        pressing :
            (o : Outcome W)
            → Each ⊥ (IsStopped s) o
            → Each ⊥ (IsStopped s) (elim o [
              | terminated ↦ terminated
              | left s' ↦ left s'
              | going s' ↦ rounds no_sample stoull? stod? fs s'
            ])
        pressing terminated p = p
        pressing (left s') p = p
        pressing (going s') p = rounds-IsStopped s fs s' a p

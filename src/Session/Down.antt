-- ===== src/Session/Down.antt =====
-- The buttons DISCONNECT and CONNECT.
use quant_sim_x.Prelude.{
  ℕ, ◌≡◌, refl, ◌∙◌, true, false, Option, none, some, List, [], ◌∷◌, ◌++◌, All, arith,
}
use quant_sim_x.Prelude.Text.{Text}
use quant_sim_x.Double.{Double}
use quant_sim_x.Feed
use quant_sim_x.Feed.{
  Dial, dialled, Incident, Client, connect, happen, happen_all, on_open, on_close, on_fail,
  run_over,
}
use quant_sim_x.Indicators.{Sample}
use quant_sim_x.Session.{
  idle, Buttons, Frame, Session, terminated, going, press_stop, press_disconnect, press_connect,
  press_backtest, run_backtest, write_row, sample, collect, take_sample, auto_backtest,
  after_buttons, round, rounds,
}
use quant_sim_x.Session.Rounds.{with_events, round_connected, round_terminated}

-- The client is disconnected, and its thread has never been joined.
pub record IsDown {W : Type 0} (s : Session W) : Type 0 where
  pub state : s.app_state ≡ idle
  pub off : s.client.running ≡ false
  pub unjoined : s.client.joinable ≡ true

-- a round in which neither CONNECT nor STOP is pressed and the loop is not left
pub record IsQuiet {W : Type 0} (f : Frame W) : Type 0 where
  pub no_connect : f.buttons.connect ≡ false
  pub no_stop : f.buttons.stop ≡ false
  pub unclosed : f.buttons.close ≡ false
  pub in_time : f.timed_out ≡ false
  pub drawn : f.rendered ≡ true

happen-off :
    (i : Incident) (c : Client)
    → ((happen i c).joinable ≡ c.joinable) × (c.running ≡ false → (happen i c).running ≡ false)
unfolding happen on_open on_close on_fail run_over Feed.disconnect
happen-off i c = ground arith

happen_all-off :
    (is : List Incident) (c : Client)
    → ((happen_all is c).joinable ≡ c.joinable)
      × (c.running ≡ false → (happen_all is c).running ≡ false)
unfolding happen_all
happen_all-off [] c = (refl, λ h. h)
happen_all-off (i ∷ is) c =
    let (j, r) = happen-off i c in
    let (j', r') = happen_all-off is (happen i c) in (j' ∙ j, λ h. r' (r h))

module _ {W : Type 0} where
  -- what `round` does to the session before `press_backtest`
  abbrev pressed : Frame W → Session W → Option (Session W)
  pressed f s =
      press_connect f (press_disconnect f.buttons (press_stop f.buttons (with_events f s)))

  disconnect_pressed :
      (f : Frame W) (s : Session W)
      → f.buttons.disconnect ≡ true
      → f.buttons.connect ≡ false
      → s.client.joinable ≡ true
      → (s' : Session W) × (pressed f s ≡ some s') × IsDown s'
  unfolding press_connect press_disconnect press_stop Feed.disconnect
  disconnect_pressed f s p q j = (
    press_disconnect f.buttons (press_stop f.buttons (with_events f s)),
    ground (arith, q),
    ground (arith, p, j, (happen_all-off f.before s.client).0),
  )

  quiet_pressed :
      (f : Frame W) (s : Session W)
      → IsQuiet f
      → IsDown s
      → (s' : Session W) × (pressed f s ≡ some s') × IsDown s'
  unfolding press_connect press_disconnect press_stop Feed.disconnect
  quiet_pressed f s q h =
      let (kept, off) = happen_all-off f.before s.client in
      (
        press_disconnect f.buttons (press_stop f.buttons (with_events f s)),
        ground (arith, q.no_connect),
        ground (arith, q.no_stop, h, kept, off h.off),
      )

  connect_pressed :
      (f : Frame W) (s : Session W)
      → f.buttons.connect ≡ true
      → f.buttons.stop ≡ false
      → f.dial ≡ dialled
      → IsDown s
      → pressed f s ≡ none
  unfolding press_connect press_disconnect press_stop Feed.disconnect connect
  connect_pressed f s c q e h =
      let (kept, off) = happen_all-off f.before s.client in
      ground (arith, c, q, e, h.state, h.unjoined, kept, off h.off)

module _ {W : Type 0} ⦃d : Double W⦄ (no_sample : Sample W) where
  collect_keeps : (f : Frame W) (s : Session W) → IsDown s → IsDown (collect no_sample f s)
  unfolding collect take_sample write_row sample
  collect_keeps f s h = ground (arith, h)

  module _ (stoull? : Text → Option ℕ) (stod? : Text → Option W) where
    after_buttons-IsDown :
        (f : Frame W) (s : Session W)
        → f.buttons.close ≡ false
        → f.timed_out ≡ false
        → f.rendered ≡ true
        → IsDown s
        → (s' : Session W) × (after_buttons no_sample stoull? stod? f s ≡ going s') × IsDown s'
    unfolding after_buttons auto_backtest run_backtest
    after_buttons-IsDown f s c t r h = (
      auto_backtest stoull? stod? f (collect no_sample f s),
      ground (arith, c, t, r),
      ground (arith, h, collect_keeps f s h),
    )

    press_backtest-IsDown : (b : Buttons) (s : Session W) → IsDown s → IsDown (press_backtest b s)
    unfolding press_backtest run_backtest
    press_backtest-IsDown b s h = ground (arith, h)

    round_on :
        (f : Frame W) (s s1 : Session W)
        → f.buttons.close ≡ false
        → f.timed_out ≡ false
        → f.rendered ≡ true
        → pressed f s ≡ some s1
        → IsDown s1
        → (s' : Session W) × (round no_sample stoull? stod? f s ≡ going s') × IsDown s'
    round_on f s s1 c t r e h =
        let (s', same, down) =
          after_buttons-IsDown f (press_backtest f.buttons s1) c t r
            (press_backtest-IsDown f.buttons s1 h) in
        (s', round_connected no_sample stoull? stod? f s s1 e ∙ same, down)

    quiet_round :
        (f : Frame W) (s : Session W)
        → IsQuiet f
        → IsDown s
        → (s' : Session W) × (round no_sample stoull? stod? f s ≡ going s') × IsDown s'
    quiet_round f s q h =
        let (s1, e, down) = quiet_pressed f s q h in
        round_on f s s1 q.unclosed q.in_time q.drawn e down

    rounds-cons :
        (f : Frame W) (fs : List (Frame W)) (s s' : Session W)
        → round no_sample stoull? stod? f s ≡ going s'
        → rounds no_sample stoull? stod? (f ∷ fs) s ≡ rounds no_sample stoull? stod? fs s'
    unfolding rounds
    rounds-cons f fs s s' e = rw (e, rounds) refl

    connect_ends :
        (fs : List (Frame W)) (last : Frame W) (s : Session W)
        → All IsQuiet fs
        → last.buttons.connect ≡ true
        → last.buttons.stop ≡ false
        → last.dial ≡ dialled
        → IsDown s
        → rounds no_sample stoull? stod? (fs ++ last ∷ []) s ≡ terminated
    unfolding rounds
    connect_ends [] last s a c q e h =
        rw
          (round_terminated no_sample stoull? stod? last s (connect_pressed last s c q e h), rounds)
          refl
    connect_ends (f ∷ fs) last s a c q e h =
        let (s', same, down) = quiet_round f s a.0 h in
        rounds-cons f (fs ++ last ∷ []) s s' same ∙ connect_ends fs last s' a.1 c q e down

    -- Once DISCONNECT has been pressed, CONNECT ends the program by `std::terminate`: after any rounds
    -- in between in which the loop goes on and neither CONNECT nor STOP is pressed, whatever happens to
    -- the client meanwhile, if the client has connected before and the library does not refuse.
    pub reconnect_ends :
        (first : Frame W) (fs : List (Frame W)) (last : Frame W) (s : Session W)
        → s.client.joinable ≡ true
        → first.buttons.disconnect ≡ true
        → IsQuiet first
        → All IsQuiet fs
        → last.buttons.connect ≡ true
        → last.buttons.stop ≡ false
        → last.dial ≡ dialled
        → rounds no_sample stoull? stod? (first ∷ fs ++ last ∷ []) s ≡ terminated
    reconnect_ends first fs last s j p q a c st e =
        let (s1, pressed_first, down) = disconnect_pressed first s p q.no_connect j in
        let (s', same, down') =
          round_on first s s1 q.unclosed q.in_time q.drawn pressed_first down in
        rounds-cons first (fs ++ last ∷ []) s s' same ∙ connect_ends fs last s' a c st e down'

-- ===== src/Session/Rounds.antt =====
-- What any number of rounds of `main`'s loop keeps, from what one round keeps.
use quant_sim_x.Prelude.{
  ℕ, zero, suc, ◌≡◌, refl, Option, none, some, List, [], ◌∷◌, All, length, arith,
}
use quant_sim_x.Prelude.Text.{Text}
use quant_sim_x.Double.{Double}
use quant_sim_x.Indicators.{Sample}
use quant_sim_x.Feed.{happen_all}
use quant_sim_x.Session.{
  Frame, Session, Outcome, terminated, left, going, press_stop, press_disconnect, press_connect,
  press_backtest, after_buttons, round, rounds,
}

-- The session that an outcome leaves satisfies `P`; `T` is what the end by `std::terminate` means.
abbrev pub Each {ℓ} : {W : Type ℓ} → Type 0 → (Session W → Type 0) → Outcome W → Type 0
Each T P terminated = T
Each T P (left s) = P s
Each T P (going s) = P s

-- what has happened to the client since the round before
abbrev pub with_events {ℓ} : {W : Type ℓ} → Frame W → Session W → Session W
with_events f s = record s { client = happen_all f.before s.client }

module _ {W : Type 0} ⦃d : Double W⦄ (no_sample : Sample W) where
  module _ (stoull? : Text → Option ℕ) (stod? : Text → Option W) where
    -- the round behind the buttons CONNECT, DISCONNECT and STOP
    pub round_connected :
        (f : Frame W) (s s' : Session W)
        → press_connect f (press_disconnect f.buttons (press_stop f.buttons (with_events f s)))
          ≡ some s'
        → round no_sample stoull? stod? f s
          ≡ after_buttons no_sample stoull? stod? f (press_backtest f.buttons s')
    unfolding round
    round_connected f s s' e = rw (e, round) refl

    pub round_terminated :
        (f : Frame W) (s : Session W)
        → press_connect f (press_disconnect f.buttons (press_stop f.buttons (with_events f s)))
          ≡ none
        → round no_sample stoull? stod? f s ≡ terminated
    unfolding round
    round_terminated f s e = rw (e, round) refl

    -- `n` counts the rounds that are still to come.
    module _ (T : Type 0) (P : ℕ → Session W → Type 0) (Allowed : Frame W → Type 0) where
      module _ (lower : (n : ℕ) (s : Session W) → P (suc n) s → P n s) where
        module _
            (step : (n : ℕ) (f : Frame W) (s : Session W)
              → Allowed f
              → P (suc n) s
              → Each T (P n) (round no_sample stoull? stod? f s)) where
          to_last : (n : ℕ) (s : Session W) → P n s → P 0 s
          to_last zero s p = p
          to_last (suc n) s p = to_last n s (lower n s p)

          continue :
              (fs : List (Frame W)) (o : Outcome W)
              → Each T (P (length fs)) o
              → ((s : Session W)
                  → P (length fs) s
                  → Each T (P 0) (rounds no_sample stoull? stod? fs s))
              → Each T (P 0) (elim o [
                | terminated ↦ terminated
                | left s' ↦ left s'
                | going s' ↦ rounds no_sample stoull? stod? fs s'
              ])
          continue fs terminated p h = p
          continue fs (left s) p h = to_last (length fs) s p
          continue fs (going s) p h = h s p

          pub rounds-Each :
              (fs : List (Frame W)) (s : Session W)
              → All Allowed fs
              → P (length fs) s
              → Each T (P 0) (rounds no_sample stoull? stod? fs s)
          unfolding rounds
          rounds-Each [] s a p = p
          rounds-Each (f ∷ fs) s a p =
              continue fs (round no_sample stoull? stod? f s) (step (length fs) f s a.0 p)
                (λ s' p'. rounds-Each fs s' a.1 p')

-- what the buttons CONNECT, DISCONNECT and STOP leave alone
pub record SameData {W : Type 0} (s s' : Session W) : Type 0 where
  pub rows : s'.rows ≡ s.rows
  pub sample_count : s'.sample_count ≡ s.sample_count
  pub shown : s'.shown ≡ s.shown
  pub backtest_loaded : s'.backtest_loaded ≡ s.backtest_loaded

module _ {W : Type 0} where
  press_connect-SameData :
      (f : Frame W) (s s' : Session W) → press_connect f s ≡ some s' → SameData s s'
  unfolding press_connect
  press_connect-SameData f s s' e = ground (arith, e)

  pub pressed-SameData :
      (f : Frame W) (s s' : Session W)
      → press_connect f (press_disconnect f.buttons (press_stop f.buttons (with_events f s)))
        ≡ some s'
      → SameData s s'
  unfolding press_stop press_disconnect
  pressed-SameData f s s' e =
      let same =
        press_connect-SameData f
          (press_disconnect f.buttons (press_stop f.buttons (with_events f s))) s' e in
      ground (arith, same.rows, same.sample_count, same.shown, same.backtest_loaded)

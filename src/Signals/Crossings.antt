-- ===== src/Signals/Crossings.antt =====
-- When `SignalGenerator::update` signals, over two consecutive ticks, and the log that it keeps.
use quant_sim_x.Prelude.{
  ℕ, ◌≡◌, ◌↔◌, ◌⊎◌, refl, sym, ap, ◌∙◌, subst, inl, inr, Bool-cases, true, false, List, [], ◌∷◌,
  ◌++◌, arith, All, All-append, if◌then◌else◌,
}
use quant_sim_x.Double.{Double, gt, nought}
use quant_sim_x.Signals.{
  Signal, buy, sell, is_signal, SignalEvent, SignalGenerator, decide, update, make_generator,
  no_event,
}

-- The arguments of one call of `update`.
pub record Quote {ℓ} (W : Type ℓ) : Type ℓ where
  pub time : ℕ
  pub price : W
  pub vwap : W
  pub rsi : W

module _ {W : Type 0} ⦃d : Double W⦄ where
  open d use {lt}

  abbrev pub next : SignalGenerator W → Quote W → Signal × SignalGenerator W
  next g t = update g t.time t.price t.vwap t.rsi

  -- From the tick `s` to the tick `t` the price goes from above its VWAP to not above it, or the RSI
  -- from over the threshold to under it.
  abbrev pub SellCrossing : W → Quote W → Quote W → Type 0
  SellCrossing overbought s t =
      ((gt s.price s.vwap ≡ true) × (gt t.price t.vwap ≡ false) × (gt s.price nought ≡ true))
      ⊎ ((gt s.rsi overbought ≡ true) × (lt t.rsi overbought ≡ true))

  -- The same upwards, at the other threshold.
  abbrev pub BuyCrossing : W → Quote W → Quote W → Type 0
  BuyCrossing oversold s t =
      ((gt s.price s.vwap ≡ false) × (gt t.price t.vwap ≡ true) × (gt s.price nought ≡ true))
      ⊎ ((lt s.rsi oversold ≡ true) × (gt t.rsi oversold ≡ true))

  -- The signal at a tick is a matter of that tick and the one before alone: SELL exactly when
  -- there is a crossing downwards, whatever else there is, and BUY exactly when there is one upwards
  -- and none downwards.
  pub signal_iff :
      (g : SignalGenerator W) (s t : Quote W)
      → let signal = (next (next g s).1 t).0 in
        ((signal ≡ sell) ↔ SellCrossing g.rsi_overbought s t)
        × ((signal ≡ buy) ↔ (BuyCrossing g.rsi_oversold s t × ¬ SellCrossing g.rsi_overbought s t))
  unfolding update decide
  signal_iff g s t = ((ground arith, ground arith), (ground arith, ground arith))

  -- The signal of the last event in a log, NONE for an empty log.
  abbrev pub last_of : SignalEvent W → List (SignalEvent W) → SignalEvent W
  last_of e [] = e
  last_of e (x ∷ xs) = last_of x xs

  last_of-append : (e x : SignalEvent W) (xs : List (SignalEvent W)) → last_of e (xs ++ x ∷ []) ≡ x
  last_of-append e x [] = refl
  last_of-append e x (y ∷ ys) = last_of-append y x ys

  -- The log holds no NONE, and `last_signal_` is its last event.
  pub record IsLogged (g : SignalGenerator W) : Type 0 where
    pub signalled : All (λ e. is_signal e.signal ≡ true) g.signals
    pub last : g.last_signal ≡ last_of no_event g.signals

  pub run : SignalGenerator W → List (Quote W) → SignalGenerator W
  run g [] = g
  run g (t ∷ ts) = run (next g t).1 ts

  append-IsLogged :
      (g : SignalGenerator W) (e : SignalEvent W)
      → is_signal e.signal ≡ true
      → IsLogged g
      → All (λ x. is_signal x.signal ≡ true) (g.signals ++ e ∷ [])
        × (e ≡ last_of no_event (g.signals ++ e ∷ []))
  append-IsLogged g e h v = (
    All-append (λ x. is_signal x.signal ≡ true) g.signals (e ∷ []) v.signalled (h, tt),
    sym (last_of-append no_event e g.signals),
  )

  abbrev event_of : SignalGenerator W → Quote W → SignalEvent W
  event_of g t =
      let decided = decide g t.price t.vwap t.rsi in
      record {
        timestamp_ms = t.time;
        signal = decided.0;
        reason = decided.1;
        price = t.price;
        vwap = t.vwap;
        rsi = t.rsi;
      }

  signalled_lem :
      (g : SignalGenerator W) (t : Quote W)
      → is_signal (event_of g t).signal ≡ true
      → ((next g t).1.signals ≡ g.signals ++ event_of g t ∷ [])
        × ((next g t).1.last_signal ≡ event_of g t)
  unfolding update
  signalled_lem g t e = rw (e, if◌then◌else◌) (refl, refl)

  silent_lem :
      (g : SignalGenerator W) (t : Quote W)
      → is_signal (event_of g t).signal ≡ false
      → ((next g t).1.signals ≡ g.signals) × ((next g t).1.last_signal ≡ g.last_signal)
  unfolding update
  silent_lem g t e = rw (e, if◌then◌else◌) (refl, refl)

  next-IsLogged : (g : SignalGenerator W) (t : Quote W) → IsLogged g → IsLogged (next g t).1
  next-IsLogged g t v = elim (Bool-cases (is_signal (event_of g t).signal)) [
    | inl e ↦
        let (logged, last) = append-IsLogged g (event_of g t) e v in
        let stored = signalled_lem g t e in
        record {
          signalled = subst (All λ x. is_signal x.signal ≡ true) (sym stored.0) logged;
          last = stored.1 ∙ last ∙ ap (last_of no_event) (sym stored.0);
        }
    | inr e ↦
        let kept = silent_lem g t e in
        record {
          signalled = subst (All λ x. is_signal x.signal ≡ true) (sym kept.0) v.signalled;
          last = kept.1 ∙ v.last ∙ ap (last_of no_event) (sym kept.0);
        }
  ]

  run-IsLogged : (ts : List (Quote W)) (g : SignalGenerator W) → IsLogged g → IsLogged (run g ts)
  unfolding run
  run-IsLogged [] g v = v
  run-IsLogged (t ∷ ts) g v = run-IsLogged ts (next g t).1 (next-IsLogged g t v)

  -- However many ticks a new generator has seen, its log holds no NONE, and `last_signal` is the last
  -- event of the log.
  pub run-make_generator-IsLogged :
      (oversold overbought : W) (ts : List (Quote W))
      → IsLogged (run (make_generator oversold overbought) ts)
  unfolding make_generator
  run-make_generator-IsLogged oversold overbought ts =
      run-IsLogged ts (make_generator oversold overbought) (record { signalled = tt; last = refl })

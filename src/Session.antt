-- ===== src/Session.antt =====
-- The program itself: `main` (src/main.cpp). What comes from outside in one round of its loop is a
-- `Frame`: the buttons, the clock, the order book as the feed has left it, and the answers of the
-- library and of the window. `AppState` and the calls of the dashboard are as `main` uses them.
mod State
pub mod Start
pub mod Rounds
pub mod Rows
pub mod Saved
pub mod Counts
pub mod Stopped
pub mod Down
pub mod Backtests
mod Tests
unfoldable pub use State.*
use Prim.Native.String.{String}
use quant_sim_x.Prelude.{
  ℕ, ◌+◌, ◌%◌, Bool, true, false, not, ◌&&◌, Option, none, some, List, [], ◌∷◌, ◌++◌, ◌==◌, map,
  ltb, add64, if◌then◌else◌,
}
use quant_sim_x.Prelude.Text.{Text, codes}
use quant_sim_x.Double.{Double, gt, nought}
use quant_sim_x.OrderBook.{OrderBook, get_best_bid, get_best_ask, get_mid_price}
use quant_sim_x.Indicators
use quant_sim_x.Indicators.{Sample, VwapCalculator, add_price}
use quant_sim_x.Signals
use quant_sim_x.Signals.{Signal, none_signal, buy, sell, SignalGenerator}
use quant_sim_x.Backtester.Csv.{load_csv}
use quant_sim_x.Backtester.Csv.Fields.{each_comma}
use quant_sim_x.Backtester.Metrics
use quant_sim_x.Backtester.{BacktestMetrics}
use quant_sim_x.Backtester.Metrics.{Backtester}
use quant_sim_x.Feed
use quant_sim_x.Feed.{Client, new_client, Dial, Incident, happen_all}

module _ {ℓ} {W : Type ℓ} where
  unfoldable pub press_stop : Buttons → Session W → Session W
  press_stop b s =
      if b.stop
      then record s {
        collecting_data = false;
        app_state = stopped;
        client = Feed.disconnect s.client;
      }
      else s

  unfoldable pub press_disconnect : Buttons → Session W → Session W
  press_disconnect b s =
      if b.disconnect
      then record s { collecting_data = false; app_state = idle; client = Feed.disconnect s.client }
      else s

  abbrev pub after_connect : Session W → Client → Session W
  after_connect s c =
      if c.connected
      then record s { client = c; collecting_data = true; app_state = connected }
      else record s { client = c; app_state = idle }

  -- `none` is `std::terminate`.
  unfoldable pub press_connect : Frame W → Session W → Option (Session W)
  press_connect f s =
      if f.buttons.connect && is_idle s.app_state
      then elim (Feed.connect f.dial s.client) [
        | none ↦ none
        | some c ↦ some (after_connect s (happen_all f.meanwhile c))
      ]
      else some s

  -- behind the loop
  pub leave : Session W → Session W
  leave s = record s { client = Feed.disconnect s.client }

module _ {ℓ} {W : Type ℓ} ⦃d : Double W⦄ where
  unfoldable pub run_backtest : Session W → Session W
  run_backtest s =
      let bt = Metrics.run s.backtester in
      record s { backtester = bt; shown = some bt.metrics; backtest_running = true }

  unfoldable pub press_backtest : Buttons → Session W → Session W
  unfolding run_backtest
  press_backtest b s = if b.backtest && s.backtest_loaded then run_backtest s else s

  unfoldable pub write_row : Frame W → Signal → Session W → Session W
  write_row f sig s = record s {
    rows =
        s.rows
        ++ record {
          time = f.row_time;
          best_bid = get_best_bid f.book;
          best_ask = get_best_ask f.book;
          mid_price = get_mid_price f.book;
          last_price = f.book.last_trade_price;
          last_qty = f.book.last_trade_qty;
          vwap = s.vwap_calc.vwap;
          sma = s.vwap_calc.sma;
          rsi = s.vwap_calc.rsi;
          signal = sig;
          reason = s.signal_gen.last_signal.reason;
        }
          ∷ [];
  }

  -- `stoull?` and `stod?` are the conversions of the standard library.
  module _ (stoull? : Text → Option ℕ) (stod? : Text → Option W) where
    abbrev pub load : Option (List Text) → Backtester W → Bool × Backtester W
    load file b =
        let (loaded, bars) = load_csv stoull? stod? file b.bars in
        (loaded, record b { bars = bars })

    unfoldable pub auto_backtest : Frame W → Session W → Session W
    unfolding run_backtest
    auto_backtest f s =
        if not s.backtest_running
          && s.backtest_loaded
          && ltb 0 s.sample_count
          && (s.sample_count % 100) == 0
        then run_backtest (record s { backtester = (load f.file s.backtester).1 })
        else s

    -- The loop is entered. The state is shown as CONNECTED whether the connection has opened or not.
    unfoldable pub enter :
        Dial
        → List Incident
        → Option (List Text)
        → VwapCalculator W
        → SignalGenerator W
        → Backtester W
        → Option (Session W)
    enter dial meanwhile file vwap gen bt =
        let (loaded, bt') = load file bt in
        elim (Feed.connect dial new_client) [
          | none ↦ none
          | some c ↦ some (record {
            client = happen_all meanwhile c;
            app_state = connected;
            vwap_calc = vwap;
            signal_gen = gen;
            backtester = bt';
            backtest_loaded = loaded;
            backtest_running = false;
            collecting_data = true;
            sample_count = 0;
            rows = [];
            shown = none;
          })
        ]

  -- `no_sample` stands for a read out of the array of samples.
  module _ (no_sample : Sample W) where
    -- the indicators and the signal of one sample
    unfoldable pub sample : Frame W → Session W → Signal × Session W
    sample f s =
        let price = f.book.last_trade_price in
        let vwap =
          Indicators.update no_sample
            (add_price s.vwap_calc f.price_time price f.book.last_trade_qty) in
        let (sig, gen) = Signals.update s.signal_gen f.signal_time price vwap.vwap vwap.rsi in
        (
          sig,
          record s { vwap_calc = vwap; signal_gen = gen; sample_count = add64 s.sample_count 1 },
        )

    unfoldable pub take_sample : Frame W → Session W → Session W
    unfolding write_row sample
    take_sample f s =
        let (sig, s') = sample f s in if (s'.sample_count % 5) == 0 then write_row f sig s' else s'

    unfoldable pub collect : Frame W → Session W → Session W
    unfolding take_sample
    collect f s =
        if gt f.book.last_trade_price nought && s.collecting_data then take_sample f s else s

    module _ (stoull? : Text → Option ℕ) (stod? : Text → Option W) where
      -- the rest of a round behind the buttons
      unfoldable pub after_buttons : Frame W → Session W → Outcome W
      unfolding collect auto_backtest
      after_buttons f s =
          if f.buttons.close
          then left s
          else if f.timed_out
          then left s
          else (let s' = auto_backtest stoull? stod? f (collect f s) in
              if f.rendered then going s' else left s')

      unfoldable pub round : Frame W → Session W → Outcome W
      unfolding press_stop press_disconnect press_connect press_backtest after_buttons
      round f s =
          let held = record s { client = happen_all f.before s.client } in
          elim (press_connect f (press_disconnect f.buttons (press_stop f.buttons held))) [
            | none ↦ terminated
            | some s' ↦ after_buttons f (press_backtest f.buttons s')
          ]

      unfoldable pub rounds : List (Frame W) → Session W → Outcome W
      unfolding round
      rounds [] s = going s
      rounds (f ∷ fs) s = elim (round f s) [
        | terminated ↦ terminated
        | left s' ↦ left s'
        | going s' ↦ rounds fs s'
      ]

-- ===== src/Signals.antt =====
-- `Signal`, `SignalEvent`, `TickData` (include/Signal.h) and `SignalGenerator`
-- (src/SignalGenerator.cpp).
pub mod Crossings
mod Tests
use Prim.Native.String.{String}
use quant_sim_x.Prelude.{ℕ, Bool, true, false, not, ◌&&◌, List, [], ◌∷◌, ◌++◌, if◌then◌else◌}
use quant_sim_x.Prelude.Text.{Text, codes}
use quant_sim_x.Double.{Double, gt, nought}

pub data Signal : Type 0 where
  none_signal buy sell : Signal

pub record SignalEvent {ℓ} (W : Type ℓ) : Type ℓ where
  pub timestamp_ms : ℕ
  pub signal : Signal
  pub reason : String
  pub price : W
  pub vwap : W
  pub rsi : W

pub record TickData {ℓ} (W : Type ℓ) : Type ℓ where
  pub timestamp_ms : ℕ
  pub price : W
  pub volume : W
  pub bid_price : W
  pub ask_price : W
  pub bid_volume : W
  pub ask_volume : W
  pub is_buy_tick : Bool
  pub vwap : W
  pub rsi : W
  pub sma_fast : W
  pub sma_slow : W
  pub macd_line : W
  pub signal_line : W
  pub atr : W

-- `sig != Signal::NONE`
abbrev pub is_signal : Signal → Bool
is_signal none_signal = false
is_signal buy = true
is_signal sell = true

pub record SignalGenerator {ℓ} (W : Type ℓ) : Type ℓ where
  pub rsi_oversold : W
  pub rsi_overbought : W
  pub prev_price : W
  pub prev_vwap : W
  pub prev_rsi : W
  pub price_above_vwap : Bool
  pub rsi_in_oversold : Bool
  pub rsi_in_overbought : Bool
  pub last_signal : SignalEvent W
  pub signals : List (SignalEvent W)

module _ {ℓ} {W : Type ℓ} where
  pub get_state_string : SignalGenerator W → Text
  get_state_string g =
      codes "Price "
      ++ (if g.price_above_vwap then codes "above" else codes "below")
      ++ codes " VWAP | "
      ++ (if g.rsi_in_oversold
          then codes "RSI oversold"
          else if g.rsi_in_overbought
          then codes "RSI overbought"
          else codes "RSI neutral")

module _ {ℓ} {W : Type ℓ} ⦃d : Double W⦄ where
  open d use {add, mul, lt, decimal, of_nat}

  unfoldable pub mid_price : TickData W → W
  mid_price t = mul (add t.bid_price t.ask_price) (decimal 5 1)

  abbrev pub no_event : SignalEvent W
  no_event = record {
    timestamp_ms = 0;
    signal = none_signal;
    reason = "";
    price = nought;
    vwap = nought;
    rsi = nought;
  }

  unfoldable pub make_generator : W → W → SignalGenerator W
  make_generator rsi_oversold rsi_overbought = record {
    rsi_oversold = rsi_oversold;
    rsi_overbought = rsi_overbought;
    prev_price = nought;
    prev_vwap = nought;
    prev_rsi = of_nat 50;
    price_above_vwap = false;
    rsi_in_oversold = false;
    rsi_in_overbought = false;
    last_signal = no_event;
    signals = [];
  }

  -- The two `if … else if` of `update`: the later one wins.
  pub decide : SignalGenerator W → W → W → W → Signal × String
  decide g price vwap rsi =
      let price_above = gt price vwap in
      let bought : Signal × String =
        if price_above && (not g.price_above_vwap && gt g.prev_price nought)
        then (buy, "Price crossed VWAP upward")
        else if gt rsi g.rsi_oversold && g.rsi_in_oversold
        then (buy, "RSI exited oversold zone")
        else (none_signal, "") in
      if not price_above && (g.price_above_vwap && gt g.prev_price nought)
      then (sell, "Price crossed VWAP downward")
      else if lt rsi g.rsi_overbought && g.rsi_in_overbought
      then (sell, "RSI exited overbought zone")
      else bought

  -- the assignments behind "Update state tracking"
  abbrev pub track : SignalGenerator W → W → W → W → SignalGenerator W
  track g price vwap rsi = record g {
    price_above_vwap = gt price vwap;
    rsi_in_oversold = lt rsi g.rsi_oversold;
    rsi_in_overbought = gt rsi g.rsi_overbought;
    prev_price = price;
    prev_vwap = vwap;
    prev_rsi = rsi;
  }

  unfoldable pub update : SignalGenerator W → ℕ → W → W → W → Signal × SignalGenerator W
  unfolding decide
  update g timestamp_ms price vwap rsi =
      let (signal, reason) = decide g price vwap rsi in
      let event : SignalEvent W = record {
        timestamp_ms = timestamp_ms;
        signal = signal;
        reason = reason;
        price = price;
        vwap = vwap;
        rsi = rsi;
      } in
      let g' = track g price vwap rsi in
      (
        signal,
        if is_signal signal
            then record g' { last_signal = event; signals = g'.signals ++ event ∷ [] }
            else g',
      )

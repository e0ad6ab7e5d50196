-- ===== src/Session/Tests.antt =====
-- Each theorem on the session, on a concrete one.
use quant_sim_x.Prelude.{
  ℕ, zero, suc, ◌≡◌, refl, true, false, not, List, [], ◌∷◌, ◌++◌, Option, none, some, map,
  replicate, length, length-replicate, arith, ◌==◌, if◌then◌else◌,
}
use quant_sim_x.Prelude.Int.{pos, negsuc}
use quant_sim_x.Prelude.Text.{Text}
use quant_sim_x.Double.Fixed.{Fixed, fixed_double, fixed, Fixed-IsOrdered}
use quant_sim_x.Values.{no_sample, book_at, new_vwap, new_generator, new_backtester}
use quant_sim_x.Feed.{dialled, opened, happen, happen_all, on_open, connect}
use quant_sim_x.Signals.{buy}
use quant_sim_x.Backtester.Csv.{load_csv, bars_of, is_empty}
use quant_sim_x.Backtester.Csv.Fields.{LacksComma}
use quant_sim_x.Session.{
  connected, Buttons, Entry, Frame, Session, terminated, Printer, header, row_text, rounds, enter,
}
use quant_sim_x.Session.Rounds.{Each}
use quant_sim_x.Output.{open_csv, write_rows, getlines}
use quant_sim_x.Output.Lines.{IsLine}
use quant_sim_x.Session.Rows.{Reads, read_back}
use quant_sim_x.Session.Saved.{PrintsLines, write_rows-load_csv}
use quant_sim_x.Session.Stopped.{IsStopped, stop_holds}
use quant_sim_x.Session.Counts.{IsCounted, rows_every_fifth}
use quant_sim_x.Session.Backtests.{IsBare, backtest_never_runs}
use quant_sim_x.Session.Down.{IsQuiet, reconnect_ends}

abbrev digit : ℕ
digit = 49

-- A number is printed as that many digits 1, behind a sign if it is a `double`.
abbrev print_fixed : ℕ → Fixed → Text
print_fixed places (pos n) = 43 ∷ replicate n digit
print_fixed places (negsuc n) = 45 ∷ replicate n digit

abbrev printer : Printer Fixed
printer = record { show_nat = λ n. replicate n digit; show_fixed = print_fixed }

abbrev stoull? : Text → Option ℕ
stoull? t = some (length t)

abbrev stod? : Text → Option Fixed
stod? [] = none
stod? (c ∷ t) = if c == 45 then some (negsuc (length t)) else some (pos (length t))

abbrev unrounded : ℕ → Fixed → Fixed
unrounded places x = x

digits-LacksComma : (n : ℕ) → LacksComma (replicate n digit)
unfolding LacksComma
digits-LacksComma zero = tt
digits-LacksComma (suc n) = (λ e. absurd (omega (arith, e)), digits-LacksComma n)

print_fixed-LacksComma : (places : ℕ) (x : Fixed) → LacksComma (print_fixed places x)
unfolding LacksComma
print_fixed-LacksComma places (pos n) = (λ e. absurd (omega (arith, e)), digits-LacksComma n)
print_fixed-LacksComma places (negsuc n) = (λ e. absurd (omega (arith, e)), digits-LacksComma n)

print_fixed-stod? : (places : ℕ) (x : Fixed) → stod? (print_fixed places x) ≡ some x
print_fixed-stod? places (pos n) = rw (length-replicate n digit) refl
print_fixed-stod? places (negsuc n) = rw (length-replicate n digit) refl

printer-Reads : Reads printer stoull? stod? unrounded
printer-Reads = record {
  nat_plain = digits-LacksComma;
  nat_read = λ n l. rw (length-replicate n digit) refl;
  fixed_plain = print_fixed-LacksComma;
  fixed_read = print_fixed-stod?;
}

abbrev entries : List (Entry Fixed)
entries =
    record {
      time = 12345;
      best_bid = fixed 99 0;
      best_ask = fixed 101 0;
      mid_price = fixed 100 0;
      last_price = fixed 100 0;
      last_qty = fixed 2 0;
      vwap = fixed 98 0;
      sma = fixed 97 0;
      rsi = fixed 55 0;
      signal = buy;
      reason = "RSI, oversold";
    }
    ∷ []

digits-IsLine : (n : ℕ) → IsLine (replicate n digit)
digits-IsLine zero = tt
digits-IsLine (suc n) = (λ e. absurd (omega (arith, e)), digits-IsLine n)

print_fixed-IsLine : (places : ℕ) (x : Fixed) → IsLine (print_fixed places x)
print_fixed-IsLine places (pos n) = (λ e. absurd (omega (arith, e)), digits-IsLine n)
print_fixed-IsLine places (negsuc n) = (λ e. absurd (omega (arith, e)), digits-IsLine n)

printer-PrintsLines : PrintsLines printer
printer-PrintsLines = record { nat_line = digits-IsLine; fixed_line = print_fixed-IsLine }

write_rows-load_csv_example :
    let bars = bars_of (map (read_back stoull? stod? unrounded) entries) in
    (content : Text) × ((write_rows (open_csv true) (header ∷ map (row_text printer) entries)).fout
      ≡ some content)
    × (load_csv stoull? stod? (some (getlines [] content)) [] ≡ (not (is_empty bars), bars))
write_rows-load_csv_example =
    write_rows-load_csv stoull? stod? unrounded printer printer-Reads entries [] (omega arith, tt)
      printer-PrintsLines (ground arith)

abbrev no_button : Buttons
no_button = record {
  stop = false;
  disconnect = false;
  connect = false;
  backtest = false;
  close = false;
}

abbrev frame : Buttons → Frame Fixed
frame buttons = record {
  buttons = buttons;
  before = [];
  dial = dialled;
  meanwhile = opened ∷ [];
  book = book_at 100;
  file = some (header ∷ []);
  timed_out = false;
  price_time = 1000;
  signal_time = 1000;
  row_time = 1000;
  rendered = true;
}

abbrev session : Session Fixed
session = record {
  client = record { connected = true; running = true; joinable = true };
  app_state = connected;
  vwap_calc = new_vwap;
  signal_gen = new_generator;
  backtester = new_backtester;
  backtest_loaded = false;
  backtest_running = false;
  collecting_data = true;
  sample_count = 0;
  rows = [];
  shown = none;
}

abbrev frames : List (Frame Fixed)
frames = frame no_button ∷ frame (record no_button { connect = true }) ∷ []

rows_every_fifth_example : Each Unit (IsCounted 0) (rounds no_sample stoull? stod? frames session)
rows_every_fifth_example =
    rows_every_fifth no_sample stoull? stod? frames session
      (record { fifth = omega arith; fits = omega arith })

-- STOP, pressed in a session that collects data
abbrev stop_frame : Frame Fixed
stop_frame = frame (record no_button { stop = true })

stop_holds_example :
    Each ⊥ (IsStopped session) (rounds no_sample stoull? stod? (stop_frame ∷ frames) session)
stop_holds_example =
    stop_holds no_sample stoull? stod? stop_frame frames session refl refl (refl, (refl, tt))

entered :
    enter stoull? stod? dialled
      (opened ∷ [])
      (some (header ∷ []))
      new_vwap
      new_generator
      new_backtester
    ≡ some session
unfolding enter connect happen happen_all on_open load_csv bars_of
entered = refl

backtest_never_runs_example : Each Unit IsBare (rounds no_sample stoull? stod? frames session)
backtest_never_runs_example =
    backtest_never_runs no_sample stoull? stod? Fixed-IsOrdered dialled (opened ∷ []) (header ∷ [])
      (omega arith) new_vwap new_generator new_backtester session entered frames

pressed-IsQuiet : IsQuiet (frame (record no_button { disconnect = true }))
pressed-IsQuiet = record {
  no_connect = refl;
  no_stop = refl;
  unclosed = refl;
  in_time = refl;
  drawn = refl;
}

reconnect_ends_example :
    rounds no_sample stoull? stod?
      (frame (record no_button { disconnect = true }) ∷ []
        ++ frame (record no_button { connect = true }) ∷ [])
      session
    ≡ terminated
reconnect_ends_example =
    reconnect_ends no_sample stoull? stod? (frame (record no_button { disconnect = true })) []
      (frame (record no_button { connect = true })) session refl refl pressed-IsQuiet tt refl refl
      refl

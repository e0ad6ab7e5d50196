-- ===== src/Backtester/Csv.antt =====
-- `load_csv` of src/Backtester.cpp: trades are gathered into bars of five seconds. A file is the list
-- of its lines; `stoull?` and `stod?` are the conversions of the standard library, `none` their
-- exceptions.
pub mod Fields
pub mod Bars
pub mod Times
use quant_sim_x.Prelude.Text.{Text, codes, text_eq}
use quant_sim_x.Backtester.Csv.Fields.{fields_of}
use quant_sim_x.Prelude.{
  ℕ, ◌*◌, ◌/◌, Bool, true, false, not, Option, none, some, List, [], ◌∷◌, ◌++◌, ◌==◌, if◌then◌else◌,
}
use quant_sim_x.Double.{Double, gt, nought, max_of, min_of}
use quant_sim_x.Backtester.{BacktestBar}

-- the fields of a line that the bars use
pub record Row {ℓ} (W : Type ℓ) : Type ℓ where
  pub ts : ℕ
  pub price : W
  pub qty : W
  pub vwap : W
  pub sma : W
  pub rsi : W

-- the local variables of `load_csv`, with `bars_`
pub record Loader {ℓ} (W : Type ℓ) : Type ℓ where
  pub bars : List (BacktestBar W)
  pub current_bar : BacktestBar W
  pub current_bar_time : ℕ

abbrev pub bar_interval_ms : ℕ
bar_interval_ms = 5000

abbrev pub bar_time_of : ℕ → ℕ
bar_time_of ts = ts / bar_interval_ms * bar_interval_ms

module _ {ℓ} {W : Type ℓ} (stoull? : Text → Option ℕ) (stod? : Text → Option W) where
  infixl 5 ◌>>=◌
  abbrev ◌>>=◌ {κ λ'} : {A : Type κ} {B : Type λ'} → Option A → (A → Option B) → Option B
  none >>= f = none
  some a >>= f = f a

  -- `none` is a line that is skipped: too few fields, another event, or a field that does not
  -- convert.
  unfoldable pub parse_row : List Text → Option (Row W)
  parse_row (f0 ∷ f1 ∷ f2 ∷ f3 ∷ f4 ∷ f5 ∷ f6 ∷ f7 ∷ f8 ∷ f9 ∷ _) = do
    ts ← stoull? f0
    if not (text_eq f1 (codes "trade")) then none else do
      bid ← stod? f2
      ask ← stod? f3
      mid ← stod? f4
      price ← stod? f5
      qty ← stod? f6
      vwap ← stod? f7
      sma ← stod? f8
      rsi ← stod? f9
      some (record { ts = ts; price = price; qty = qty; vwap = vwap; sma = sma; rsi = rsi })
  parse_row _ = none

  -- the rows of the lines; an empty line is skipped
  unfoldable pub rows_of : List Text → List (Row W)
  unfolding parse_row
  rows_of [] = []
  rows_of ([] ∷ lines) = rows_of lines
  rows_of ((c ∷ line) ∷ lines) =
      let rest = rows_of lines in
      elim (parse_row (fields_of (c ∷ line))) [ none ↦ rest | some r ↦ r ∷ rest ]

module _ {ℓ} {W : Type ℓ} ⦃d : Double W⦄ where
  open d use {add}

  abbrev pub open_bar : Row W → BacktestBar W
  open_bar r = record {
    timestamp_ms = bar_time_of r.ts;
    open_price = r.price;
    high = r.price;
    low = r.price;
    close_price = r.price;
    vwap = r.vwap;
    sma = r.sma;
    rsi = r.rsi;
    volume = r.qty;
  }

  abbrev pub extend_bar : BacktestBar W → Row W → BacktestBar W
  extend_bar b r = record b {
    high = max_of b.high r.price;
    low = min_of b.low r.price;
    close_price = r.price;
    vwap = r.vwap;
    sma = r.sma;
    rsi = r.rsi;
    volume = add b.volume r.qty;
  }

  -- A bar time of 0 stands for "no bar yet".
  unfoldable pub add_row : Loader W → Row W → Loader W
  add_row s r =
      let bar_time = bar_time_of r.ts in
      if s.current_bar_time == 0
      then record s { current_bar = open_bar r; current_bar_time = bar_time }
      else if bar_time == s.current_bar_time
      then record s { current_bar = extend_bar s.current_bar r }
      else record {
        bars = s.bars ++ s.current_bar ∷ [];
        current_bar = open_bar r;
        current_bar_time = bar_time;
      }

  unfoldable pub add_rows : Loader W → List (Row W) → Loader W
  unfolding add_row
  add_rows s [] = s
  add_rows s (r ∷ rs) = add_rows (add_row s r) rs

  abbrev pub new_bar : BacktestBar W
  new_bar = record {
    timestamp_ms = 0;
    open_price = nought;
    high = nought;
    low = nought;
    close_price = nought;
    vwap = nought;
    sma = nought;
    rsi = nought;
    volume = nought;
  }

  abbrev pub no_rows : Loader W
  no_rows = record { bars = []; current_bar = new_bar; current_bar_time = 0 }

  -- the bars of a file whose lines behind the header hold these rows
  unfoldable pub bars_of : List (Row W) → List (BacktestBar W)
  unfolding add_rows
  bars_of rows =
      let s = add_rows no_rows rows in
      if gt s.current_bar.volume nought then s.bars ++ s.current_bar ∷ [] else s.bars

  abbrev pub is_empty : List (BacktestBar W) → Bool
  is_empty [] = true
  is_empty (_ ∷ _) = false

  -- `load_csv` on the bars loaded before: a file that does not open leaves them. The header line is
  -- the first of the file.
  unfoldable pub load_csv :
      (Text → Option ℕ)
      → (Text → Option W)
      → Option (List Text)
      → List (BacktestBar W)
      → Bool × List (BacktestBar W)
  unfolding rows_of bars_of
  load_csv stoull? stod? none old = (false, old)
  load_csv stoull? stod? (some []) old = (false, bars_of [])
  load_csv stoull? stod? (some (header ∷ lines)) old =
      let bars = bars_of (rows_of stoull? stod? lines) in (not (is_empty bars), bars)

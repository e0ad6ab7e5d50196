-- ===== src/Session/Saved.antt =====
-- From the rows of `main` through the file of `CSVWriter` to the bars of the backtester.
use quant_sim_x.Prelude.{
  ℕ, ◌^◌, ◌<◌, ◌≡◌, ◌≢◌, ap, ◌∙◌, true, not, Option, some, List, [], ◌∷◌, map, All, All-append,
  arith,
}
use quant_sim_x.Prelude.Text.{Text, codes}
use quant_sim_x.Double.{Double}
use quant_sim_x.Backtester.{BacktestBar}
use quant_sim_x.Backtester.Csv.{bars_of, is_empty, load_csv}
use quant_sim_x.Output.{open_csv, write_rows, getlines}
use quant_sim_x.Output.Lines.{IsLine, write_rows-getlines}
use quant_sim_x.Signals.{Signal, none_signal, buy, sell}
use quant_sim_x.Backtester.Csv.Fields.{comma, each_comma}
use quant_sim_x.Session.{Entry, Printer, header, signal_text, row_fields, row_text}
use quant_sim_x.Session.Rows.{Reads, read_back, load_csv-rows}

header-IsLine : IsLine header
header-IsLine = ground arith

-- The printed numbers have no newline.
pub record PrintsLines {W : Type 0} (p : Printer W) : Type 0 where
  pub nat_line : (n : ℕ) → IsLine (p.show_nat n)
  pub fixed_line : (places : ℕ) (x : W) → IsLine (p.show_fixed places x)

each_comma-IsLine : (fs : List Text) → All IsLine fs → IsLine (each_comma fs)
each_comma-IsLine [] h = tt
each_comma-IsLine (f ∷ fs) (h, hs) =
    All-append (λ c. c ≢ 10) f (comma ∷ each_comma fs) h (ground arith, each_comma-IsLine fs hs)

signal_text-IsLine : (s : Signal) → IsLine (signal_text s)
signal_text-IsLine buy = ground arith
signal_text-IsLine sell = ground arith
signal_text-IsLine none_signal = ground arith

trade-IsLine : IsLine (codes "trade")
trade-IsLine = ground arith

row_text-IsLine :
    {W : Type 0} (p : Printer W) (e : Entry W)
    → PrintsLines p
    → IsLine (codes e.reason)
    → IsLine (row_text p e)
unfolding row_text
row_text-IsLine p e l r =
    let f = l.fixed_line in
    let fields : All IsLine (row_fields p e) = (
      l.nat_line e.time,
      (
        trade-IsLine,
        (
          f 2 e.best_bid,
          (
            f 2 e.best_ask,
            (
              f 2 e.mid_price,
              (
                f 2 e.last_price,
                (
                  f 6 e.last_qty,
                  (f 2 e.vwap, (f 2 e.sma, (f 1 e.rsi, (signal_text-IsLine e.signal, tt)))),
                ),
              ),
            ),
          ),
        ),
      ),
    ) in
    All-append (λ c. c ≢ 10) (each_comma (row_fields p e)) (codes e.reason)
      (each_comma-IsLine (row_fields p e) fields) r

module _ {W : Type 0} (stoull? : Text → Option ℕ) (stod? : Text → Option W) (round : ℕ → W → W)
    (p : Printer W) (reads : Reads p stoull? stod? round) where
  lines_all :
      (es : List (Entry W))
      → PrintsLines p
      → All (λ e. IsLine (codes e.reason)) es
      → All IsLine (map (row_text p) es)
  lines_all [] l h = tt
  lines_all (e ∷ es) l (h, hs) = (row_text-IsLine p e l h, lines_all es l hs)

  -- The header and the rows that `main` writes to a file that opens are loaded from it as the bars of
  -- the samples, none dropped and in their order, with the time as it was, and the last price, the
  -- quantity and the indicators rounded to the places that are printed, provided that the conversions
  -- read what the output stream prints, that the times fit 64 bits and that no printed number and no
  -- reason has a newline in it.
  pub write_rows-load_csv :
      ⦃d : Double W⦄
      → (es : List (Entry W)) (old : List (BacktestBar W)) → All (λ e. e.time < 2 ^ 64) es
      → PrintsLines p
      → All (λ e. IsLine (codes e.reason)) es
      → let bars = bars_of (map (read_back stoull? stod? round) es) in
        (content : Text) × ((write_rows (open_csv true) (header ∷ map (row_text p) es)).fout
          ≡ some content)
        × (load_csv stoull? stod? (some (getlines [] content)) old ≡ (not (is_empty bars), bars))
  write_rows-load_csv es old t l h =
      let rows = header ∷ map (row_text p) es in
      let (content, saved, lines) =
        (write_rows-getlines rows (header-IsLine, lines_all es l h)).0 in
      (
        content,
        saved,
        ap (λ ls. load_csv stoull? stod? (some ls) old) lines
            ∙ load_csv-rows stoull? stod? round p reads es header old t,
      )

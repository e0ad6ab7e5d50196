-- ===== src/Session/Rows.antt =====
-- The rows of market_data.csv, as `main` writes them and `load_csv` reads them.
use quant_sim_x.Prelude.{
  ℕ, ◌^◌, ◌<◌, ◌≡◌, refl, ap, ◌∙◌, not, Option, some, List, [], ◌∷◌, map, All, arith,
}
use quant_sim_x.Prelude.Text.{Text, codes}
use quant_sim_x.Double.{Double}
use quant_sim_x.Signals.{Signal, none_signal, buy, sell}
use quant_sim_x.Backtester.{BacktestBar}
use quant_sim_x.Backtester.Csv.{Row, parse_row, rows_of, bars_of, is_empty, load_csv}
use quant_sim_x.Backtester.Csv.Fields.{LacksComma, cut, fields_of, fields_of-each_comma}
use quant_sim_x.Session.{Entry, Printer, signal_text, row_fields, row_text}

-- The conversions read what the output stream prints, which has no comma in it: a number below 2^64 as
-- it was, and a `double` as it is rounded to the places that are printed.
pub record Reads {W : Type 0} (p : Printer W) (stoull? : Text → Option ℕ) (stod? : Text → Option W)
    (round : ℕ → W → W) : Type 0 where
  pub nat_plain : (n : ℕ) → LacksComma (p.show_nat n)
  pub nat_read : (n : ℕ) → n < 2 ^ 64 → stoull? (p.show_nat n) ≡ some n
  pub fixed_plain : (places : ℕ) (x : W) → LacksComma (p.show_fixed places x)
  pub fixed_read : (places : ℕ) (x : W) → stod? (p.show_fixed places x) ≡ some (round places x)

signal_text_plain : (s : Signal) → LacksComma (signal_text s)
unfolding LacksComma
signal_text_plain buy = ground arith
signal_text_plain sell = ground arith
signal_text_plain none_signal = ground arith

trade_plain : LacksComma (codes "trade")
unfolding LacksComma
trade_plain = ground arith

module _ {W : Type 0} (stoull? : Text → Option ℕ) (stod? : Text → Option W)
    (round : ℕ → W → W) where
  -- what is left of an entry
  pub read_back : Entry W → Row W
  read_back e = record {
    ts = e.time;
    price = round 2 e.last_price;
    qty = round 6 e.last_qty;
    vwap = round 2 e.vwap;
    sma = round 2 e.sma;
    rsi = round 1 e.rsi;
  }

  module _ (p : Printer W) (reads : Reads p stoull? stod? round) where
    row-parse_row :
        (e : Entry W)
        → e.time < 2 ^ 64
        → parse_row stoull? stod? (fields_of (row_text p e)) ≡ some (read_back e)
    unfolding parse_row row_text read_back
    row-parse_row e t =
        let plain = reads.fixed_plain in
        let split = fields_of-each_comma (row_fields p e) (codes e.reason) (
          reads.nat_plain e.time,
          (
            trade_plain,
            (
              plain 2 e.best_bid,
              (
                plain 2 e.best_ask,
                (
                  plain 2 e.mid_price,
                  (
                    plain 2 e.last_price,
                    (
                      plain 6 e.last_qty,
                      (
                        plain 2 e.vwap,
                        (plain 2 e.sma, (plain 1 e.rsi, (signal_text_plain e.signal, tt))),
                      ),
                    ),
                  ),
                ),
              ),
            ),
          ),
        ) in
        ap (parse_row stoull? stod?) split
        ∙ ground (
          arith,
          reads.nat_read e.time t,
          reads.fixed_read 2 e.best_bid,
          reads.fixed_read 2 e.best_ask,
          reads.fixed_read 2 e.mid_price,
          reads.fixed_read 2 e.last_price,
          reads.fixed_read 6 e.last_qty,
          reads.fixed_read 2 e.vwap,
          reads.fixed_read 2 e.sma,
          reads.fixed_read 1 e.rsi,
        )

    rows_of-cons :
        (line : Text) (lines : List Text) (r : Row W)
        → parse_row stoull? stod? (fields_of line) ≡ some r
        → rows_of stoull? stod? (line ∷ lines) ≡ r ∷ rows_of stoull? stod? lines
    unfolding rows_of parse_row fields_of cut
    rows_of-cons [] lines r h = absurd (ground (arith, h))
    rows_of-cons (c ∷ line) lines r h = rw (h, rows_of) refl

    rows-rows_of :
        (es : List (Entry W))
        → All (λ e. e.time < 2 ^ 64) es
        → rows_of stoull? stod? (map (row_text p) es) ≡ map read_back es
    unfolding rows_of
    rows-rows_of [] t = refl
    rows-rows_of (e ∷ es) t =
        rows_of-cons (row_text p e) (map (row_text p) es) (read_back e) (row-parse_row e t.0)
        ∙ ap (λ rs. read_back e ∷ rs) (rows-rows_of es t.1)

    -- A file of a header line and the rows that `main` writes is loaded as the bars of its samples, none
    -- dropped and in their order, with the time as it was, and the last price, the quantity and the
    -- indicators rounded to the places that are printed, provided that the conversions read what the
    -- output stream prints and that the times fit 64 bits.
    pub load_csv-rows :
        ⦃d : Double W⦄
        → (es : List (Entry W)) (first : Text) (old : List (BacktestBar W))
        → All (λ e. e.time < 2 ^ 64) es
        → let bars = bars_of (map read_back es) in
          load_csv stoull? stod? (some (first ∷ map (row_text p) es)) old
          ≡ (not (is_empty bars), bars)
    unfolding load_csv
    load_csv-rows es first old t =
        ap (λ rows. (not (is_empty (bars_of rows)), bars_of rows)) (rows-rows_of es t)

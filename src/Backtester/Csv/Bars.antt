-- ===== src/Backtester/Csv/Bars.antt =====
-- What every bar that `load_csv` makes satisfies.
use quant_sim_x.Prelude.{
  ◌%◌, ◌≡◌, refl, false, List, [], ◌∷◌, ◌++◌, ◌==◌, All, All-append, arith, Bool-cases, inl, inr,
}
use quant_sim_x.Double.{Double, gt, nought, IsOrdered}
use quant_sim_x.Backtester.{BacktestBar}
use quant_sim_x.Backtester.Csv.{
  Row, Loader, add_row, add_rows, no_rows, new_bar, bars_of, open_bar, extend_bar, bar_time_of,
}

module _ {W : Type 0} ⦃d : Double W⦄ where
  open d use {lt}

  -- The open and the close are within the low and the high, and the time is a whole number of
  -- intervals.
  pub record IsBar (b : BacktestBar W) : Type 0 where
    pub open_high : lt b.high b.open_price ≡ false
    pub open_low : lt b.open_price b.low ≡ false
    pub close_high : lt b.high b.close_price ≡ false
    pub close_low : lt b.close_price b.low ≡ false
    pub on_time : b.timestamp_ms % 5000 ≡ 0

  module _ (laws : IsOrdered W) where
    open laws use {lt_irrefl, lt_trans}

    open_bar-IsBar : (r : Row W) → IsBar (open_bar r)
    open_bar-IsBar r = record {
      open_high = lt_irrefl r.price;
      open_low = lt_irrefl r.price;
      close_high = lt_irrefl r.price;
      close_low = lt_irrefl r.price;
      on_time = omega arith;
    }

    new_bar-IsBar : IsBar new_bar
    new_bar-IsBar = record {
      open_high = lt_irrefl nought;
      open_low = lt_irrefl nought;
      close_high = lt_irrefl nought;
      close_low = lt_irrefl nought;
      on_time = refl;
    }

    extend_bar-IsBar : (b : BacktestBar W) (r : Row W) → IsBar b → IsBar (extend_bar b r)
    extend_bar-IsBar b r v = record {
      open_high = ground (arith, v.open_high, lt_trans b.high r.price b.open_price);
      open_low = ground (arith, v.open_low, lt_trans b.open_price r.price b.low);
      close_high = ground (arith, lt_irrefl r.price);
      close_low = ground (arith, lt_irrefl r.price);
      on_time = v.on_time;
    }

    abbrev Good : Loader W → Type 0
    Good s = All IsBar s.bars × IsBar s.current_bar

    push-Good :
        (bs : List (BacktestBar W)) (b : BacktestBar W)
        → All IsBar bs
        → IsBar b
        → All IsBar (bs ++ b ∷ [])
    push-Good bs b h v = All-append IsBar bs (b ∷ []) h (v, tt)

    add_row-Good : (s : Loader W) (r : Row W) → Good s → Good (add_row s r)
    unfolding add_row
    add_row-Good s r (h, v) = elim (Bool-cases (s.current_bar_time == 0)) [
      | inl e ↦ rw (e, add_row) (h, open_bar-IsBar r)
      | inr e ↦ elim (Bool-cases (bar_time_of r.ts == s.current_bar_time)) [
        | inl f ↦ rw (e, add_row, f) (h, extend_bar-IsBar s.current_bar r v)
        | inr f ↦ rw (e, add_row, f) (push-Good s.bars s.current_bar h v, open_bar-IsBar r)
      ]
    ]

    add_rows-Good : (rs : List (Row W)) (s : Loader W) → Good s → Good (add_rows s rs)
    unfolding add_rows
    add_rows-Good [] s h = h
    add_rows-Good (r ∷ rs) s h = add_rows-Good rs (add_row s r) (add_row-Good s r h)

    -- Every bar that is made of the rows of a file has its open and its close within its low and its
    -- high, and a time that is a multiple of 5000.
    pub bars_of-IsBar : (rows : List (Row W)) → All IsBar (bars_of rows)
    unfolding bars_of
    bars_of-IsBar rows =
        let s = add_rows no_rows rows in
        let (h, v) = add_rows-Good rows no_rows (tt, new_bar-IsBar) in
        elim (Bool-cases (gt s.current_bar.volume nought)) [
          | inl e ↦ rw (e, bars_of) (push-Good s.bars s.current_bar h v)
          | inr e ↦ rw (e, bars_of) h
        ]

-- ===== src/Sweep/Best.antt =====
-- The best result of a sweep.
use quant_sim_x.Prelude.{
  ℕ, ◌≡◌, refl, sym, subst, true, false, Bool-cases, Option-cases, ◌⊎◌, inl, inr, Option, some,
  List, [], ◌∷◌, ◌++◌, ◌==◌, ltb, All, All-append, arith,
}
use mathlib.Core.List.{Mem, mem-append_left, mem-append_right, mem-cons_self}
use quant_sim_x.Prelude.Text.{Text}
use quant_sim_x.Double.{Double, IsOrdered}
use quant_sim_x.Backtester.{BacktestMetrics}
use quant_sim_x.Sweep.{
  ParameterSet, OptimizationResult, no_result, record_result, metrics_of, run_single, run_tasks,
}

module _ {W : Type 0} ⦃d : Double W⦄ where
  abbrev pub Unbeaten : BacktestMetrics W → List (ParameterSet W × BacktestMetrics W) → Type 0
  Unbeaten m = All (λ (p, m'). d.lt m.sharpe_ratio m'.sharpe_ratio ≡ false)

  -- No result has a higher Sharpe ratio than the best, which is one of them unless there is none.
  pub record IsBest (r : OptimizationResult W) : Type 0 where
    pub unbeaten : Unbeaten r.best_metrics r.all_results
    pub found :
        ((r.all_results ≡ []) × (r.best_metrics.total_trades ≡ 0))
        ⊎ (Mem (r.best_params, r.best_metrics) r.all_results
            × (ltb 0 r.best_metrics.total_trades ≡ true))

  module _ (stoull? : Text → Option ℕ) (stod? : Text → Option W) where
    -- A run over the file has trades.
    unfoldable pub HasTrades : Option (List Text) → ParameterSet W → Type 0
    HasTrades file p =
        (m : BacktestMetrics W)
        → metrics_of stoull? stod? file p ≡ some m
        → ltb 0 m.total_trades ≡ true

  module _ (laws : IsOrdered W) where
    Unbeaten-lt :
        (m m' : BacktestMetrics W) (rs : List (ParameterSet W × BacktestMetrics W))
        → d.lt m.sharpe_ratio m'.sharpe_ratio ≡ true
        → Unbeaten m rs
        → Unbeaten m' rs
    Unbeaten-lt m m' [] h u = tt
    Unbeaten-lt m m' ((p, x) ∷ rs) h u = (
      ground (arith, h, u.0, laws.lt_trans m.sharpe_ratio m'.sharpe_ratio x.sharpe_ratio),
      Unbeaten-lt m m' rs h u.1,
    )

    -- the new result is the best
    better-IsBest :
        (p : ParameterSet W) (m : BacktestMetrics W)
        (rs : List (ParameterSet W × BacktestMetrics W))
        → Unbeaten m rs
        → ltb 0 m.total_trades ≡ true
        → IsBest (record { best_params = p; best_metrics = m; all_results = rs ++ (p, m) ∷ [] })
    better-IsBest p m rs u t = record {
      unbeaten = All-append _ rs ((p, m) ∷ []) u (laws.lt_irrefl m.sharpe_ratio, tt);
      found = inr (mem-append_right rs mem-cons_self, t);
    }

    record_result-IsBest :
        (p : ParameterSet W) (m : BacktestMetrics W) (r : OptimizationResult W)
        → IsBest r
        → ltb 0 m.total_trades ≡ true
        → IsBest (record_result p m r)
    unfolding record_result
    record_result-IsBest p m r h t = elim h.found [
      | inl (none_yet, untraded) ↦
          rw (untraded, record_result)
            (better-IsBest p m r.all_results (subst (Unbeaten m) (sym none_yet) tt) t)
      | inr (there, traded) ↦
          let kept : (r.best_metrics.total_trades == 0) ≡ false = ground (arith, traded) in
          elim (Bool-cases (d.lt r.best_metrics.sharpe_ratio m.sharpe_ratio)) [
            | inl l ↦
                rw (kept, l, record_result)
                  (better-IsBest p m r.all_results
                    (Unbeaten-lt r.best_metrics m r.all_results l h.unbeaten) t)
            | inr l ↦
                rw (kept, l, record_result)
                  (record {
                    unbeaten = All-append _ r.all_results ((p, m) ∷ []) h.unbeaten (l, tt);
                    found = inr (mem-append_left ((p, m) ∷ []) there, traded);
                  })
          ]
    ]

    module _ (stoull? : Text → Option ℕ) (stod? : Text → Option W) where
      run_tasks-IsBest :
          (file : Option (List Text)) (ps : List (ParameterSet W)) (r : OptimizationResult W)
          → IsBest r
          → All (HasTrades stoull? stod? file) ps
          → IsBest (run_tasks stoull? stod? file ps r)
      unfolding run_tasks run_single HasTrades
      run_tasks-IsBest file [] r h a = h
      run_tasks-IsBest file (p ∷ ps) r h a =
          run_tasks-IsBest file ps (run_single stoull? stod? file p r)
            (elim (Option-cases (metrics_of stoull? stod? file p)) [
              | inl n ↦ rw (n, run_single) h
              | inr (m, n) ↦ rw (n, run_single) (record_result-IsBest p m r h (a.0 m n))
            ])
            a.1

      -- In whatever order the pool runs the tasks of a sweep, the result that is reported as the best is
      -- one of the results, unless there is none, and no result has a higher Sharpe ratio, provided that
      -- each run that loads the file has trades.
      pub sweep-IsBest :
          (file : Option (List Text)) (ps : List (ParameterSet W))
          → All (HasTrades stoull? stod? file) ps
          → IsBest (run_tasks stoull? stod? file ps no_result)
      sweep-IsBest file ps a =
          run_tasks-IsBest file ps no_result (record { unbeaten = tt; found = inl (refl, refl) }) a

-- ===== src/Profiler/Tests.antt =====
-- Three marks, of which the second one subtracts a time.
use quant_sim_x.Prelude.{ℕ, ◌≡◌, refl, true, none, some, [], ◌∷◌}
use quant_sim_x.Prelude.Text.{codes}
use quant_sim_x.Profiler.{total_cycles, mark, mark_with_latency}
use quant_sim_x.Profiler.Span.{Mark, marks}

abbrev plain : ℕ → Mark
plain c = record { stage = codes "s"; start_ns = none; time_ns = 1; cycles = c }

abbrev timed : Mark
timed = record { stage = codes "t"; start_ns = some 900; time_ns = 2; cycles = 700 }

-- With the timed mark last, the total is far off.
total_wraps :
    total_cycles (marks (record { enabled = true; records = [] }) (plain 500 ∷ timed ∷ []))
    ≡ 18446744073709550916
unfolding total_cycles mark mark_with_latency
total_wraps = refl

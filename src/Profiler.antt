-- ===== src/Profiler.antt =====
-- `LatencyProfiler` (include/LatencyProfiler.h). The clock and the cycle counter are arguments of each
-- call. `print_summary` is declared and has no body.
mod Span
mod Tests
use quant_sim_x.Prelude.{
  ℕ, ◌-◌, Bool, true, false, not, List, [], ◌∷◌, ◌++◌, length, get_or, ltb, sub64, if◌then◌else◌,
}
use quant_sim_x.Prelude.Text.{Text}
use quant_sim_x.Double.{Double}

pub record Record : Type 0 where
  pub timestamp_ns : ℕ
  pub stage : Text
  pub cycles : ℕ

pub record LatencyProfiler : Type 0 where
  pub enabled : Bool
  pub records : List Record

abbrev pub new_profiler : LatencyProfiler
new_profiler = record { enabled = false; records = [] }

abbrev pub enable : LatencyProfiler → LatencyProfiler
enable p = record p { enabled = true }

abbrev pub disable : LatencyProfiler → LatencyProfiler
disable p = record p { enabled = false }

abbrev pub clear : LatencyProfiler → LatencyProfiler
clear p = record p { records = [] }

unfoldable pub mark : LatencyProfiler → Text → ℕ → ℕ → LatencyProfiler
mark p stage time_ns cycles = if not p.enabled then p else record p {
  records = p.records ++ record { timestamp_ns = time_ns; stage = stage; cycles = cycles } ∷ [];
}

-- `get_cycles() - start_ns`
unfoldable pub mark_with_latency : LatencyProfiler → Text → ℕ → ℕ → ℕ → LatencyProfiler
mark_with_latency p stage start_ns time_ns cycles = if not p.enabled then p else record p {
  records =
      p.records
      ++ record { timestamp_ns = time_ns; stage = stage; cycles = sub64 cycles start_ns } ∷ [];
}

abbrev pub no_record : Record
no_record = record { timestamp_ns = 0; stage = []; cycles = 0 }

unfoldable pub total_cycles : LatencyProfiler → ℕ
total_cycles p =
    if ltb (length p.records) 2
    then 0
    else sub64 (get_or p.records (length p.records - 1) no_record).cycles
        (get_or p.records 0 no_record).cycles

module _ {ℓ} {W : Type ℓ} ⦃d : Double W⦄ where
  open d use {of_nat, div}

  unfoldable pub cycles_to_ms : ℕ → W
  cycles_to_ms cycles = div (of_nat cycles) (of_nat 2800000)

  unfoldable pub total_ms : LatencyProfiler → W
  unfolding cycles_to_ms
  total_ms p = cycles_to_ms (total_cycles p)

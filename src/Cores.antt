-- ===== src/Cores.antt =====
-- `CPUPinner` (include/HFT.h) on Linux. The answers of `pthread_setaffinity_np`, of fopen and of
-- `hardware_concurrency` are arguments; a thread is named by a number, and 0 is no thread.
mod Tests
use quant_sim_x.Prelude.{
  ℕ, zero, suc, Bool, true, false, Option, none, some, List, [], ◌∷◌, set, replicate, length, ltb,
  if◌then◌else◌, ◌==◌,
}
use quant_sim_x.Prelude.Text.{Text, codes}
use quant_sim_x.Rest.{starts_with}

abbrev pub max_cores : ℕ
max_cores = 64

pub record CpuPinner : Type 0 where
  pub core_to_thread : List ℕ
  pub discovered : ℕ

-- the lines that begin with "processor"
abbrev pub count_processors : List Text → ℕ
count_processors [] = 0
count_processors (l ∷ ls) =
    let rest = count_processors ls in if starts_with (codes "processor") l then suc rest else rest

-- `file` are the pieces of /proc/cpuinfo that `fgets` gives, none if it does not open.
unfoldable pub discover_cores : Option (List Text) → ℕ → ℕ
discover_cores file hardware_concurrency =
    let cores : ℕ = elim file [ none ↦ 0 | some ls ↦ count_processors ls ] in
    if ltb 0 cores then cores else hardware_concurrency

unfoldable pub new_pinner : Option (List Text) → ℕ → CpuPinner
unfolding discover_cores
new_pinner file hardware_concurrency = record {
  core_to_thread = replicate max_cores 0;
  discovered = discover_cores file hardware_concurrency;
}

-- `core_to_thread_[core_id] = id`; `none` is a write out of the array
unfoldable pub note_thread : CpuPinner → ℕ → ℕ → Option CpuPinner
note_thread p id core_id =
    if ltb core_id max_cores
    then some (record p { core_to_thread = set p.core_to_thread core_id id })
    else none

-- `result` is that of `pthread_setaffinity_np`.
unfoldable pub pin_thread_to_core : CpuPinner → ℕ → ℕ → ℕ → Option (Bool × CpuPinner)
unfolding note_thread
pin_thread_to_core p id core_id result =
    if result == 0
    then elim (note_thread p id core_id) [ none ↦ none | some q ↦ some (true, q) ]
    else some (false, p)

-- The table is written whatever the call gives.
unfoldable pub pin_current_thread : CpuPinner → ℕ → ℕ → Option CpuPinner
unfolding note_thread
pin_current_thread p id core_id = note_thread p id core_id

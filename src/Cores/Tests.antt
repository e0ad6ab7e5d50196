-- ===== src/Cores/Tests.antt =====
-- A machine with two processors.
use quant_sim_x.Prelude.{◌≡◌, refl, none, some, [], ◌∷◌}
use quant_sim_x.Prelude.Text.{codes}
use quant_sim_x.Cores.{new_pinner, discover_cores, pin_current_thread, note_thread}

two_found :
    discover_cores
      (some (codes "processor : 0" ∷ codes "flags : fpu" ∷ codes "processor : 1" ∷ []))
      8
    ≡ 2
unfolding discover_cores
two_found = refl

-- A machine may have a core with this number.
out_of_table : pin_current_thread (new_pinner none 128) 5 64 ≡ none
unfolding pin_current_thread note_thread
out_of_table = refl

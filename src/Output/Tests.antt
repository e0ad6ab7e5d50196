-- ===== src/Output/Tests.antt =====
-- A file of three rows, and a line of the log.
use quant_sim_x.Prelude.{◌≡◌, refl, none, some, List, [], ◌∷◌, ◌++◌}
use quant_sim_x.Prelude.Text.{Text, codes}
use quant_sim_x.Output.{log, LogCall, LogLevel}

abbrev three_rows : List Text
three_rows = codes "a,b" ∷ [] ∷ codes "c" ∷ []

abbrev a_call : LogCall
a_call = record {
  level = LogLevel.warn;
  time = codes "T";
  ms = codes "7";
  file = codes "a.cpp";
  line = codes "12";
  values = codes "x=" ∷ codes "1" ∷ [];
}

warning : log LogLevel.info a_call ≡ some (codes "[T.007] [WARN] [a.cpp:12] x=1" ++ 10 ∷ [])
unfolding log
warning = refl

filtered : log LogLevel.error a_call ≡ none
unfolding log
filtered = refl

-- ===== src/SymbolIndex/Tests.antt =====
-- Two symbols, one of them replaced and one removed.
use quant_sim_x.Prelude.{ℕ, ◌≡◌, refl, none, List, [], ◌∷◌, if◌then◌else◌}
use quant_sim_x.Prelude.Text.{Text, codes}
use quant_sim_x.SymbolIndex.{get, add, remove, contains, symbols}
use quant_sim_x.SymbolIndex.View.{Call, calls, effects, times, calls-refine}

abbrev some_calls : List (Call ℕ)
some_calls =
    Call.added (codes "BTC") 1
    ∷ Call.added (codes "ETH") 2
    ∷ Call.added (codes "BTC") 3
    ∷ Call.removed (codes "ETH")
    ∷ []

calls-refine_example :
    (get (calls [] some_calls) ≡ effects (λ s. none) some_calls)
    × ((s : Text)
        → times s (symbols (calls [] some_calls))
          ≡ (if contains (calls [] some_calls) s then 1 else 0))
calls-refine_example = calls-refine some_calls

one_left : calls [] some_calls ≡ (codes "BTC", 3) ∷ []
unfolding add remove
one_left = refl

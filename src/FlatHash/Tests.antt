-- ===== src/FlatHash/Tests.antt =====
-- Each theorem on the table, with two slots of which the second holds the key 3.
use quant_sim_x.Prelude.{◌^◌, ◌≡◌, refl, true, none, some, [], ◌∷◌}
use quant_sim_x.FlatHash.{FlatHash, no_entry, find, clear}
use quant_sim_x.FlatHash.Lookup.{find-clear}

abbrev table : FlatHash
table = record {
  entries = no_entry ∷ record { key = 3; value = 30; occupied = true } ∷ [];
  count = 1;
}

three_found : find (2 ^ 1) table 3 ≡ some 30
unfolding find
three_found = refl

find-clear_example : (find 2 (clear table) 3 ≡ none) × ((clear table).count ≡ 0)
find-clear_example = find-clear 2 table 3

-- ===== src/FlatHash.antt =====
-- `FlatHashFreeArray<Capacity>` (include/HFT.h): a table with one slot for the keys of the same low
-- bits, and no probing.
pub mod Lookup
mod Tests
use quant_sim_x.Prelude.{
  ℕ, Bool, true, false, not, ◌||◌, ◌&&◌, Option, none, some, List, map, get_or, set, ◌==◌, add64,
  sub64, slot_of, if◌then◌else◌,
}

pub record Entry : Type 0 where
  pub key : ℕ
  pub value : ℕ
  pub occupied : Bool

pub record FlatHash : Type 0 where
  pub entries : List Entry
  pub count : ℕ

abbrev pub no_entry : Entry
no_entry = record { key = 0; value = 0; occupied = false }

abbrev pub entry_at : ℕ → FlatHash → ℕ → Entry
entry_at capacity t key = get_or t.entries (slot_of capacity key) no_entry

-- `!occupied || key != key`
abbrev pub is_other : Entry → ℕ → Bool
is_other e key = not e.occupied || not (e.key == key)

unfoldable pub insert : ℕ → FlatHash → ℕ → ℕ → Bool × FlatHash
insert capacity t key value =
    let e = entry_at capacity t key in
    if e.occupied && not (e.key == key) then (false, t) else (
      true,
      record {
        entries =
            set t.entries (slot_of capacity key)
              (record { key = key; value = value; occupied = true });
        count = add64 t.count 1;
      },
    )

unfoldable pub find : ℕ → FlatHash → ℕ → Option ℕ
find capacity t key =
    let e = entry_at capacity t key in if is_other e key then none else some e.value

unfoldable pub remove : ℕ → FlatHash → ℕ → Bool × FlatHash
remove capacity t key =
    let e = entry_at capacity t key in
    if is_other e key then (false, t) else (
      true,
      record {
        entries = set t.entries (slot_of capacity key) (record e { occupied = false });
        count = sub64 t.count 1;
      },
    )

abbrev pub free_entry : Entry → Entry
free_entry e = record e { occupied = false }

unfoldable pub clear : FlatHash → FlatHash
clear t = record { entries = map free_entry t.entries; count = 0 }

-- ===== src/Prelude/Words.antt =====
-- `std::size_t` and `uint64_t`: 64 bits, with wrap-around.
use Prim.Native.Nat.{ℕ, ◌+◌, ◌-◌, ◌%◌, ◌^◌, bit_and}

abbrev pub word_mod : ℕ
word_mod = 2 ^ 64

abbrev pub add64 : ℕ → ℕ → ℕ
add64 a b = (a + b) % 2 ^ 64

abbrev pub sub64 : ℕ → ℕ → ℕ
sub64 a b = (a + 2 ^ 64 - b) % 2 ^ 64

-- the slot of a free-running index in an array of `cap` slots
abbrev pub slot_of : ℕ → ℕ → ℕ
slot_of cap i = bit_and i (cap - 1)

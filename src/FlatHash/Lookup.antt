-- ===== src/FlatHash/Lookup.antt =====
-- What `find` gives after the other operations.
use quant_sim_x.Prelude.{
  ℕ, ◌+◌, ◌^◌, ◌<◌, ◌≡◌, ◌≢◌, refl, sym, true, false, none, some, List, [], ◌∷◌, map, zero, suc,
  arith, length, length-set, get_or, set, get_or-set_self, get_or-set_ne, slot_of,
}
use native.Mathlib.Nat.{mod-lt}
use quant_sim_x.Prelude.Bits.{bit_and_mask, pow_pos}
use quant_sim_x.FlatHash.{
  Entry, FlatHash, no_entry, entry_at, insert, find, remove, clear, free_entry,
}

free-unoccupied :
    (es : List Entry) (i : ℕ) → (get_or (map free_entry es) i no_entry).occupied ≡ false
free-unoccupied [] i = refl
free-unoccupied (e ∷ es) zero = refl
free-unoccupied (e ∷ es) (suc i) = free-unoccupied es i

-- After `clear` no key is found, and the count is 0.
pub find-clear :
    (capacity : ℕ) (t : FlatHash) (key : ℕ)
    → (find capacity (clear t) key ≡ none) × ((clear t).count ≡ 0)
unfolding find clear
find-clear capacity t key = ground (arith, free-unoccupied t.entries (slot_of capacity key))

module _ (k : ℕ) where
  abbrev cap : ℕ
  cap = 2 ^ k

  slot-lt :
      (t : FlatHash) (key : ℕ) → length t.entries ≡ 2 ^ k → slot_of (2 ^ k) key < length t.entries
  slot-lt t key e = omega (arith, bit_and_mask k key, mod-lt key (pow_pos k))

  -- After a `remove` the key is not found, and every key of another slot is as it was. It fails
  -- exactly when the key was not found.
  pub find-remove :
      (t : FlatHash) (key q : ℕ)
      → length t.entries ≡ 2 ^ k
      → let (ok, u) = remove (2 ^ k) t key in
        (length u.entries ≡ 2 ^ k)
        × (ok ≡ false → find (2 ^ k) t key ≡ none)
        × (find (2 ^ k) u key ≡ none)
        × (slot_of (2 ^ k) q ≢ slot_of (2 ^ k) key → find (2 ^ k) u q ≡ find (2 ^ k) t q)
  unfolding remove find
  find-remove t key q e =
      let v : Entry = record (entry_at (2 ^ k) t key) { occupied = false } in
      ground (
        arith,
        length-set t.entries (slot_of (2 ^ k) key) v,
        get_or-set_self t.entries (slot_of (2 ^ k) key) v no_entry (slot-lt t key e),
        λ (p : slot_of (2 ^ k) q ≢ slot_of (2 ^ k) key).
            get_or-set_ne t.entries (slot_of (2 ^ k) key) (slot_of (2 ^ k) q) v no_entry
              (λ s. p (sym s)),
      )

  -- To insert a key again counts it twice: if the key is there, `insert` succeeds and the count grows,
  -- and the `remove` that follows takes the key out but leaves the count at what it was with the key.
  pub count_drifts :
      (t : FlatHash) (key old value : ℕ)
      → length t.entries ≡ 2 ^ k
      → t.count + 1 < 2 ^ 64
      → find (2 ^ k) t key ≡ some old
      → let u = (remove (2 ^ k) (insert (2 ^ k) t key value).1 key).1 in
        (find (2 ^ k) u key ≡ none) × (u.count ≡ t.count)
  unfolding insert remove find
  count_drifts t key old value e small f =
      let slot = slot_of (2 ^ k) key in
      let v : Entry = record { key = key; value = value; occupied = true } in
      let w : Entry = record { key = key; value = value; occupied = false } in
      ground (
        arith,
        get_or-set_self t.entries slot v no_entry (slot-lt t key e),
        get_or-set_self (set t.entries slot v) slot w no_entry
            (omega (arith, slot-lt t key e, length-set t.entries slot v)),
      )

-- ===== src/Queues/Spsc/Capacity.antt =====
-- What `next_pow2` rounds to.
use quant_sim_x.Prelude.{
  ℕ, zero, suc, ◌*◌, ◌^◌, ◌≤◌, ◌<◌, ◌≡◌, refl, inl, inr, Bool, true, false, ◌&&◌, ◌||◌, Bool-cases,
  ltb, leb, ◌==◌, arith,
}
use quant_sim_x.Queues.Spsc.{next_pow2}

every : ℕ → (ℕ → Bool) → Bool
every zero p = true
every (suc n) p = p n && every n p

every_sound : (n : ℕ) (p : ℕ → Bool) (x : ℕ) → every n p ≡ true → x < n → p x ≡ true
unfolding every
every_sound zero p x h lt = absurd (omega arith)
every_sound (suc n) p x h lt = ground (arith, every_sound n p x)

-- `r` is one of 2^0, …, 2^(m - 1)
is_power : ℕ → ℕ → Bool
is_power r zero = false
is_power r (suc m) = r == 2 ^ m || is_power r m

is_power_sound : (r m : ℕ) → is_power r m ≡ true → (k : ℕ) × (k < m) × (r ≡ 2 ^ k)
unfolding is_power
is_power_sound r zero h = cc
is_power_sound r (suc m) h = elim (Bool-cases (r == 2 ^ m)) [
  | inl e ↦ (m, omega arith, ground arith)
  | inr e ↦ let (k, small, eq) = is_power_sound r m (ground arith) in (k, omega arith, eq)
]

rounds : ℕ → ℕ → Bool
rounds n r = leb n r && (ltb r (2 * n) && is_power r 13)

rounds_sound : (n r : ℕ) → rounds n r ≡ true → (n ≤ r) × (r < 2 * n) × (is_power r 13 ≡ true)
unfolding rounds
rounds_sound n r h = ground arith

is_rounded : ℕ → Bool
is_rounded m = rounds (suc m) (next_pow2 (suc m))

table : every 4096 is_rounded ≡ true
unfolding every is_rounded rounds is_power next_pow2
table = refl

-- For every capacity from 1 to 4096, the rounded one is the least power of two that is not smaller.
pub next_pow2_lem :
    (n : ℕ)
    → 0 < n
    → n ≤ 4096
    → (k : ℕ) × (k < 13) × (next_pow2 n ≡ 2 ^ k) × (n ≤ next_pow2 n) × (next_pow2 n < 2 * n)
unfolding is_rounded
next_pow2_lem zero h l = absurd (omega arith)
next_pow2_lem (suc m) h l =
    let (above, below, power) =
      rounds_sound (suc m) (next_pow2 (suc m)) (every_sound 4096 is_rounded m table l) in
    let (k, small, eq) = is_power_sound (next_pow2 (suc m)) 13 power in (k, small, eq, above, below)

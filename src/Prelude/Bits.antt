-- ===== src/Prelude/Bits.antt =====
-- `x & (2^k - 1)`, the index of a slot in the power-of-two arrays, as a remainder.
use Prim.Native.Nat.{
  ℕ, zero, suc, ◌+◌, ◌-◌, ◌*◌, ◌/◌, ◌%◌, ◌^◌, ◌≤◌, ◌<◌, ◌∣◌, min, bit_and, digits, bit_and-bitwise,
}
use mathlib.Core.Path.{◌≡◌, sym, subst, ap, ◌∙◌}
use native.Mathlib.Nat.{
  dvd_refl, dvd-mul_right_of_dvd, mod-mod_of_dvd, zero-add, suc-add, pow-suc, one-le-pow,
  div-add-mod, mod-lt, mul-add-mod_self_left, mod-eq_of_lt,
}
use native.Mathlib.Omega.{arith}

-- The low bits of `a` are those of `a / 2`, and the parity.
mod-two_mul : (a p : ℕ) → 0 < p → a % (2 * p) ≡ a / 2 % p * 2 + a % 2
mod-two_mul a p h =
    let low : ℕ = a / 2 % p * 2 + a % 2 in
    let small : low < 2 * p = omega (arith, mod-lt (a / 2) h) in
    let whole : a ≡ 2 * p * (a / 2 / p) + low =
      omega (arith, ap (λ (t : ℕ). 2 * t) (div-add-mod (a / 2) p)) in
    ap (λ t. t % (2 * p)) whole ∙ mul-add-mod_self_left (2 * p) (a / 2 / p) low ∙ mod-eq_of_lt small

pub pow_pos : (k : ℕ) → 0 < 2 ^ k
pow_pos k = one-le-pow k 2 (omega arith)

double : (k : ℕ) → 2 ^ suc k ≡ 2 * 2 ^ k
double k = omega (arith, pow-suc 2 k)

half_mask : (k : ℕ) → (2 ^ suc k - 1) / 2 ≡ 2 ^ k - 1
half_mask k = omega (arith, double k, pow_pos k)

-- The digits of `a & mask`, with fuel for those of `a`.
masked : (k fuel a : ℕ) → a ≤ fuel → digits (λ b. zero) min fuel a (2 ^ k - 1) ≡ a % 2 ^ k
masked k zero zero h = omega (arith, mod-eq_of_lt (pow_pos k))
masked k zero (suc a) h = absurd (omega arith)
masked k (suc fuel) zero h = omega (arith, mod-eq_of_lt (pow_pos k))
masked zero (suc fuel) (suc a) h = omega (arith, masked zero fuel (suc a / 2) (omega arith))
masked (suc k) (suc fuel) (suc a) h = omega (
  arith,
  double k,
  pow_pos k,
  ap (digits (λ b. zero) min fuel (suc a / 2)) (half_mask k),
  masked k fuel (suc a / 2) (omega arith),
  mod-two_mul (suc a) (2 ^ k) (pow_pos k),
  ap (λ t. suc a % t) (double k),
)

pub bit_and_mask : (k a : ℕ) → bit_and a (2 ^ k - 1) ≡ a % 2 ^ k
bit_and_mask k a = bit_and-bitwise a (2 ^ k - 1) ∙ masked k a a (omega arith)

two_pow_dvd : (m k : ℕ) → 2 ^ k ∣ 2 ^ (m + k)
two_pow_dvd zero k = rw zero-add (dvd_refl (2 ^ k))
two_pow_dvd (suc m) k = rw (suc-add, pow-suc) (dvd-mul_right_of_dvd (2 ^ k) (two_pow_dvd m k) 2)

-- Wrap-around does not disturb the low bits.
pub mod-mod_two_pow : (k j a : ℕ) → k ≤ j → a % 2 ^ j % 2 ^ k ≡ a % 2 ^ k
mod-mod_two_pow k j a h =
    let split : j ≡ j - k + k = omega arith in
    mod-mod_of_dvd (2 ^ k) {b = 2 ^ j} a
      (subst (λ t. 2 ^ k ∣ 2 ^ t) (sym split) (two_pow_dvd (j - k) k))

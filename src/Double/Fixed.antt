-- ===== src/Double/Fixed.antt =====
-- A concrete `double` for tests and instances: integers that count millionths. It meets the laws.
use quant_sim_x.Prelude.{
  ℕ, zero, suc, ◌+◌, ◌*◌, ◌/◌, ◌^◌, ◌≡◌, refl, Bool, true, false, if◌then◌else◌, leb, ◌==◌, arith,
}
use quant_sim_x.Prelude.Int.{ℤ, pos, negsuc, pos_part, neg_part, sub_ℕ, ltb_ℤ}
use quant_sim_x.Double.{Double, IsOrdered}

abbrev pub Fixed : Type 0
Fixed = ℤ

abbrev unit : ℕ
unit = 10 ^ 6

abbrev magnitude : ℤ → ℕ
magnitude a = pos_part a + neg_part a

abbrev is_negative : ℤ → Bool
is_negative (pos _) = false
is_negative (negsuc _) = true

-- `n` with the sign of the product of `a` and `b`
abbrev signed : ℤ → ℤ → ℕ → ℤ
signed (pos _) (pos _) n = pos n
signed (negsuc _) (negsuc _) n = pos n
signed _ _ n = sub_ℕ 0 n

-- the whole square root, one base-4 digit a round
pub isqrt : ℕ → ℕ → ℕ
isqrt zero n = 0
isqrt (suc fuel) n =
    let r = isqrt fuel (n / 4) in if leb ((2 * r + 1) * (2 * r + 1)) n then 2 * r + 1 else 2 * r

abbrev eq_ℤ : ℤ → ℤ → Bool
eq_ℤ a b = (pos_part a + neg_part b) == (pos_part b + neg_part a)

abbrev le_ℤ : ℤ → ℤ → Bool
le_ℤ a b = leb (pos_part a + neg_part b) (pos_part b + neg_part a)

instance abbrev pub fixed_double : Double Fixed
fixed_double = record {
  of_nat = λ n. pos (n * unit);
  decimal = λ m d. pos (m * unit / 10 ^ d);
  add = λ a b. sub_ℕ (pos_part a + pos_part b) (neg_part a + neg_part b);
  sub = λ a b. sub_ℕ (pos_part a + neg_part b) (neg_part a + pos_part b);
  mul = λ a b. signed a b (magnitude a * magnitude b / unit);
  div = λ a b. signed a b (magnitude a * unit / magnitude b);
  neg = λ a. sub_ℕ (neg_part a) (pos_part a);
  abs = λ a. pos (magnitude a);
  sqrt = λ a. pos (isqrt 64 (pos_part a * unit));
  lt = ltb_ℤ;
  le = le_ℤ;
  eq = eq_ℤ;
}

-- 12.5 and the like: `fixed 125 1`
abbrev pub fixed : ℕ → ℕ → Fixed
fixed m d = pos (m * unit / 10 ^ d)

pub Fixed-IsOrdered : IsOrdered Fixed
Fixed-IsOrdered = ground arith

sqrt_two : isqrt 64 2_000_000_000_000 ≡ 1414213
unfolding isqrt
sqrt_two = refl

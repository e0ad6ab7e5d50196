-- ===== src/Double.antt =====
-- What the code does with a `double`: literals, arithmetic, `std::abs`, `std::sqrt` and the
-- comparisons. The type stays abstract; a theorem that needs more than the operations takes the laws
-- of the comparisons as a hypothesis.
pub mod Fixed
use quant_sim_x.Prelude.{ℕ, ◌≡◌, ◌⊎◌, Bool, true, false, ◌||◌, if◌then◌else◌}

pub record Double {ℓ} (W : Type ℓ) : Type ℓ where
  -- an integer, converted
  pub of_nat : ℕ → W
  -- the literal `m / 10^d`: `decimal 5 1` is 0.5
  pub decimal : ℕ → ℕ → W
  pub add : W → W → W
  pub sub : W → W → W
  pub mul : W → W → W
  pub div : W → W → W
  pub neg : W → W
  pub abs : W → W
  pub sqrt : W → W
  pub lt : W → W → Bool
  pub le : W → W → Bool
  pub eq : W → W → Bool

module _ {ℓ} {W : Type ℓ} ⦃d : Double W⦄ where
  -- `x > y`
  abbrev pub gt : W → W → Bool
  gt x y = d.lt y x

  -- 0.0
  abbrev pub nought : W
  nought = d.of_nat 0

  -- `std::max` and `std::min`, with the branch that the standard fixes on a tie
  abbrev pub max_of : W → W → W
  max_of x y = if d.lt x y then y else x

  abbrev pub min_of : W → W → W
  min_of x y = if d.lt y x then y else x

-- The IEEE comparisons. NaN is the value that is not `==` itself; the order is total away from it.
pub record IsOrdered {ℓ} (W : Type ℓ) ⦃d : Double W⦄ : Type ℓ where
  pub lt_irrefl : (x : W) → d.lt x x ≡ false
  pub lt_trans : (x y z : W) → d.lt x y ≡ true → d.lt y z ≡ true → d.lt x z ≡ true
  pub lt_connex :
      (x y : W)
      → d.eq x x ≡ true
      → d.eq y y ≡ true
      → (d.lt x y ≡ true) ⊎ (d.eq x y ≡ true) ⊎ (d.lt y x ≡ true)
  pub lt_num : (x y : W) → d.lt x y ≡ true → (d.eq x x ≡ true) × (d.eq y y ≡ true)
  pub eq_sym : (x y : W) → d.eq x y ≡ d.eq y x
  pub lt-eq_left : (x y z : W) → d.eq x y ≡ true → d.lt x z ≡ d.lt y z
  pub lt-eq_right : (x y z : W) → d.eq x y ≡ true → d.lt z x ≡ d.lt z y
  pub eq-eq : (x y z : W) → d.eq x y ≡ true → d.eq x z ≡ d.eq y z
  pub le-eq-or : (x y : W) → d.le x y ≡ (d.lt x y || d.eq x y)

-- ===== src/Json.antt =====
-- What the code uses of nlohmann/json and of `std::stod`. `none` stands for an exception.
pub mod Document
use Prim.Native.String.{String}
use quant_sim_x.Prelude.{ℕ, List, Option}
use quant_sim_x.Prelude.Int.{ℤ}

pub record Json (W : Type 0) : Type 1 where
  pub Value : Type 0
  -- `j.contains(key)`, with `j[key]`
  pub member? : Value → String → Option Value
  -- the values that `for (const auto& v : j)` goes through
  pub items : Value → List Value
  -- `j[i]`
  pub item? : Value → ℕ → Option Value
  -- `get<std::string>`
  pub text? : Value → Option String
  -- `get<uint64_t>`
  pub uint64? : Value → Option ℕ
  -- `get<int>`
  pub int32? : Value → Option ℤ
  -- `get<double>`
  pub number? : Value → Option W
  pub stod? : String → Option W

-- ===== src/Risk/Limits.antt =====
-- What the checks of `RiskManager` promise.
use quant_sim_x.Prelude.{
  ◌≡◌, subst, true, false, Option-cases, inl, inr, Option, none, some, List, [], ◌∷◌, arith,
}
use mathlib.Core.Option.{some-injective}
use quant_sim_x.Prelude.Int.{ℤ, pos, negsuc, ◌+ℤ◌, ◌≤ℤ◌}
use quant_sim_x.Risk.{RiskManager, in_range, wrapped, magnitude, notional_of, check_order, on_fill}

pub record Order : Type 0 where
  pub size_cents : ℤ
  pub price_cents : ℤ

-- an order that is filled when the check accepts it
abbrev pub place : Order → RiskManager → Option RiskManager
place o r = elim (check_order r o.size_cents o.price_cents) [
  | none ↦ none
  | some true ↦ on_fill r o.size_cents o.price_cents
  | some false ↦ some r
]

unfoldable pub place_all : List Order → RiskManager → Option RiskManager
place_all [] r = some r
place_all (o ∷ os) r = elim (place o r) [ none ↦ none | some r' ↦ place_all os r' ]

-- The open position is at most the limit, in either direction.
unfoldable pub IsWithin : RiskManager → Type 0
IsWithin r = pos (magnitude r.open_position_cents) ≤ℤ r.limits.max_position_size_cents

wrapped-exact : (a : ℤ) → in_range 63 a ≡ true → wrapped 63 a ≡ a
wrapped-exact (pos n) h = ground (arith, h)
wrapped-exact (negsuc n) h = ground (arith, h)

-- what an accepted order is known to satisfy
checked :
    (r : RiskManager) (size price : ℤ)
    → check_order r size price ≡ some true
    → (in_range 63 (r.open_position_cents +ℤ size) ≡ true)
      × (pos (magnitude (r.open_position_cents +ℤ size)) ≤ℤ r.limits.max_position_size_cents)
unfolding check_order
checked r size price h = ground (arith, h)

on_fill-IsWithin :
    (r r' : RiskManager) (size price : ℤ)
    → check_order r size price ≡ some true
    → on_fill r size price ≡ some r'
    → IsWithin r'
unfolding on_fill IsWithin
on_fill-IsWithin r r' size price h e =
    let after = r.open_position_cents +ℤ size in
    let (fits, small) = checked r size price h in
    elim (Option-cases (notional_of size price)) [
      | inl n ↦ absurd (ground (arith, n, e))
      | inr (notional, n) ↦ ground (arith, n, e, small, wrapped-exact after fits)
    ]

place-IsWithin : (o : Order) (r r' : RiskManager) → IsWithin r → place o r ≡ some r' → IsWithin r'
place-IsWithin o r r' w e = elim (Option-cases (check_order r o.size_cents o.price_cents)) [
  | inl n ↦ absurd (ground (arith, n, e))
  | inr (true, n) ↦ on_fill-IsWithin r r' o.size_cents o.price_cents n (ground (arith, n, e))
  | inr (false, n) ↦ ground (arith, n, e, w)
]

-- As long as only orders are filled that `check_order` accepts, one after the other, the open position
-- stays within the limit, whatever the orders are, as long as no signed addition overflows.
pub place_all-IsWithin :
    (os : List Order) (r r' : RiskManager) → IsWithin r → place_all os r ≡ some r' → IsWithin r'
unfolding place_all
place_all-IsWithin [] r r' w e = subst IsWithin (some-injective _ _ e) w
place_all-IsWithin (o ∷ os) r r' w e = elim (Option-cases (place o r)) [
  | inl n ↦ absurd (ground (arith, n, e))
  | inr (next, n) ↦
      place_all-IsWithin os next r' (place-IsWithin o r next w n) (ground (arith, n, e))
]

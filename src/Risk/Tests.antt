-- ===== src/Risk/Tests.antt =====
-- The operations of the risk manager on concrete numbers, and its theorem on a manager without limits
-- reached.
use quant_sim_x.Prelude.{◌≡◌, refl, true, some, List, [], ◌∷◌, ◌^◌, ◌-◌, arith}
use quant_sim_x.Prelude.Int.{pos, negsuc, ◌+ℤ◌}
use quant_sim_x.Risk.{RiskManager, new_manager, wrapped, notional_of, check_order, on_fill}
use quant_sim_x.Risk.Limits.{Order, IsWithin, place_all, place_all-IsWithin}

wraps : wrapped 63 (pos (2 ^ 63)) ≡ negsuc (2 ^ 63 - 1)
wraps = refl

rounds_to_zero : notional_of (negsuc 3) (pos 5000) ≡ some (negsuc 1)
rounds_to_zero = refl

-- The limit on the size of an order is one for purchases only.
large_sale : check_order new_manager (negsuc 99999) (pos 100) ≡ some true
unfolding check_order ◌+ℤ◌
large_sale = refl

abbrev orders : List Order
orders =
    record { size_cents = pos 9000; price_cents = pos 20000 }
    ∷ record { size_cents = pos 90000; price_cents = pos 20000 }
    ∷ []

abbrev filled : RiskManager
filled = record new_manager {
  open_position_cents = pos 9000;
  daily_pnl_cents = pos 18000;
  orders_today = pos 1;
}

orders_lem : place_all orders new_manager ≡ some filled
unfolding place_all check_order on_fill ◌+ℤ◌
orders_lem = refl

place_all-IsWithin_example : IsWithin filled
unfolding IsWithin
place_all-IsWithin_example = place_all-IsWithin orders new_manager filled (omega arith) orders_lem

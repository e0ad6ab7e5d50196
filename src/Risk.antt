-- ===== src/Risk.antt =====
-- `RiskManager` (include/RiskManager.h). `none` is signed overflow, which C++ leaves undefined; the
-- atomic additions wrap around.
pub mod Limits
mod Tests
use quant_sim_x.Prelude.{
  ℕ, ◌+◌, ◌-◌, ◌*◌, ◌/◌, ◌%◌, ◌^◌, ◌<◌, ◌≤◌, Bool, true, false, ◌&&◌, Option, none, some, leb, ltb,
  if◌then◌else◌,
}
use quant_sim_x.Prelude.Int.{ℤ, pos, negsuc, pos_part, neg_part, sub_ℕ, ltb_ℤ, ◌+ℤ◌}

pub record RiskLimits : Type 0 where
  pub max_position_size_cents : ℤ
  pub max_order_size_cents : ℤ
  pub max_daily_loss_cents : ℤ
  pub max_slippage_bps : ℤ
  pub max_orders_per_second : ℤ

abbrev pub default_limits : RiskLimits
default_limits = record {
  max_position_size_cents = pos 100000;
  max_order_size_cents = pos 10000;
  max_daily_loss_cents = pos 1000000;
  max_slippage_bps = pos 10;
  max_orders_per_second = pos 100;
}

pub record RiskManager : Type 0 where
  pub limits : RiskLimits
  pub daily_pnl_cents : ℤ
  pub open_position_cents : ℤ
  pub orders_today : ℤ
  pub last_reset_ns : ℕ

abbrev pub new_manager : RiskManager
new_manager = record {
  limits = default_limits;
  daily_pnl_cents = pos 0;
  open_position_cents = pos 0;
  orders_today = pos 0;
  last_reset_ns = 0;
}

-- the values of a signed integer of `w + 1` bits
abbrev pub in_range : ℕ → ℤ → Bool
in_range w a = ltb (pos_part a) (2 ^ w) && leb (neg_part a) (2 ^ w)

abbrev pub exact : ℤ → Option ℤ
exact a = if in_range 63 a then some a else none

-- a signed integer of `w + 1` bits that an atomic addition leaves: modulo 2^(w + 1), shifted to begin at
-- -2^w
abbrev pub wrapped : ℕ → ℤ → ℤ
wrapped w a =
    sub_ℕ ((pos_part a + 2 ^ w + (2 ^ (w + 1) - neg_part a % 2 ^ (w + 1))) % 2 ^ (w + 1)) (2 ^ w)

abbrev pub magnitude : ℤ → ℕ
magnitude a = pos_part a + neg_part a

-- `std::abs`, which overflows at the least value only
abbrev pub abs64 : ℤ → Option ℤ
abs64 a = exact (pos (magnitude a))

abbrev pub same_sign : ℤ → ℤ → Bool
same_sign (pos _) (pos _) = true
same_sign (negsuc _) (negsuc _) = true
same_sign _ _ = false

-- `a * b / 10000`, rounded towards zero; the product may overflow
abbrev pub notional_of : ℤ → ℤ → Option ℤ
notional_of a b =
    let size = magnitude a * magnitude b in
    if same_sign a b
    then elim (exact (pos size)) [ none ↦ none | some _ ↦ some (pos (size / 10000)) ]
    else elim (exact (sub_ℕ 0 size)) [ none ↦ none | some _ ↦ some (sub_ℕ 0 (size / 10000)) ]

unfoldable pub reset : ℕ → RiskManager → RiskManager
reset now r = record r {
  daily_pnl_cents = pos 0;
  open_position_cents = pos 0;
  orders_today = pos 0;
  last_reset_ns = now;
}

unfoldable pub check_order : RiskManager → ℤ → ℤ → Option Bool
check_order r size_cents price_cents =
    if ltb_ℤ r.limits.max_order_size_cents size_cents
    then some false
    else elim (exact (r.open_position_cents +ℤ size_cents)) [
      | none ↦ none
      | some after ↦ elim (abs64 after) [
        | none ↦ none
        | some open_size ↦
            if ltb_ℤ r.limits.max_position_size_cents open_size
            then some false
            else if ltb_ℤ (pos 0) price_cents
            then elim (exact (
                sub_ℕ (neg_part r.limits.max_daily_loss_cents)
                  (pos_part r.limits.max_daily_loss_cents))) [
                    | none ↦ none
                    | some worst ↦ if ltb_ℤ r.daily_pnl_cents worst then some false else some true
                  ]
            else some false
      ]
    ]

unfoldable pub on_fill : RiskManager → ℤ → ℤ → Option RiskManager
on_fill r size_cents price_cents = elim (notional_of size_cents price_cents) [
  | none ↦ none
  | some notional ↦ some (record r {
    open_position_cents = wrapped 63 (r.open_position_cents +ℤ size_cents);
    daily_pnl_cents = wrapped 63 (r.daily_pnl_cents +ℤ notional);
    orders_today = wrapped 31 (r.orders_today +ℤ pos 1);
  })
]

unfoldable pub set_limits : RiskLimits → RiskManager → RiskManager
set_limits l r = record r { limits = l }

-- ===== src/OrderBook/Messages.antt =====
-- The message handlers of `OrderBook` (src/OrderBook.cpp). A method that throws returns the book as the
-- exception leaves it.
pub mod Invariant
pub mod Snapshot
pub mod Trades
use Prim.Native.String.{String}
use quant_sim_x.Prelude.{Bool, true, false, Option, none, some, List, [], ◌∷◌, if◌then◌else◌}
use quant_sim_x.Double.{Double, gt}
use quant_sim_x.Json.{Json}
use quant_sim_x.OrderBook.{Side, OrderBook, Outcome, snapshot_level, update_level}

module _ {W : Type 0} ⦃d : Double W⦄ (json : Json W) where
  open d use {lt}
  open json use {Value, member?, items, item?, text?, uint64?, stod?}

  infixl 5 ◌>>=◌
  abbrev ◌>>=◌ {ℓ κ} : {A : Type ℓ} {B : Type κ} → Option A → (A → Option B) → Option B
  none >>= f = none
  some a >>= f = f a

  -- `std::stod(v.get<std::string>())`
  unfoldable pub number? : Value → Option W
  number? v = do stod? (← text? v)

  -- `level[0]` and `level[1]`, converted
  unfoldable pub level? : Value → Option (W × W)
  unfolding number?
  level? v = do price ← number? (← item? v 0); qty ← number? (← item? v 1); some (price, qty)

  -- One `for` over the levels of a message. A level that does not convert ends it by an exception;
  -- those before it have been applied.
  unfoldable pub each_level : (Side W → W → W → Side W) → Side W → List Value → Outcome (Side W)
  unfolding level?
  each_level step s [] = record { state = s; thrown = false }
  each_level step s (v ∷ vs) = elim (level? v) [
    | none ↦ record { state = s; thrown = true }
    | some (price, qty) ↦ each_level step (step s price qty) vs
  ]

  -- `if (msg.contains(key)) for (…) …`
  unfoldable pub levels_at : (Side W → W → W → Side W) → Value → String → Side W → Outcome (Side W)
  unfolding each_level
  levels_at step msg key s = elim (member? msg key) [
    | none ↦ record { state = s; thrown = false }
    | some ls ↦ each_level step s (items ls)
  ]

  unfoldable pub both_sides :
      ((W → W → Bool) → Side W → W → W → Side W)
      → Value
      → String
      → String
      → OrderBook W
      → Outcome (OrderBook W)
  unfolding levels_at
  both_sides step msg bid_key ask_key b =
      let bids = levels_at (step gt) msg bid_key b.bids in
      let asks = levels_at (step lt) msg ask_key b.asks in
      if bids.thrown
      then record { state = record b { bids = bids.state }; thrown = true }
      else record {
        state = record b { bids = bids.state; asks = asks.state };
        thrown = asks.thrown;
      }

  -- The counts are reset; the arrays are not.
  unfoldable pub init_from_snapshot : Value → OrderBook W → Outcome (OrderBook W)
  unfolding both_sides snapshot_level
  init_from_snapshot msg b =
      both_sides snapshot_level msg "bids" "asks"
        (record b { bids = record (b.bids) { count = 0 }; asks = record (b.asks) { count = 0 } })

  pub apply_depth_update : Value → OrderBook W → Outcome (OrderBook W)
  unfolding both_sides update_level
  apply_depth_update msg b =
      let out = both_sides update_level msg "b" "a" b in
      if out.thrown then out else elim (member? msg "U") [
        | none ↦ out
        | some u ↦ elim (uint64? u) [
          | none ↦ record out { thrown = true }
          | some id ↦ record out { state = record (out.state) { last_update_id = id } }
        ]
      ]

  -- `if (trade_msg.contains("T")) last_trade_time_ = …`
  pub stored_time : Value → OrderBook W → Outcome (OrderBook W)
  stored_time msg b = elim (member? msg "T") [
    | none ↦ record { state = b; thrown = false }
    | some t ↦ elim (uint64? t) [
      | none ↦ record { state = b; thrown = true }
      | some time ↦ record { state = record b { last_trade_time = time }; thrown = false }
    ]
  ]

  pub stored_trade : Value → Value → Value → OrderBook W → Outcome (OrderBook W)
  unfolding number? stored_time
  stored_trade msg p q b = elim (number? p) [
    | none ↦ record { state = b; thrown = true }
    | some price ↦ elim (number? q) [
      | none ↦ record { state = record b { last_trade_price = price }; thrown = true }
      | some qty ↦ stored_time msg (record b { last_trade_price = price; last_trade_qty = qty })
    ]
  ]

  -- The price is stored before the quantity is converted.
  pub apply_aggtrade : Value → OrderBook W → Outcome (OrderBook W)
  unfolding stored_trade
  apply_aggtrade msg b = elim (member? msg "p") [
    | none ↦ record { state = b; thrown = false }
    | some p ↦ elim (member? msg "q") [
      | none ↦ record { state = b; thrown = false }
      | some q ↦ stored_trade msg p q b
    ]
  ]

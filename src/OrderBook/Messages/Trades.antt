-- ===== src/OrderBook/Messages/Trades.antt =====
-- A trade message leaves both sides of the book alone.
use quant_sim_x.Prelude.{◌≡◌, refl, Option-cases, inl, inr, arith}
use quant_sim_x.Double.{Double}
use quant_sim_x.Json.{Json}
use quant_sim_x.OrderBook.{OrderBook}
use quant_sim_x.OrderBook.Messages.{number?, apply_aggtrade, stored_trade, stored_time}
use quant_sim_x.OrderBook.Messages.Invariant.{IsBook}

module _ {W : Type 0} ⦃d : Double W⦄ (json : Json W) where
  open json use {Value, member?, text?, uint64?, stod?}

  abbrev SameSides : OrderBook W → OrderBook W → Type 0
  SameSides b c = (c.bids ≡ b.bids) × (c.asks ≡ b.asks)

  stored_time-SameSides :
      (msg : Value) (b : OrderBook W) → SameSides b (stored_time json msg b).state
  unfolding stored_time
  stored_time-SameSides msg b = ground arith

  stored_trade-SameSides :
      (msg p q : Value) (b : OrderBook W) → SameSides b (stored_trade json msg p q b).state
  unfolding stored_trade
  stored_trade-SameSides msg p q b = elim (Option-cases (number? json p)) [
    | inl e ↦ rw (e, stored_trade) (refl, refl)
    | inr (price, e) ↦ elim (Option-cases (number? json q)) [
      | inl f ↦ rw (e, stored_trade, f) (refl, refl)
      | inr (qty, f) ↦
          rw (e, stored_trade, f)
            (stored_time-SameSides msg
              (record b { last_trade_price = price; last_trade_qty = qty }))
    ]
  ]

  apply_aggtrade-SameSides :
      (msg : Value) (b : OrderBook W) → SameSides b (apply_aggtrade json msg b).state
  unfolding apply_aggtrade
  apply_aggtrade-SameSides msg b = elim (Option-cases (member? msg "p")) [
    | inl e ↦ rw (e, apply_aggtrade) (refl, refl)
    | inr (p, e) ↦ elim (Option-cases (member? msg "q")) [
      | inl f ↦ rw (e, apply_aggtrade, f) (refl, refl)
      | inr (q, f) ↦ rw (e, apply_aggtrade, f) (stored_trade-SameSides msg p q b)
    ]
  ]

  pub apply_aggtrade-IsBook :
      (msg : Value) (b : OrderBook W) → IsBook b → IsBook (apply_aggtrade json msg b).state
  apply_aggtrade-IsBook msg b v =
      let (bids, asks) = apply_aggtrade-SameSides msg b in
      record { bids_side = rw bids v.bids_side; asks_side = rw asks v.asks_side }

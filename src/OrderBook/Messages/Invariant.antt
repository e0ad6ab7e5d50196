-- ===== src/OrderBook/Messages/Invariant.antt =====
-- The invariant of the whole book, and that the message handlers keep it.
use Prim.Native.String.{String}
use quant_sim_x.Prelude.{
  ◌≡◌, refl, sym, subst, Bool, none, some, List, [], ◌∷◌, All, arith, Option-cases, inl, inr,
}
use quant_sim_x.Double.{Double, IsOrdered, gt}
use quant_sim_x.Json.{Json}
use quant_sim_x.OrderBook.{Side, OrderBook, update_level}
use quant_sim_x.OrderBook.Ladder.{
  IsLadder, IsNumber, IsStrict, lt-IsStrict, gt-IsStrict, update-IsLadder,
}
use quant_sim_x.OrderBook.Insertion.{in_use, IsValid}
use quant_sim_x.OrderBook.Refine.{update_level_refines}
use quant_sim_x.OrderBook.Messages.{level?, each_level, levels_at, both_sides, apply_depth_update}

module _ {W : Type 0} ⦃d : Double W⦄ where
  open d use {lt}

  -- The arrays are whole, and the prices in use are in strict order.
  pub record IsSide (before : W → W → Bool) (s : Side W) : Type 0 where
    pub valid : IsValid s
    pub ladder : IsLadder before (in_use s)

  pub record IsBook (b : OrderBook W) : Type 0 where
    pub bids_side : IsSide gt b.bids
    pub asks_side : IsSide lt b.asks

  update_level-IsSide :
      (before : W → W → Bool) (strict : IsStrict before) (s : Side W) (p q : W)
      → IsNumber p
      → IsSide before s
      → IsSide before (update_level before s p q)
  update_level-IsSide before strict s p q n v =
      let (same, valid) = update_level_refines before s p q v.valid in
      record {
        valid = valid;
        ladder =
            subst (IsLadder before) (sym same)
              (update-IsLadder before strict p q (in_use s) n v.ladder);
      }

module _ {W : Type 0} ⦃d : Double W⦄ (json : Json W) where
  open d use {lt}
  open json use {Value, member?, items, item?, text?, uint64?, stod?}

  -- the prices of the levels, up to one that does not convert
  abbrev pub prices : List Value → List W
  prices [] = []
  prices (v ∷ vs) = elim (level? json v) [ none ↦ [] | some (p, q) ↦ p ∷ prices vs ]

  -- the prices of one side of a message
  abbrev pub prices_at : Value → String → List W
  prices_at msg key = elim (member? msg key) [ none ↦ [] | some ls ↦ prices (items ls) ]

  -- No price of the two sides of the message is NaN.
  abbrev pub AreNumbers : String → String → Value → Type 0
  AreNumbers bid_key ask_key msg =
      All IsNumber (prices_at msg bid_key) × All IsNumber (prices_at msg ask_key)

  each_level-IsSide :
      (before : W → W → Bool) (strict : IsStrict before) (vs : List Value) (s : Side W)
      → All IsNumber (prices vs)
      → IsSide before s
      → IsSide before (each_level json (update_level before) s vs).state
  unfolding each_level
  each_level-IsSide before strict [] s n v = v
  each_level-IsSide before strict (x ∷ vs) s n v = elim (Option-cases (level? json x)) [
    | inl e ↦ rw (e, each_level) v
    | inr ((p, q), e) ↦
        let split : prices (x ∷ vs) ≡ p ∷ prices vs = rw (e, prices) refl in
        let (number, rest) = subst (All IsNumber) split n in
        rw (e, each_level)
          (each_level-IsSide before strict vs (update_level before s p q) rest
            (update_level-IsSide before strict s p q number v))
  ]

  levels_at-IsSide :
      (before : W → W → Bool) (strict : IsStrict before) (msg : Value) (key : String) (s : Side W)
      → All IsNumber (prices_at msg key)
      → IsSide before s
      → IsSide before (levels_at json (update_level before) msg key s).state
  unfolding levels_at
  levels_at-IsSide before strict msg key s n v = elim (Option-cases (member? msg key)) [
    | inl e ↦ rw (e, levels_at) v
    | inr (ls, e) ↦
        let split : prices_at msg key ≡ prices (items ls) = rw (e, prices_at) refl in
        rw (e, levels_at)
          (each_level-IsSide before strict (items ls) s (subst (All IsNumber) split n) v)
  ]

  both_sides-IsBook :
      (laws : IsOrdered W) (msg : Value) (bid_key ask_key : String) (b : OrderBook W)
      → AreNumbers bid_key ask_key msg
      → IsBook b
      → IsBook (both_sides json update_level msg bid_key ask_key b).state
  unfolding both_sides
  both_sides-IsBook laws msg bid_key ask_key b n v = ground (
    arith,
    levels_at-IsSide gt (gt-IsStrict laws) msg bid_key b.bids n.0 v.bids_side,
    levels_at-IsSide lt (lt-IsStrict laws) msg ask_key b.asks n.1 v.asks_side,
  )

  -- A depth message without a NaN among its prices, also one that throws half way, leaves the book
  -- with whole arrays and both sides in strict order.
  pub apply_depth_update-IsBook :
      (laws : IsOrdered W) (msg : Value) (b : OrderBook W)
      → AreNumbers "b" "a" msg
      → IsBook b
      → IsBook (apply_depth_update json msg b).state
  unfolding apply_depth_update
  apply_depth_update-IsBook laws msg b n v =
      ground (arith, both_sides-IsBook laws msg "b" "a" b n v)

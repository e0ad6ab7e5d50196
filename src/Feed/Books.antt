-- ===== src/Feed/Books.antt =====
-- The order book under any messages of the stream.
use Prim.Native.String.{String}
use text.Mathlib.Text.{◌==◌ as str_eq}
use quant_sim_x.Prelude.{◌≡◌, some, All, inl, inr, Bool-cases, Option-cases, Option, List, [], ◌∷◌}
use quant_sim_x.Double.{Double, IsOrdered}
use quant_sim_x.Json.{Json}
use quant_sim_x.OrderBook.{OrderBook}
use quant_sim_x.OrderBook.Messages.Invariant.{IsBook, AreNumbers, apply_depth_update-IsBook}
use quant_sim_x.OrderBook.Messages.Trades.{apply_aggtrade-IsBook}
use quant_sim_x.Feed.{apply_event, dispatch, data_of, on_message, on_messages}

module _ {W : Type 0} ⦃d : Double W⦄ (json : Json W) where
  open json use {Value}

  -- If the text is JSON, no price of the lists `b` and `a` of its data is NaN.
  abbrev pub ReadsNumbers : (String → Option Value) → String → Type 0
  ReadsNumbers parse p = (j : Value) → parse p ≡ some j → AreNumbers json "b" "a" (data_of json j)

module _ {W : Type 0} ⦃d : Double W⦄ (json : Json W) (laws : IsOrdered W) where
  open json use {Value, member?, text?}

  apply_event-IsBook :
      (event : String) (j : Value) (b : OrderBook W)
      → AreNumbers json "b" "a" j
      → IsBook b
      → IsBook (apply_event json event j b)
  apply_event-IsBook event j b n v = elim (Bool-cases (str_eq event "depthUpdate")) [
    | inl e ↦ rw (e, apply_event) (apply_depth_update-IsBook json laws j b n v)
    | inr e ↦ elim (Bool-cases (str_eq event "aggTrade")) [
      | inl f ↦ rw (e, apply_event, f) (apply_aggtrade-IsBook json j b v)
      | inr f ↦ rw (e, apply_event, f) v
    ]
  ]

  dispatch-IsBook :
      (j : Value) (b : OrderBook W)
      → AreNumbers json "b" "a" j
      → IsBook b
      → IsBook (dispatch json j b)
  unfolding dispatch
  dispatch-IsBook j b n v = elim (Option-cases (member? j "e")) [
    | inl e ↦ rw (e, dispatch) v
    | inr (x, e) ↦ elim (Option-cases (text? x)) [
      | inl f ↦ rw (e, dispatch, f) v
      | inr (event, f) ↦ rw (e, dispatch, f) (apply_event-IsBook event j b n v)
    ]
  ]

  on_message-IsBook :
      (parse : String → Option Value) (p : String) (b : OrderBook W)
      → ReadsNumbers json parse p
      → IsBook b
      → IsBook (on_message json parse p b)
  unfolding on_message
  on_message-IsBook parse p b n v = elim (Option-cases (parse p)) [
    | inl e ↦ rw (e, on_message) v
    | inr (j, e) ↦ rw (e, on_message) (dispatch-IsBook (data_of json j) b (n j e) v)
  ]

  -- Whatever texts the stream delivers, in any order, malformed ones included, both sides of the book
  -- stay whole and in strict order, provided that none of these texts gives a price that is NaN.
  pub on_messages-IsBook :
      (parse : String → Option Value) (ps : List String) (b : OrderBook W)
      → All (ReadsNumbers json parse) ps
      → IsBook b
      → IsBook (on_messages json parse ps b)
  unfolding on_messages
  on_messages-IsBook parse [] b n v = v
  on_messages-IsBook parse (p ∷ ps) b n v =
      on_messages-IsBook parse ps (on_message json parse p b) n.1
        (on_message-IsBook parse p b n.0 v)

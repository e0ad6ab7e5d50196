-- ===== src/Feed.antt =====
-- What feeds the order book: `BinanceWebSocketClient` (src/BinanceWebSocketClient.cpp) and the
-- simulator of `NetworkClient` (src/NetworkClient.cpp). websocketpp is the environment: it answers
-- `get_connection` and `connect`, and it calls the handlers.
pub mod Books
pub mod Reconnect
pub mod Simulator
mod Tests
use Prim.Native.String.{String}
use text.Mathlib.Text.{◌==◌ as str_eq}
use quant_sim_x.Prelude.{
  ℕ, zero, suc, Bool, true, false, Option, none, some, List, [], ◌∷◌, if◌then◌else◌,
}
use quant_sim_x.Double.{Double}
use quant_sim_x.Json.{Json}
use quant_sim_x.OrderBook.{OrderBook}
use quant_sim_x.OrderBook.Messages.{apply_depth_update, apply_aggtrade}

-- `joinable` says whether `client_thread_` stands for a thread.
pub record Client : Type 0 where
  pub connected : Bool
  pub running : Bool
  pub joinable : Bool

abbrev pub new_client : Client
new_client = record { connected = false; running = false; joinable = false }

-- How the calls of the library in `connect` end: well, with an error code, or by an exception before
-- the thread is started.
pub data Dial : Type 0 where
  dialled refused threw : Dial

-- `none` is `std::terminate`, which an assignment to a thread that is joinable calls.
unfoldable pub connect : Dial → Client → Option Client
connect dialled c =
    if c.running
    then some c
    else if c.joinable
    then none
    else some (record c { running = true; joinable = true })
connect refused c = if c.running then some c else some (record c { running = false })
connect threw c = if c.running then some c else some (record c { running = false })

unfoldable pub disconnect : Client → Client
disconnect c = if c.running then record c { running = false } else c

unfoldable pub on_open : Client → Client
on_open c = record c { connected = true }

unfoldable pub on_close : Client → Client
on_close c = record c { connected = false }

unfoldable pub on_fail : Client → Client
on_fail c = record c { connected = false }

-- the end of `run_client`, when the library's loop has returned or thrown
unfoldable pub run_over : Client → Client
run_over c = record c { running = false }

-- the destructor
unfoldable pub destroy : Client → Client
destroy c = record c { running = false; joinable = false }

-- what can happen to a client between two calls of `connect`
pub data Incident : Type 0 where
  opened closed failed ended disconnected : Incident

unfoldable pub happen : Incident → Client → Client
unfolding on_open on_close on_fail run_over disconnect
happen opened c = on_open c
happen closed c = on_close c
happen failed c = on_fail c
happen ended c = run_over c
happen disconnected c = disconnect c

unfoldable pub happen_all : List Incident → Client → Client
unfolding happen
happen_all [] c = c
happen_all (i ∷ is) c = happen_all is (happen i c)

module _ {W : Type 0} ⦃d : Double W⦄ (json : Json W) where
  open json use {Value, member?, text?}

  -- `if (j.contains("data")) j = j["data"]`
  abbrev pub data_of : Value → Value
  data_of j = elim (member? j "data") [ none ↦ j | some v ↦ v ]

  -- An event type that is not one of the two is left aside. What a handler throws is caught, and the
  -- book stays as the handler left it.
  abbrev pub apply_event : String → Value → OrderBook W → OrderBook W
  apply_event event j b =
      if str_eq event "depthUpdate"
      then (apply_depth_update json j b).state
      else if str_eq event "aggTrade"
      then (apply_aggtrade json j b).state
      else b

  pub dispatch : Value → OrderBook W → OrderBook W
  dispatch j b = elim (member? j "e") [
    | none ↦ b
    | some e ↦ elim (text? e) [ none ↦ b | some event ↦ apply_event event j b ]
  ]

  -- `parse` is `json::parse`, `none` its exception.
  pub on_message : (String → Option Value) → String → OrderBook W → OrderBook W
  unfolding dispatch
  on_message parse payload b = elim (parse payload) [ none ↦ b | some j ↦ dispatch (data_of j) b ]

  pub on_messages : (String → Option Value) → List String → OrderBook W → OrderBook W
  unfolding on_message
  on_messages parse [] b = b
  on_messages parse (p ∷ ps) b = on_messages parse ps (on_message parse p b)

  abbrev pub depth_text : String
  depth_text =
      "{\"e\":\"depthUpdate\", \"E\":123456, \"b\": [[\"60000.0\", \"0.1\"]], \"a\": [[\"60010.0\", \"0.2\"]]}"

  abbrev pub trade_text : String
  trade_text = "{\"e\":\"aggTrade\", \"E\":123457, \"p\":\"60005.0\", \"q\":\"0.001\"}"

  -- `n` rounds of the loop of `run_simulator`. What `parse` or a handler throws there is not caught:
  -- `none` is the end of the program.
  pub simulate : (String → Option Value) → ℕ → OrderBook W → Option (OrderBook W)
  simulate parse zero b = some b
  simulate parse (suc n) b = elim (parse depth_text) [
    | none ↦ none
    | some depth ↦
        let updated = apply_depth_update json depth b in
        if updated.thrown then none else elim (parse trade_text) [
          | none ↦ none
          | some trade ↦
              let traded = apply_aggtrade json trade updated.state in
              let rest = simulate parse n traded.state in if traded.thrown then none else rest
        ]
  ]

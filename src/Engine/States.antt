-- ===== src/Engine/States.antt =====
-- The state that the engine keeps, over any sequence of calls of its methods.
use quant_sim_x.Prelude.{
  ℕ, zero, suc, ◌≡◌, subst, Bool, true, Option-cases, List-cases, inl, inr, Option, none, some,
  List, [], ◌∷◌, arith,
}
use mathlib.Core.Option.{some-injective}
use quant_sim_x.Double.{Double}
use quant_sim_x.Feed.{Dial}
use quant_sim_x.Indicators.{Sample}
use quant_sim_x.Queues.TickBuffer.{Tick}
use quant_sim_x.Engine.{
  connected, TickStore, Engine, start_data_collection, stop_data_collection, disconnect, reconnect,
  process_trade, process_tick, handle_tick, process_pending_ticks, run_backtest,
}

-- a call of one of the engine's methods
pub data Command (W : Type 0) : Type 0 where
  do_start do_stop do_disconnect do_backtest : Command W
  do_reconnect : Dial → Bool → Command W
  do_trade : W → W → ℕ → Command W
  do_ticks : ℕ → Command W

module _ {W B : Type 0} where
  -- Trades are collected in the state CONNECTED only.
  unfoldable pub IsSound : Engine W B → Type 0
  IsSound e = e.collecting_data ≡ true → e.state ≡ connected

  reconnect-IsSound :
      (dial : Dial) (opened : Bool) (e e' : Engine W B)
      → IsSound e
      → reconnect dial opened e ≡ some e'
      → IsSound e'
  unfolding reconnect IsSound
  reconnect-IsSound dial opened e e' s r h = ground (arith)

module _ {W B : Type 0} ⦃d : Double W⦄ (no_sample : Sample W) (store : TickStore W B) where
  -- `none` is the end of the program, or a loop of `process_pending_ticks` whose fuel ran out.
  unfoldable pub obey : Command W → Engine W B → Option (Engine W B)
  unfolding start_data_collection stop_data_collection disconnect reconnect process_trade
      run_backtest
  obey do_start e = some (start_data_collection e)
  obey do_stop e = some (stop_data_collection e)
  obey do_disconnect e = some (disconnect e)
  obey do_backtest e = some (run_backtest e)
  obey (do_reconnect dial opened) e = reconnect dial opened e
  obey (do_trade price qty time) e = some (process_trade store e price qty time)
  obey (do_ticks fuel) e = process_pending_ticks no_sample store fuel e

  unfoldable pub obey_all : List (Command W) → Engine W B → Option (Engine W B)
  obey_all [] e = some e
  obey_all (c ∷ cs) e = elim (obey c e) [ none ↦ none | some e' ↦ obey_all cs e' ]

  handle_tick-state :
      (e : Engine W B) (t : Tick W)
      → ((handle_tick no_sample e t).state ≡ e.state)
        × ((handle_tick no_sample e t).collecting_data ≡ e.collecting_data)
  unfolding handle_tick process_tick
  handle_tick-state e t = ground arith

  pending-state :
      (fuel : ℕ) (e e' : Engine W B)
      → process_pending_ticks no_sample store fuel e ≡ some e'
      → (e'.state ≡ e.state) × (e'.collecting_data ≡ e.collecting_data)
  unfolding process_pending_ticks
  pending-state zero e e' r = absurd (ground arith)
  pending-state (suc fuel) e e' r =
      let (_, out, buffer) = store.pop_tick e.tick_buffer in
      elim (Option-cases out) [
        | inl o ↦ ground (arith, o)
        | inr (t, o) ↦
            let popped : Engine W B = record e { tick_buffer = buffer } in
            ground (
              arith,
              o,
              pending-state fuel (handle_tick no_sample popped t) e',
              handle_tick-state popped t,
            )
      ]

  obey-IsSound : (c : Command W) (e e' : Engine W B) → IsSound e → obey c e ≡ some e' → IsSound e'
  unfolding obey IsSound start_data_collection stop_data_collection disconnect process_trade
      run_backtest
  obey-IsSound do_start e e' s r h = ground (arith)
  obey-IsSound do_stop e e' s r h = ground (arith)
  obey-IsSound do_disconnect e e' s r h = ground (arith)
  obey-IsSound do_backtest e e' s r h = elim (List-cases e.backtester.bars) [
    | inl b ↦ ground (arith, b)
    | inr (x, xs, b) ↦ ground (arith, b)
  ]
  obey-IsSound (do_reconnect dial opened) e e' s r h = reconnect-IsSound dial opened e e' s r h
  obey-IsSound (do_trade price qty time) e e' s r h = ground (arith)
  obey-IsSound (do_ticks fuel) e e' s r h = ground (arith, pending-state fuel e e')

  -- Whatever methods are called in whatever order, the engine collects trades in the state CONNECTED
  -- only.
  pub obey_all-IsSound :
      (cs : List (Command W)) (e e' : Engine W B) → IsSound e → obey_all cs e ≡ some e' → IsSound e'
  unfolding obey_all
  obey_all-IsSound [] e e' s r = subst IsSound (some-injective _ _ r) s
  obey_all-IsSound (c ∷ cs) e e' s r = elim (Option-cases (obey c e)) [
    | inl o ↦ absurd (ground (arith, o))
    | inr (next, o) ↦ obey_all-IsSound cs next e' (obey-IsSound c e next s o) (ground (arith, o))
  ]

-- ===== src/Engine/Tests.antt =====
-- Each theorem on the engine, on a concrete one that is connected and collects trades.
use quant_sim_x.Prelude.{◌≡◌, refl, true, false, List, [], ◌∷◌, some, replicate}
use quant_sim_x.Double.{nought}
use quant_sim_x.Double.Fixed.{Fixed, fixed_double, fixed}
use quant_sim_x.Queues.TickBuffer.{Tick, Slot, TickBuffer}
use quant_sim_x.Queues.TickBuffer.Refine.{tick_fifo}
use quant_sim_x.Values.{no_sample, book_at, new_vwap, new_generator, new_backtester}
use quant_sim_x.Feed.{new_client, dialled, connect, on_open}
use quant_sim_x.Engine.{
  TickStore, Engine, connected, start_data_collection, stop_data_collection, reconnect,
}
use quant_sim_x.Engine.States.{
  Command, do_start, do_stop, do_reconnect, obey, obey_all, IsSound, obey_all-IsSound,
}
use quant_sim_x.Engine.Ticks.{Trade, store_of}

abbrev no_tick : Tick Fixed
no_tick = record { timestamp_ms = 0; price = nought; qty = nought; bid = nought; ask = nought }

abbrev idle_slot : Slot Fixed
idle_slot = record { ready = false; tick = no_tick }

-- `tick_buffer_` as a `TickBuffer`
abbrev tick_store : TickStore Fixed (TickBuffer Fixed)
tick_store = store_of (tick_fifo no_tick)

abbrev slots : List (Slot Fixed)
slots = replicate 1024 idle_slot

abbrev engine : Engine Fixed (TickBuffer Fixed)
engine = record {
  orderbook = book_at 100;
  vwap_calc = new_vwap;
  signal_gen = new_generator;
  backtester = new_backtester;
  ws_client = some new_client;
  tick_buffer = record { slots = slots; write_pos = 0; read_pos = 0 };
  state = connected;
  should_stop = false;
  collecting_data = true;
  sample_count = 0;
  has_on_trade = true;
  has_on_signal = false;
  calls = [];
}

engine-IsSound : IsSound engine
unfolding IsSound
engine-IsSound h = refl

abbrev commands : List (Command Fixed)
commands = do_stop ∷ do_reconnect dialled true ∷ do_start ∷ []

abbrev after : Engine Fixed (TickBuffer Fixed)
after = record engine {
  ws_client = some (record { connected = true; running = true; joinable = true });
}

after_lem : obey_all no_sample tick_store commands engine ≡ some after
unfolding obey_all obey reconnect stop_data_collection start_data_collection connect on_open
after_lem = refl

obey_all-IsSound_example : IsSound after
obey_all-IsSound_example =
    obey_all-IsSound no_sample tick_store commands engine after engine-IsSound after_lem

abbrev trades : List (Trade Fixed)
trades =
    record { price = fixed 100 0; qty = fixed 2 0; time = 10 }
    ∷ record { price = fixed 101 0; qty = fixed 1 0; time = 11 }
    ∷ []

-- ===== src/Config/Load.antt =====
-- What `Config::load` makes of a JSON file, setting by setting.
use Prim.Native.String.{String}
use quant_sim_x.Prelude.{Bool, true, false, ◌&&◌, Option, none, some, if◌then◌else◌}
use quant_sim_x.Prelude.Int.{pos}
use quant_sim_x.Double.{Double}
use quant_sim_x.Json.{Json}
use quant_sim_x.Config.{Config}

module _ {W : Type 0} (json : Json W) where
  open json use {Value, member?, text?, uint64?, int32?, number?}

  -- The key is absent, or its value converts.
  unfoldable pub converts : {A : Type 0} → (Value → Option A) → Value → String → Bool
  converts get j key = elim (member? j key) [
    | none ↦ true
    | some v ↦ elim (get v) [ none ↦ false | some a ↦ true ]
  ]

  -- the value of the key, or the default where the key is absent
  unfoldable pub value_or : {A : Type 0} → (Value → Option A) → Value → String → A → A
  value_or get j key default = elim (member? j key) [
    | none ↦ default
    | some v ↦ elim (get v) [ none ↦ default | some a ↦ a ]
  ]

  module _ ⦃d : Double W⦄ where
    -- each setting by itself: the value of its key, or its default
    abbrev pub values : Value → Config W
    values j = record {
      vwap_sma_period = value_or uint64? j "vwap_sma_period" 20;
      rsi_period = value_or uint64? j "rsi_period" 14;
      rsi_oversold = value_or number? j "rsi_oversold" (d.of_nat 30);
      rsi_overbought = value_or number? j "rsi_overbought" (d.of_nat 70);
      data_collection_timeout_seconds =
          value_or int32? j "data_collection_timeout_seconds" (pos 180);
      websocket_reconnect_max_attempts =
          value_or int32? j "websocket_reconnect_max_attempts" (pos 5);
      websocket_reconnect_delay_ms = value_or int32? j "websocket_reconnect_delay_ms" (pos 1000);
      dashboard_width = value_or int32? j "dashboard_width" (pos 1600);
      dashboard_height = value_or int32? j "dashboard_height" (pos 900);
      symbol = value_or text? j "symbol" "btcusdt";
      csv_output_file = value_or text? j "csv_output_file" "market_data.csv";
    }

    -- the values of `v` up to the first setting that does not convert, the defaults from there on
    abbrev pub up_to :
        Bool
        → Bool
        → Bool
        → Bool
        → Bool
        → Bool
        → Bool
        → Bool
        → Bool
        → Bool
        → Bool
        → Config W
        → Config W
    up_to b1 b2 b3 b4 b5 b6 b7 b8 b9 b10 b11 v = record {
      vwap_sma_period = if b1 then v.vwap_sma_period else 20;
      rsi_period = if b1 && b2 then v.rsi_period else 14;
      rsi_oversold = if b1 && b2 && b3 then v.rsi_oversold else d.of_nat 30;
      rsi_overbought = if b1 && b2 && b3 && b4 then v.rsi_overbought else d.of_nat 70;
      data_collection_timeout_seconds =
          if b1 && b2 && b3 && b4 && b5 then v.data_collection_timeout_seconds else pos 180;
      websocket_reconnect_max_attempts =
          if b1 && b2 && b3 && b4 && b5 && b6 then v.websocket_reconnect_max_attempts else pos 5;
      websocket_reconnect_delay_ms =
          if b1 && b2 && b3 && b4 && b5 && b6 && b7
          then v.websocket_reconnect_delay_ms
          else pos 1000;
      dashboard_width =
          if b1 && b2 && b3 && b4 && b5 && b6 && b7 && b8 then v.dashboard_width else pos 1600;
      dashboard_height =
          if b1 && b2 && b3 && b4 && b5 && b6 && b7 && b8 && b9
          then v.dashboard_height
          else pos 900;
      symbol =
          if b1 && b2 && b3 && b4 && b5 && b6 && b7 && b8 && b9 && b10 then v.symbol else "btcusdt";
      csv_output_file =
          if b1 && b2 && b3 && b4 && b5 && b6 && b7 && b8 && b9 && b10 && b11
          then v.csv_output_file
          else "market_data.csv";
    }

-- ===== src/Config.antt =====
-- `Config` (include/Config.h). The eleven `if`s of `load` are the list `settings`, in their order.
pub mod Load
mod Tests
use Prim.Native.String.{String}
use quant_sim_x.Prelude.{ℕ, Bool, true, false, Option, none, some, List, [], ◌∷◌, if◌then◌else◌}
use quant_sim_x.Prelude.Int.{ℤ, pos}
use quant_sim_x.Double.{Double}
use quant_sim_x.Json.{Json}

pub record Config {ℓ} (W : Type ℓ) : Type ℓ where
  pub vwap_sma_period : ℕ
  pub rsi_period : ℕ
  pub rsi_oversold : W
  pub rsi_overbought : W
  pub data_collection_timeout_seconds : ℤ
  pub websocket_reconnect_max_attempts : ℤ
  pub websocket_reconnect_delay_ms : ℤ
  pub dashboard_width : ℤ
  pub dashboard_height : ℤ
  pub symbol : String
  pub csv_output_file : String

module _ {W : Type 0} ⦃d : Double W⦄ where
  abbrev pub defaults : Config W
  defaults = record {
    vwap_sma_period = 20;
    rsi_period = 14;
    rsi_oversold = d.of_nat 30;
    rsi_overbought = d.of_nat 70;
    data_collection_timeout_seconds = pos 180;
    websocket_reconnect_max_attempts = pos 5;
    websocket_reconnect_delay_ms = pos 1000;
    dashboard_width = pos 1600;
    dashboard_height = pos 900;
    symbol = "btcusdt";
    csv_output_file = "market_data.csv";
  }

-- `if (j.contains(key)) cfg.field = j[key];`
pub record Setting (W : Type 0) (V : Type 0) : Type 0 where
  pub key : String
  -- `none` is the exception of the conversion.
  pub assign : V → Config W → Option (Config W)

-- the configuration so far, and whether an exception has been thrown
pub record Reading (W : Type 0) : Type 0 where
  pub config : Config W
  pub thrown : Bool

abbrev pub assign_to : {A C V : Type 0} → (V → Option A) → (A → C → C) → V → C → Option C
assign_to get put v c = elim (get v) [ none ↦ none | some a ↦ some (put a c) ]

module _ {W : Type 0} (json : Json W) where
  open json use {Value, member?, text?, uint64?, int32?, number?}

  abbrev pub settings : List (Setting W Value)
  settings =
      record {
        key = "vwap_sma_period";
        assign = assign_to uint64? (λ a c. record c { vwap_sma_period = a });
      }
      ∷ record {
        key = "rsi_period";
        assign = assign_to uint64? (λ a c. record c { rsi_period = a });
      }
      ∷ record {
        key = "rsi_oversold";
        assign = assign_to number? (λ a c. record c { rsi_oversold = a });
      }
      ∷ record {
        key = "rsi_overbought";
        assign = assign_to number? (λ a c. record c { rsi_overbought = a });
      }
      ∷ record {
        key = "data_collection_timeout_seconds";
        assign = assign_to int32? (λ a c. record c { data_collection_timeout_seconds = a });
      }
      ∷ record {
        key = "websocket_reconnect_max_attempts";
        assign = assign_to int32? (λ a c. record c { websocket_reconnect_max_attempts = a });
      }
      ∷ record {
        key = "websocket_reconnect_delay_ms";
        assign = assign_to int32? (λ a c. record c { websocket_reconnect_delay_ms = a });
      }
      ∷ record {
        key = "dashboard_width";
        assign = assign_to int32? (λ a c. record c { dashboard_width = a });
      }
      ∷ record {
        key = "dashboard_height";
        assign = assign_to int32? (λ a c. record c { dashboard_height = a });
      }
      ∷ record { key = "symbol"; assign = assign_to text? (λ a c. record c { symbol = a }) }
      ∷ record {
        key = "csv_output_file";
        assign = assign_to text? (λ a c. record c { csv_output_file = a });
      }
      ∷ []

  unfoldable pub read_setting : Setting W Value → Value → Config W → Reading W
  read_setting s j c = elim (member? j s.key) [
    | none ↦ record { config = c; thrown = false }
    | some v ↦ elim (s.assign v c) [
      | none ↦ record { config = c; thrown = true }
      | some c' ↦ record { config = c'; thrown = false }
    ]
  ]

  -- An exception leaves what has been assigned before it.
  unfoldable pub read_settings : List (Setting W Value) → Value → Config W → Reading W
  unfolding read_setting
  read_settings [] j c = record { config = c; thrown = false }
  read_settings (s ∷ ss) j c =
      let first = read_setting s j c in
      let rest = read_settings ss j first.config in if first.thrown then first else rest

  -- The outer option says whether the file opens, and the inner one whether it is JSON.
  unfoldable pub load : ⦃d : Double W⦄ → Option (Option Value) → Config W
  unfolding read_settings
  load none = defaults
  load (some none) = defaults
  load (some (some j)) = (read_settings settings j defaults).config

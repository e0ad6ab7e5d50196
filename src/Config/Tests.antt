-- ===== src/Config/Tests.antt =====
-- The theorem on the configuration, on a file whose second setting is a text.
use quant_sim_x.Double.Fixed.{fixed_double}
use quant_sim_x.Json.Document.{Document, object, quoted, number, end, member}

abbrev file : Document
file = object (
    member "vwap_sma_period" (number 7)
      (member "rsi_period" (quoted "many") (member "symbol" (quoted "ethusdt") end)))

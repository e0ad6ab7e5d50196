-- ===== src/Rest/Tests.antt =====
-- A response in two pieces.
use quant_sim_x.Prelude.{◌≡◌, refl, true, some, [], ◌∷◌, ◌++◌, arith}
use quant_sim_x.Prelude.Int.{pos}
use quant_sim_x.Prelude.Text.{Text, codes}
use quant_sim_x.Rest.{Connection, over, no_memory, crlf, request_of, fetch_depth_snapshot}
use quant_sim_x.Rest.Snapshot.{IsUp, fetch_lem}

abbrev connection : Connection
connection = record {
  host_known = true;
  sock = pos 3;
  connected = pos 0;
  sent = pos 100;
  received = (codes "OK" ++ crlf ++ codes "A: b" ++ crlf) ∷ (crlf ++ codes "{7}+") ∷ [];
  ending = over;
}

connection-IsUp : IsUp connection
connection-IsUp = record {
  reached = record { known = refl; opens = refl; connects = refl; sends = refl };
  ends = refl;
}

fetch_lem_example :
    let f = fetch_depth_snapshot (λ t. some t) (codes "BTC") (codes "20") connection in
    (f.result ≡ some (codes "{7}"))
    × (f.request ≡ some (request_of (codes "BTC") (codes "20")))
    × (f.closed ≡ f.opened)
    × (f.returned ≡ true)
fetch_lem_example =
    fetch_lem (λ t. some t) (codes "BTC") (codes "20") connection (codes "OK") (codes "A: b" ∷ [])
      (codes "{7") (codes "+") connection-IsUp (ground arith) refl
      (record { plain = ground arith; not_empty = ground arith })
      (record { plain = ground arith; not_empty = ground arith }, tt) (ground arith)

-- The memory for the second piece is not there.
abbrev exhausted : Connection
exhausted = record connection { ending = no_memory }

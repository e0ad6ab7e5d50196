-- ===== src/Session/Start/Tests.antt =====
-- The theorems on the beginning of `main`, on a response in two pieces with a snapshot of three levels.
use Prim.Native.String.{String}
use quant_sim_x.Prelude.{◌≡◌, true, false, [], ◌∷◌, ◌++◌, Option, none, some, if◌then◌else◌}
use quant_sim_x.Prelude.Int.{pos}
use quant_sim_x.Prelude.Text.{Text, codes}
use quant_sim_x.Double.Fixed.{Fixed, fixed_double}
use quant_sim_x.Values.{book_at}
use quant_sim_x.Json.Document.{
  Document, object, array, quoted, nil, cons, end, member, document_json,
}
use quant_sim_x.OrderBook.{OrderBook}
use quant_sim_x.OrderBook.Messages.{init_from_snapshot}
use quant_sim_x.Rest.{Connection, over, crlf, starts_with}
use quant_sim_x.Session.Start.{Answers, first_book, first_book_lem}

abbrev pair : String → String → Document
pair p q = array (cons (quoted p) (cons (quoted q) nil))

-- A response with a body, which the parser knows by its first letter.
abbrev answered : Connection
answered = record {
  host_known = true;
  sock = pos 3;
  connected = pos 0;
  sent = pos 90;
  received = (codes "HTTP" ++ crlf) ∷ (crlf ++ codes "{7}") ∷ [];
  ending = over;
}

-- two bids and one ask
abbrev snapshot : Document
snapshot = object (
    member "bids" (array (cons (pair "100" "2") (cons (pair "99" "1") nil)))
      (member "asks" (array (cons (pair "101" "3") nil)) end))

abbrev parse : Text → Option Document
parse t = if starts_with (codes "{") t then some snapshot else none

abbrev filled : OrderBook Fixed
filled = (init_from_snapshot document_json snapshot (book_at 100)).state

first_book_lem_example :
    ((j : Document)
      → Answers document_json (λ j. false) parse answered j
      → let filled = init_from_snapshot document_json j (book_at 100) in
        first_book document_json (λ j. false) parse answered (book_at 100)
        ≡ (if filled.thrown then none else some filled.state))
    × ((b : OrderBook Fixed)
        → ((j : Document) → ¬ Answers document_json (λ j. false) parse answered j)
        → first_book document_json (λ j. false) parse answered (book_at 100) ≡ some b
        → b ≡ book_at 100)
first_book_lem_example = first_book_lem document_json (λ j. false) parse answered (book_at 100)

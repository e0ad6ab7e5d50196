-- ===== src/Feed/Tests.antt =====
-- Each theorem on the feed, on a concrete client and on a book without levels.
use Prim.Native.String.{String}
use text.Mathlib.Text.{◌==◌ as str_eq}
use quant_sim_x.Prelude.{refl, All, List, [], ◌∷◌, Option, none, some, arith, if◌then◌else◌}
use quant_sim_x.Double.Fixed.{Fixed, fixed_double, Fixed-IsOrdered}
use quant_sim_x.Json.Document.{
  Document, object, array, quoted, nil, cons, end, member, document_json,
}
use quant_sim_x.OrderBook.Messages.Invariant.{IsBook}
use quant_sim_x.OrderBook.Ladder.{IsNumber}
use quant_sim_x.Values.{book_at}
use quant_sim_x.Feed.{on_messages}
use quant_sim_x.Feed.Books.{ReadsNumbers, on_messages-IsBook}

levelless-IsBook : IsBook (book_at 100)
levelless-IsBook = record {
  bids_side = record { valid = record { array = refl; counted = omega arith }; ladder = tt };
  asks_side = record { valid = record { array = refl; counted = omega arith }; ladder = tt };
}

-- one bid, inside a stream message
abbrev stream_document : Document
stream_document = object (
    member "data"
      (object (
        member "e" (quoted "depthUpdate") (
          member "b" (array (cons (array (cons (quoted "100") (cons (quoted "2") nil))) nil)) end)))
      end)

abbrev parse : String → Option Document
parse payload = if str_eq payload "bid" then some stream_document else none

all_numbers : (ps : List Fixed) → All IsNumber ps
all_numbers [] = tt
all_numbers (p ∷ ps) = (ground arith, all_numbers ps)

reads : (p : String) → ReadsNumbers document_json parse p
reads p j e = (all_numbers _, all_numbers _)

on_messages-IsBook_example :
    IsBook (on_messages document_json parse ("bid" ∷ "{" ∷ "bid" ∷ []) (book_at 100))
on_messages-IsBook_example =
    on_messages-IsBook document_json Fixed-IsOrdered parse ("bid" ∷ "{" ∷ "bid" ∷ []) (book_at 100)
      (reads "bid", (reads "{", (reads "bid", tt))) levelless-IsBook

-- ===== src/Session/Start.antt =====
-- How `main` begins: the snapshot that it asks the exchange for, and the order book that it builds from it.
mod Tests
use quant_sim_x.Prelude.{
  sym, ◌≡◌, refl, ◌∙◌, Bool, true, false, not, Option, none, some, arith, if◌then◌else◌,
  Option-cases, Bool-cases, inl, inr, ◌⊎◌,
}
use quant_sim_x.Prelude.Text.{Text, codes}
use quant_sim_x.Double.{Double}
use quant_sim_x.Json.{Json}
use quant_sim_x.OrderBook.{OrderBook}
use quant_sim_x.OrderBook.Messages.{init_from_snapshot}
use quant_sim_x.Rest.{Connection, fetch_depth_snapshot, parse_response, receive}
use quant_sim_x.Rest.Snapshot.{IsUp, fetched_lem, fetch_safe}

module _ {W : Type 0} ⦃d : Double W⦄ (json : Json W) (is_empty : json.Value → Bool) where
  open json use {Value}

  -- `is_empty` is `empty()`. `none` says that `main` does not go on: an exception of the snapshot ends
  -- it with the value 1, or the request never returns.
  unfoldable pub first_book :
      (Text → Option Value) → Connection → OrderBook W → Option (OrderBook W)
  first_book parse c ob =
      let fetched = fetch_depth_snapshot parse (codes "BTCUSDT") (codes "20") c in
      if not fetched.returned then none else elim fetched.result [
        | none ↦ some ob
        | some snapshot ↦
            let filled = init_from_snapshot json snapshot ob in
            if is_empty snapshot then some ob else if filled.thrown then none else some filled.state
      ]

  -- the snapshot of a response, which is not empty
  abbrev pub Answers : (Text → Option Value) → Connection → Value → Type 0
  Answers parse c snapshot =
      IsUp c
      × (parse_response parse (receive c.received) ≡ some snapshot)
      × (is_empty snapshot ≡ false)

  -- If every call of the system succeeds and the parser makes a snapshot of the response that is not empty,
  -- `main` goes on with what this snapshot makes of the book, or does not go on if that throws. If there is
  -- no such snapshot and `main` goes on, it does so with the book that it began with.
  pub first_book_lem :
      (parse : Text → Option Value) (c : Connection) (ob : OrderBook W)
      → ((j : Value)
          → Answers parse c j
          → let filled = init_from_snapshot json j ob in
            first_book parse c ob ≡ (if filled.thrown then none else some filled.state))
        × ((b : OrderBook W)
            → ((j : Value) → ¬ Answers parse c j)
            → first_book parse c ob ≡ some b
            → b ≡ ob)
  unfolding first_book
  first_book_lem parse c ob =
      let f = fetch_depth_snapshot parse (codes "BTCUSDT") (codes "20") c in
      let safe = fetch_safe parse (codes "BTCUSDT") (codes "20") c in
      (
        λ j (up, read, full).
            let (back, result) = fetched_lem parse (codes "BTCUSDT") (codes "20") c up in
            rw (back, result ∙ read, full, first_book) refl,
        λ b lacks e. elim (Bool-cases f.returned) [
          | inr g ↦ absurd (ground (arith, e, g))
          | inl g ↦ elim (Option-cases f.result) [
            | inl h ↦ ground (arith, e, g, h)
            | inr (j, h) ↦ elim (Bool-cases (is_empty j)) [
              | inl k ↦ ground (arith, e, g, h, k)
              | inr k ↦ let (up, read) = safe.3 j h in absurd (lacks j (up, read, k))
            ]
          ]
        ],
      )

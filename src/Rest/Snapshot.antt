-- ===== src/Rest/Snapshot.antt =====
-- `fetch_depth_snapshot` as a whole: the snapshot of a good response, and every failure.
use quant_sim_x.Prelude.{
  ◌≡◌, ◌≢◌, refl, subst, ap, ap₂, ◌∙◌, Bool, true, false, Option, none, some, List, [], ◌∷◌, ◌++◌,
  All, arith, inl, inr, Bool-cases,
}
use quant_sim_x.Prelude.Text.{Text}
use quant_sim_x.Rest.{
  Connection, over, no_memory, waiting, Ending, Fetched, ended, fails, up_to_nul, receive,
  request_of, parse_response, fetch_depth_snapshot,
}
use quant_sim_x.Rest.Body.{IsHeader, response_of, parse_response_lem}

abbrev pub LacksNul : Text → Type 0
LacksNul = All (λ c. c ≢ 0)

abbrev pub join : List Text → Text
join [] = []
join (c ∷ cs) = c ++ join cs

up_to_nul-whole : (s : Text) → LacksNul s → up_to_nul s ≡ s
up_to_nul-whole [] h = refl
up_to_nul-whole (c ∷ s) (h, hs) = ground (arith, h, up_to_nul-whole s hs)

receive-join : (cs : List Text) → All LacksNul cs → receive cs ≡ join cs
unfolding receive
receive-join [] h = refl
receive-join (c ∷ cs) (h, hs) = ap₂ (λ x y. x ++ y) (up_to_nul-whole c h) (receive-join cs hs)

-- Every call of the system before the loop over `recv` succeeds.
pub record IsReached (c : Connection) : Type 0 where
  pub known : c.host_known ≡ true
  pub opens : fails c.sock ≡ false
  pub connects : fails c.connected ≡ false
  pub sends : fails c.sent ≡ false

-- Every call of the system succeeds, and the loop over `recv` ends with a call that gives no bytes.
pub record IsUp (c : Connection) : Type 0 where
  pub reached : IsReached c
  pub ends : c.ending ≡ over

module _ {Value : Type 0} (parse : Text → Option Value) where
  -- Where every call of the system succeeds and the calls of `recv` give, piece by piece and without a
  -- zero byte, headers, an empty line and a JSON object with more text behind it that has no closing
  -- brace: the snapshot is what the parser makes of the object, the socket is closed, and the function
  -- returns.
  pub fetch_lem :
      (symbol limit : Text) (c : Connection) (l : Text) (ls : List Text) (json after : Text)
      → IsUp c
      → All LacksNul c.received
      → join c.received ≡ response_of l ls (json ++ 125 ∷ after)
      → IsHeader l
      → All IsHeader ls
      → All (λ x. x ≢ 125) after
      → let f = fetch_depth_snapshot parse symbol limit c in
        (f.result ≡ parse (json ++ 125 ∷ []))
        × (f.request ≡ some (request_of symbol limit))
        × (f.closed ≡ f.opened)
        × (f.returned ≡ true)
  unfolding fetch_depth_snapshot
  fetch_lem symbol limit c l ls json after up whole e h hs g =
      let body =
        ap (parse_response parse) (receive-join c.received whole ∙ e)
        ∙ parse_response_lem parse l ls json after h hs g in
      let u = up.reached in
      rw (u.known, u.opens, u.connects, u.sends, up.ends, fetch_depth_snapshot)
        (body, refl, refl, refl)

  -- Where every call of the system succeeds, the function returns what the parser makes of the response.
  pub fetched_lem :
      (symbol limit : Text) (c : Connection)
      → IsUp c
      → let f = fetch_depth_snapshot parse symbol limit c in
        (f.returned ≡ true) × (f.result ≡ parse_response parse (receive c.received))
  unfolding fetch_depth_snapshot
  fetched_lem symbol limit c up =
      let u = up.reached in
      rw (u.known, u.opens, u.connects, u.sends, up.ends, fetch_depth_snapshot) (refl, refl)

  abbrev Handled : Connection → Fetched Value → Type 0
  Handled c f =
      (c.ending ≡ over → (f.returned ≡ true) × (f.closed ≡ f.opened))
      × (IsReached c
          → c.ending ≡ no_memory
          → (f.returned ≡ true)
            × (f.opened ≡ true)
            × (f.closed ≡ false)
            × ((v : Value) → f.result ≢ some v))
      × (f.returned ≡ true → f.closed ≢ f.opened → IsReached c × (c.ending ≡ no_memory))
      × ((v : Value)
          → f.result ≡ some v
          → IsUp c × (parse_response parse (receive c.received) ≡ some v))

  -- where a call before the loop fails
  early_lem :
      (c : Connection) (request : Option Text) (b : Bool)
      → ¬ IsReached c
      → Handled c (ended none request b b true)
  early_lem c request b early = (
    λ e. (refl, refl),
    λ r e. absurd (early r),
    λ e n. absurd (n refl),
    λ v r. absurd (ground (arith, r)),
  )

  abbrev looped : Connection → Text → Ending → Fetched Value
  looped c request e = elim e [
    | over ↦ ended (parse_response parse (receive c.received)) (some request) true true true
    | no_memory ↦ ended none (some request) true false true
    | waiting ↦ ended none (some request) true false false
  ]

  loop_lem :
      (c : Connection) (request : Text) (e : Ending)
      → c.ending ≡ e
      → IsReached c
      → Handled c (looped c request e)
  loop_lem c request over e r = (
    λ _. (refl, refl),
    λ _ n. absurd (ground (arith, e, n)),
    λ _ n. absurd (n refl),
    λ v p. (record { reached = r; ends = e }, p),
  )
  loop_lem c request no_memory e r = (
    λ n. absurd (ground (arith, e, n)),
    λ _ _. (refl, refl, refl, λ v n. absurd (ground (arith, n))),
    λ _ _. (r, e),
    λ v n. absurd (ground (arith, n)),
  )
  loop_lem c request waiting e r = (
    λ n. absurd (ground (arith, e, n)),
    λ _ n. absurd (ground (arith, e, n)),
    λ n _. absurd (ground (arith, n)),
    λ v n. absurd (ground (arith, n)),
  )

  pub fetch_safe :
      (symbol limit : Text) (c : Connection)
      → let f = fetch_depth_snapshot parse symbol limit c in
        (c.ending ≡ over → (f.returned ≡ true) × (f.closed ≡ f.opened))
        × (IsReached c
            → c.ending ≡ no_memory
            → (f.returned ≡ true)
              × (f.opened ≡ true)
              × (f.closed ≡ false)
              × ((v : Value) → f.result ≢ some v))
        × (f.returned ≡ true → f.closed ≢ f.opened → IsReached c × (c.ending ≡ no_memory))
        × ((v : Value)
            → f.result ≡ some v
            → IsUp c × (parse_response parse (receive c.received) ≡ some v))
  unfolding fetch_depth_snapshot
  fetch_safe symbol limit c =
      let request = request_of symbol limit in
      let from = λ (f : Fetched Value) (e : f ≡ fetch_depth_snapshot parse symbol limit c).
        subst (Handled c) e in
      elim (Bool-cases c.host_known) [
        | inr e ↦
            from (ended none none false false true) (rw (e, fetch_depth_snapshot) refl)
              (early_lem c none false (λ r. ground (arith, e, r.known)))
        | inl e ↦ elim (Bool-cases (fails c.sock)) [
          | inl f ↦
              from (ended none none false false true) (rw (e, f, fetch_depth_snapshot) refl)
                (early_lem c none false (λ r. ground (arith, f, r.opens)))
          | inr f ↦ elim (Bool-cases (fails c.connected)) [
            | inl g ↦
                from (ended none none true true true) (rw (e, f, g, fetch_depth_snapshot) refl)
                  (early_lem c none true (λ r. ground (arith, g, r.connects)))
            | inr g ↦ elim (Bool-cases (fails c.sent)) [
              | inl h ↦
                  from (ended none (some request) true true true)
                    (rw (e, f, g, h, fetch_depth_snapshot) refl)
                    (early_lem c (some request) true (λ r. ground (arith, h, r.sends)))
              | inr h ↦
                  from (looped c request c.ending) (rw (e, f, g, h, fetch_depth_snapshot) refl) (
                    loop_lem c request c.ending refl
                      (record { known = e; opens = f; connects = g; sends = h }))
            ]
          ]
        ]
      ]

-- ===== src/Feed/Reconnect.antt =====
-- Connecting, disconnecting and connecting again.
use mathlib.Core.Option.{some-injective}
use quant_sim_x.Prelude.{
  ◌≡◌, sym, ap, ◌∙◌, Bool-cases, ◌⊎◌, inl, inr, true, false, none, some, List, [], ◌∷◌, arith,
}
use quant_sim_x.Feed.{
  Client, new_client, dialled, connect, disconnect, on_open, on_close, on_fail, run_over, Incident,
  happen, happen_all,
}

happen-joinable : (i : Incident) (c : Client) → (happen i c).joinable ≡ c.joinable
unfolding happen on_open on_close on_fail run_over disconnect
happen-joinable i c = ground arith

happen_all-joinable :
    (is : List Incident) (c : Client) → c.joinable ≡ true → (happen_all is c).joinable ≡ true
unfolding happen_all
happen_all-joinable [] c h = h
happen_all-joinable (i ∷ is) c h = happen_all-joinable is (happen i c) (happen-joinable i c ∙ h)

-- A client that has connected once can never connect again: whatever happens in between, a second
-- `connect` that the library answers either does nothing, because the first is still running, or ends
-- the program, since the thread of the first one was neither joined nor detached.
pub connect_again :
    (is : List Incident) (c : Client)
    → connect dialled new_client ≡ some c
    → let later = happen_all is c in
      ((later.running ≡ true) × (connect dialled later ≡ some later))
      ⊎ ((later.running ≡ false) × (connect dialled later ≡ none))
unfolding connect
connect_again is c e =
    let later = happen_all is c in
    let joined : later.joinable ≡ true =
      happen_all-joinable is c (ap (λ d. d.joinable) (sym (some-injective _ _ e))) in
    elim (Bool-cases later.running) [
      | inl r ↦ inl (r, ground (arith, r))
      | inr r ↦ inr (r, ground (arith, r, joined))
    ]

-- `disconnect` keeps `is_connected` as it was: only the library's handlers change it.
pub disconnect-connected :
    (c : Client) → ((disconnect c).connected ≡ c.connected) × ((disconnect c).running ≡ false)
unfolding disconnect
disconnect-connected c = ground arith

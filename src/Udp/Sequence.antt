-- ===== src/Udp/Sequence.antt =====
-- `ZeroCopyUDP::recv` over any series of calls: which packets it accepts, and its counters.
use quant_sim_x.Prelude.{
  ℕ, zero, suc, ◌+◌, ◌%◌, ◌^◌, ◌<◌, ◌≡◌, refl, sym, subst, ◌≢◌, ◌⊎◌, Bool, true, false, List, [],
  ◌∷◌, length, ltb, leb, arith, Bool-cases, inl, inr, add64,
}
use quant_sim_x.Prelude.Int.{ℤ, pos, negsuc}
use quant_sim_x.Udp.{ZeroCopyUdp, MarketData, Reception, recv, market_data}

-- With the packet of a call that returns 1.
abbrev gather : ℤ → MarketData → List MarketData × ZeroCopyUdp → List MarketData × ZeroCopyUdp
gather (pos (suc _)) out (ms, u) = (out ∷ ms, u)
gather _ out p = p

-- the packets of the calls that return 1, and the receiver in the end
abbrev pub recv_all : ZeroCopyUdp → MarketData → List Reception → List MarketData × ZeroCopyUdp
recv_all u out [] = ([], u)
recv_all u out (r ∷ rs) =
    let (code, (out', u')) = recv u out r in gather code out' (recv_all u' out' rs)

-- the calls that find a datagram, an empty one excepted
abbrev pub arrived : List Reception → ℕ
arrived [] = 0
arrived (r ∷ rs) = let rest = arrived rs in elim r.n [ pos (suc _) ↦ suc rest | _ ↦ rest ]

-- Each sequence number is above the one before it, the first above `last`.
abbrev pub AreRising : ℕ → List MarketData → Type 0
AreRising last [] = Unit
AreRising last (m ∷ ms) = (last < m.seq) × AreRising m.seq ms

abbrev pub last_of : ℕ → List MarketData → ℕ
last_of last [] = last
last_of last (m ∷ ms) = last_of m.seq ms

pub record IsReceived (u : ZeroCopyUdp) (rs : List Reception) (p : List MarketData × ZeroCopyUdp)
    : Type 0 where
  pub rising : AreRising u.last_seq p.0
  pub last : p.1.last_seq ≡ last_of u.last_seq p.0
  pub counted : p.1.rx ≡ (u.rx + length p.0) % 2 ^ 64
  pub all_counted : (p.1.drops + length p.0) % 2 ^ 64 ≡ (u.drops + arrived rs) % 2 ^ 64

-- A call that returns `code` and leaves `out'` and `u'`.
abbrev Gathered : ZeroCopyUdp → Reception → List Reception → ℤ × (MarketData × ZeroCopyUdp) → Type 0
Gathered u r rs x = IsReceived u (r ∷ rs) (gather x.0 x.1.0 (recv_all x.1.1 x.1.0 rs))

abbrev dropped : ZeroCopyUdp → ZeroCopyUdp
dropped u = record u { drops = add64 u.drops 1 }

abbrev taken : ZeroCopyUdp → MarketData → ZeroCopyUdp
taken u m = record u { last_seq = m.seq; rx = add64 u.rx 1 }

idle_call :
    (u : ZeroCopyUdp) (out : MarketData) (n : ℤ) (again : Bool) (buf : List ℕ) (rs : List Reception)
    → ((k : ℕ) → n ≢ pos (suc k))
    → IsReceived u rs (recv_all u out rs)
    → let r : Reception = record { n = n; would_block = again; buf = buf } in
      Gathered u r rs (recv u out r)
unfolding recv
idle_call u out (negsuc k) true buf rs h v = ground (arith, v)
idle_call u out (negsuc k) false buf rs h v = ground (arith, v)
idle_call u out (pos zero) true buf rs h v = ground (arith, v)
idle_call u out (pos zero) false buf rs h v = ground (arith, v)
idle_call u out (pos (suc k)) again buf rs h v = absurd (h k refl)

refused_call :
    (u : ZeroCopyUdp) (out : MarketData) (r : Reception) (rs : List Reception) (k : ℕ)
    → r.n ≡ pos (suc k)
    → u.drops < 2 ^ 64
    → IsReceived (dropped u) rs (recv_all (dropped u) out rs)
    → Gathered u r rs (negsuc 0, (out, dropped u))
refused_call u out r rs k e h v = record {
  rising = v.rising;
  last = v.last;
  counted = v.counted;
  all_counted = rw (e) (omega (arith, v.all_counted));
}

taken_call :
    (u : ZeroCopyUdp) (m : MarketData) (r : Reception) (rs : List Reception) (k : ℕ)
    → r.n ≡ pos (suc k)
    → u.rx < 2 ^ 64
    → u.last_seq < m.seq
    → IsReceived (taken u m) rs (recv_all (taken u m) m rs)
    → Gathered u r rs (pos 1, (m, taken u m))
taken_call u m r rs k e h above v = record {
  rising = (above, v.rising);
  last = v.last;
  counted = omega (arith, v.counted);
  all_counted = rw (e) (omega (arith, v.all_counted));
}

above_lem : (a b : ℕ) → leb a b ≡ false → b < a
above_lem a b e = ground arith

recv_outcome :
    (u : ZeroCopyUdp) (out : MarketData) (k : ℕ) (again : Bool) (buf : List ℕ)
    → let m = market_data buf in
      let r : Reception = record { n = pos (suc k); would_block = again; buf = buf } in
      (recv u out r ≡ (negsuc 0, (out, dropped u)))
      ⊎ (recv u out r ≡ (negsuc 0, (m, dropped u)))
      ⊎ ((recv u out r ≡ (pos 1, (m, taken u m))) × (u.last_seq < m.seq))
unfolding recv
recv_outcome u out k again buf =
    let some_bytes : leb (suc k) 0 ≡ false = ground arith in
    elim (Bool-cases (ltb (suc k) 48)) [
      | inl e ↦ inl (rw (some_bytes, e) refl)
      | inr e ↦ elim (Bool-cases (leb (market_data buf).seq u.last_seq)) [
        | inl f ↦ inr (inl (rw (some_bytes, e, f) refl))
        | inr f ↦ inr (inr (rw (some_bytes, e, f) refl, above_lem _ _ f))
      ]
    ]

-- One more call, given what the later ones do.
recv_one :
    (u : ZeroCopyUdp) (out : MarketData) (n : ℤ) (again : Bool) (buf : List ℕ) (rs : List Reception)
    → u.rx < 2 ^ 64
    → u.drops < 2 ^ 64
    → ((u' : ZeroCopyUdp) (out' : MarketData)
        → u'.rx < 2 ^ 64
        → u'.drops < 2 ^ 64
        → IsReceived u' rs (recv_all u' out' rs))
    → let r : Reception = record { n = n; would_block = again; buf = buf } in
      Gathered u r rs (recv u out r)
recv_one u out (negsuc k) again buf rs h g later =
    idle_call u out (negsuc k) again buf rs (λ j e. ground (arith, e)) (later u out h g)
recv_one u out (pos zero) again buf rs h g later =
    idle_call u out (pos zero) again buf rs (λ j e. ground (arith, e)) (later u out h g)
recv_one u out (pos (suc k)) again buf rs h g later =
    let r : Reception = record { n = pos (suc k); would_block = again; buf = buf } in
    let m = market_data buf in
    let drop_it =
      λ (o : MarketData). refused_call u o r rs k refl g (later (dropped u) o h (omega arith)) in
    elim (recv_outcome u out k again buf) [
      | inl e ↦ subst (Gathered u r rs) (sym e) (drop_it out)
      | inr (inl e) ↦ subst (Gathered u r rs) (sym e) (drop_it m)
      | inr (inr (e, above)) ↦
          subst (Gathered u r rs) (sym e)
            (taken_call u m r rs k refl h above (later (taken u m) m (omega arith) g))
    ]

-- Over any calls of `recv`: the packets that are accepted have rising sequence numbers, all above the
-- last one of the receiver, which becomes that of the last packet; `rx` counts the packets, and
-- `drops` the other datagrams that were not empty, both modulo 2^64.
pub recv_all_lem :
    (u : ZeroCopyUdp) (out : MarketData) (rs : List Reception)
    → u.rx < 2 ^ 64
    → u.drops < 2 ^ 64
    → IsReceived u rs (recv_all u out rs)
recv_all_lem u out [] h g = record {
  rising = tt;
  last = refl;
  counted = omega (arith, h);
  all_counted = refl;
}
recv_all_lem u out (r ∷ rs) h g =
    recv_one u out r.n r.would_block r.buf rs h g (λ u' out' h' g'. recv_all_lem u' out' rs h' g')

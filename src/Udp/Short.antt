-- ===== src/Udp/Short.antt =====
-- The sizes that the two receivers accept.
use Prim.Native.Nat.{min}
use quant_sim_x.Prelude.{
  ℕ, zero, suc, ◌-◌, ◌≤◌, ◌<◌, ◌≡◌, refl, ap, ◌∙◌, Bool, true, false, List, [], ◌∷◌, ◌++◌, length,
  take, drop, ltb, leb, add64, arith, Bool-cases, inl, inr,
}
use quant_sim_x.Prelude.Int.{pos, negsuc}
use quant_sim_x.Udp.{ZeroCopyUdp, MarketData, recv, market_data, word_at, word, recv_raw}

drop-past {ℓ} :
    {A : Type ℓ} (k : ℕ) (xs ys : List A)
    → length xs ≤ k
    → drop k (xs ++ ys) ≡ drop (k - length xs) ys
drop-past k [] ys h = ap (λ n. drop n ys) (omega arith)
drop-past zero (x ∷ xs) ys h = absurd (omega arith)
drop-past (suc k) (x ∷ xs) ys h =
    drop-past k xs ys (omega arith) ∙ ap (λ n. drop n ys) (omega arith)

-- The sequence number stands behind the first 56 bytes.
seq_behind :
    (d rest : List ℕ)
    → length d ≤ 56
    → (market_data (d ++ rest)).seq ≡ word (drop (56 - length d) rest) 8
unfolding market_data word_at
seq_behind d rest h = ap (λ b. word b 8) (drop-past 56 d rest h)

leb-true : (a b : ℕ) → leb a b ≡ true → a ≤ b
leb-true a b e = ground (arith, e)

leb-false : (a b : ℕ) → leb a b ≡ false → b < a
leb-false a b e = ground (arith, e)

few_bytes : (n : ℕ) → 48 ≤ n → (leb n 0 ≡ false) × (ltb n 48 ≡ false)
few_bytes n h = ground arith

-- A datagram of 48 to 56 bytes has no sequence number: the one that `recv` compares is made of what
-- is left in the buffer behind it, from byte 56 on. If that number is not above the last one, the
-- datagram is counted as dropped and the result is -1; else the result is 1, the datagram is counted as
-- received, and that number is the last one from then on. No byte of the datagram has a part in it.
pub recv_short :
    (u : ZeroCopyUdp) (out : MarketData) (again : Bool) (d rest : List ℕ)
    → 48 ≤ length d
    → length d ≤ 56
    → let seq = word (drop (56 - length d) rest) 8 in
      let (code, (m, v)) =
        recv u out (record { n = pos (length d); would_block = again; buf = d ++ rest }) in
      (m ≡ market_data (d ++ rest))
      × (seq ≤ u.last_seq → (code ≡ negsuc 0) × (v ≡ record u { drops = add64 u.drops 1 }))
      × (u.last_seq < seq → (code ≡ pos 1) × (v ≡ record u { last_seq = seq; rx = add64 u.rx 1 }))
unfolding recv
recv_short u out again d rest h g =
    let same = seq_behind d rest g in
    let (some_bytes, enough) = few_bytes (length d) h in
    elim (Bool-cases (leb (market_data (d ++ rest)).seq u.last_seq)) [
      | inl f ↦
          let le : (market_data (d ++ rest)).seq ≤ u.last_seq = leb-true _ _ f in
          rw (some_bytes, enough, f)
            (refl, λ l. (refl, refl), λ l. absurd (omega (arith, same, le, l)))
      | inr f ↦
          let lt : u.last_seq < (market_data (d ++ rest)).seq = leb-false _ _ f in
          rw (some_bytes, enough, f)
            (
              refl,
              λ l. absurd (omega (arith, same, lt, l)),
              λ l. (refl, ap (λ s. record u { last_seq = s; rx = add64 u.rx 1 }) same),
            )
    ]

-- A copy of the first bytes of a buffer over the first bytes of a memory.
copy_lem :
    (size : ℕ) (buffer dest : List ℕ)
    → size ≤ length buffer
    → size ≤ length dest
    → let copied = take size buffer ++ drop size dest in
      (length copied ≡ length dest)
      × (take size copied ≡ take size buffer)
      × (drop size copied ≡ drop size dest)
copy_lem zero buffer dest h g = (refl, refl, refl)
copy_lem (suc n) [] dest h g = absurd (omega (arith, h))
copy_lem (suc n) (b ∷ buffer) [] h g = absurd (omega (arith, g))
copy_lem (suc n) (b ∷ buffer) (x ∷ dest) h g =
    let (long, same, behind) = copy_lem n buffer dest (omega (arith, h)) (omega (arith, g)) in
    (ap suc long, ap (◌∷◌ b) same, behind)

-- Where `recvmsg` gives `n` bytes, `recv_raw` copies the first `n` of them, but `max_len` at most, to
-- the memory of the caller, returns how many it copied, and leaves the memory behind them as it is.
pub recv_raw_lem :
    (n : ℕ) (buffer dest : List ℕ) (max_len : ℕ)
    → n ≤ length buffer
    → max_len ≤ length dest
    → let size = min n max_len in
      let (returned, copied) = recv_raw (pos n) buffer dest max_len in
      (returned ≡ pos size)
      × (length copied ≡ length dest)
      × (take size copied ≡ take size buffer)
      × (drop size copied ≡ drop size dest)
unfolding recv_raw
recv_raw_lem zero buffer dest max_len h g =
    let size : min 0 max_len ≡ 0 = omega arith in rw size (refl, refl, refl, refl)
recv_raw_lem (suc n) buffer dest max_len h g =
    let some_bytes : leb (suc n) 0 ≡ false = ground arith in
    elim (Bool-cases (ltb max_len (suc n))) [
      | inl e ↦
          let less : max_len ≤ suc n = ground (arith, e) in
          let size : min (suc n) max_len ≡ max_len = omega arith in
          let copied = copy_lem max_len buffer dest (omega (arith, less, h)) g in
          rw (some_bytes, e, size) (refl, copied.0, copied.1, copied.2)
      | inr e ↦
          let more : suc n ≤ max_len = ground (arith, e) in
          let size : min (suc n) max_len ≡ suc n = omega arith in
          let copied = copy_lem (suc n) buffer dest h (omega (arith, more, g)) in
          rw (some_bytes, e, size) (refl, copied.0, copied.1, copied.2)
    ]

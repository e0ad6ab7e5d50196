-- ===== src/Trades/Window.antt =====
-- `get_trades_since` and `prune` over a vector of trades.
use quant_sim_x.Prelude.{
  ℕ, zero, suc, ◌+◌, ◌-◌, ◌^◌, ◌≤◌, ◌<◌, ◌≡◌, refl, ap, List, [], ◌∷◌, ◌++◌, All, arith, length,
  drop, take, leb, ltb, sub64, if◌then◌else◌,
}
use quant_sim_x.Trades.{Trade, since, newest, get_trades_since, prune}

module _ {W : Type 0} where
  -- the trades that are at most `ago` milliseconds older than the time `now`
  abbrev pub recent : ℕ → ℕ → List (Trade W) → List (Trade W)
  recent now ago [] = []
  recent now ago (t ∷ ts) =
      let rest = recent now ago ts in if leb now (t.timestamp_ms + ago) then t ∷ rest else rest

  since-recent :
      (now ago : ℕ) (ts : List (Trade W))
      → ago ≤ now
      → now < 2 ^ 64
      → since (sub64 now ago) ts ≡ recent now ago ts
  since-recent now ago [] l b = refl
  since-recent now ago (t ∷ ts) l b = ground (arith, since-recent now ago ts l b)

  -- If the window is no longer than the time of the newest trade, the result is the trades that are
  -- at most that much older than the newest one.
  pub get_trades_since-recent :
      (t : Trade W) (ts : List (Trade W)) (ago : ℕ)
      → let now = (newest t ts).timestamp_ms in
        ago ≤ now → now < 2 ^ 64 → get_trades_since (t ∷ ts) ago ≡ recent now ago (t ∷ ts)
  unfolding get_trades_since
  get_trades_since-recent t ts ago l b = since-recent (newest t ts).timestamp_ms ago (t ∷ ts) l b

  since-late :
      (cutoff : ℕ) (ts : List (Trade W))
      → All (λ t. t.timestamp_ms < cutoff) ts
      → since cutoff ts ≡ []
  since-late cutoff [] h = refl
  since-late cutoff (t ∷ ts) h = ground (arith, since-late cutoff ts h.1)

  All-earlier :
      (now cutoff : ℕ) (ts : List (Trade W))
      → now < cutoff
      → All (λ t. t.timestamp_ms ≤ now) ts
      → All (λ t. t.timestamp_ms < cutoff) ts
  All-earlier now cutoff [] l h = tt
  All-earlier now cutoff (t ∷ ts) l (a, h) = (omega arith, All-earlier now cutoff ts l h)

  -- A window longer than the time of the newest trade wraps round: although every trade is in it, no
  -- trade is returned, provided that none is newer than the last one.
  pub get_trades_since-wrapped :
      (t : Trade W) (ts : List (Trade W)) (ago : ℕ)
      → let now = (newest t ts).timestamp_ms in
        now < ago
        → ago < 2 ^ 64
        → All (λ u. u.timestamp_ms ≤ now) (t ∷ ts)
        → get_trades_since (t ∷ ts) ago ≡ []
  unfolding get_trades_since
  get_trades_since-wrapped t ts ago l b h =
      let now = (newest t ts).timestamp_ms in
      since-late (sub64 now ago) (t ∷ ts) (All-earlier now (sub64 now ago) (t ∷ ts) (omega arith) h)

  length-drop : (n : ℕ) (ts : List (Trade W)) → length (drop n ts) ≡ length ts - n
  length-drop zero ts = omega arith
  length-drop (suc n) [] = omega arith
  length-drop (suc n) (t ∷ ts) = omega (arith, length-drop n ts)

  take-drop : (n : ℕ) (ts : List (Trade W)) → take n ts ++ drop n ts ≡ ts
  take-drop zero ts = refl
  take-drop (suc n) [] = refl
  take-drop (suc n) (t ∷ ts) = ap (λ l. t ∷ l) (take-drop n ts)

  take-none : (n : ℕ) (ts : List (Trade W)) → n ≡ 0 → take n ts ≡ []
  take-none zero ts e = refl
  take-none (suc n) ts e = absurd (omega arith)

  -- `prune` takes trades off the front alone, and leaves at most `max_trades`, all of them if there
  -- are no more than that.
  pub prune_lem :
      (n : ℕ) (ts : List (Trade W))
      → (take (length ts - n) ts ++ prune n ts ≡ ts)
        × (length (prune n ts) ≡ (if ltb n (length ts) then n else length ts))
  unfolding prune
  prune_lem n ts = ground (
    arith,
    take-drop (length ts - n) ts,
    length-drop (length ts - n) ts,
    take-none (length ts - n) ts,
  )

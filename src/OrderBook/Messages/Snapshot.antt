-- ===== src/OrderBook/Messages/Snapshot.antt =====
-- A snapshot whose prices are all different makes a book in strict order.
use Prim.Native.String.{String}
use quant_sim_x.Prelude.{
  ◌≡◌, refl, sym, subst, ◌<◌, Bool, false, ◌&&◌, none, List, [], ◌∷◌, arith, Option-cases,
  Bool-cases, inl, inr, All, ltb, length,
}
use quant_sim_x.Double.{Double, IsOrdered, gt, nought}
use quant_sim_x.Json.{Json}
use quant_sim_x.OrderBook.{Level, Side, OrderBook, max_levels, snapshot_level}
use quant_sim_x.OrderBook.Ladder.{
  IsLadder, IsNumber, IsStrict, lt-IsStrict, gt-IsStrict, lookup, insert_sorted,
  insert_sorted-IsLadder,
}
use quant_sim_x.OrderBook.Insertion.{in_use, insert_level_lem}
use quant_sim_x.OrderBook.Messages.{level?, each_level, levels_at, both_sides, init_from_snapshot}
use quant_sim_x.OrderBook.Messages.Invariant.{IsSide, IsBook, AreNumbers, prices, prices_at}

module _ {W : Type 0} ⦃d : Double W⦄ where
  open d use {eq}

  -- No two prices are equal.
  abbrev pub AreApart : List W → Type 0
  AreApart [] = Unit
  AreApart (p ∷ ps) = All (λ q. eq p q ≡ false) ps × AreApart ps

  abbrev AreNew : List (Level W) → List W → Type 0
  AreNew ls ps = All (λ p. lookup p ls ≡ none) ps

  cleared-IsSide :
      (before : W → W → Bool) (s : Side W)
      → length s.levels ≡ 256
      → IsSide before (record s { count = 0 })
  cleared-IsSide before s h = record {
    valid = record { array = h; counted = omega arith };
    ladder = tt;
  }

  module _ (before : W → W → Bool) where
    lookup-insert_sorted :
        (l : Level W) (xs : List (Level W)) (p : W)
        → eq l.price p ≡ false
        → lookup p xs ≡ none
        → lookup p (insert_sorted before l xs) ≡ none
    unfolding insert_sorted lookup
    lookup-insert_sorted l [] p e h = ground (arith, e)
    lookup-insert_sorted l (x ∷ xs) p e h = ground (arith, e, h, lookup-insert_sorted l xs p e)

    still_new :
        (l : Level W) (xs : List (Level W)) (ps : List W)
        → All (λ q. eq l.price q ≡ false) ps
        → AreNew xs ps
        → AreNew (insert_sorted before l xs) ps
    still_new l xs [] e h = tt
    still_new l xs (p ∷ ps) (e, es) (h, hs) =
        (lookup-insert_sorted l xs p e h, still_new l xs ps es hs)

    snapshot_level_lem :
        IsStrict before
        → (s : Side W) (p q : W) (ps : List W) → IsNumber p
        → lookup p (in_use s) ≡ none
        → All (λ r. eq p r ≡ false) ps
        → AreNew (in_use s) ps
        → IsSide before s
        → IsSide before (snapshot_level before s p q)
          × AreNew (in_use (snapshot_level before s p q)) ps
    unfolding snapshot_level
    snapshot_level_lem strict s p q ps n h e hs v =
        elim (Bool-cases (gt q nought && ltb s.count max_levels)) [
          | inr f ↦ rw (f, snapshot_level) (v, hs)
          | inl f ↦
              let room : s.count < 256 = ground (arith, f) in
              let l : Level W = record { price = p; quantity = q } in
              let (same, valid) = insert_level_lem before s p q v.valid room in
              rw (f, snapshot_level)
                (
                  record {
                    valid = valid;
                    ladder =
                        subst (IsLadder before) (sym same)
                          (insert_sorted-IsLadder before strict l (in_use s) n h v.ladder);
                  },
                  subst (λ xs. AreNew xs ps) (sym same) (still_new l (in_use s) ps e hs),
                )
        ]

module _ {W : Type 0} ⦃d : Double W⦄ (json : Json W) where
  open d use {lt}
  open json use {Value, member?, items}

  each_level-IsSide :
      (before : W → W → Bool) (strict : IsStrict before) (vs : List Value) (s : Side W)
      → All IsNumber (prices json vs)
      → AreApart (prices json vs)
      → AreNew (in_use s) (prices json vs)
      → IsSide before s
      → IsSide before (each_level json (snapshot_level before) s vs).state
  unfolding each_level
  each_level-IsSide before strict [] s n a h v = v
  each_level-IsSide before strict (x ∷ vs) s n a h v = elim (Option-cases (level? json x)) [
    | inl e ↦ rw (e, each_level) v
    | inr ((p, q), e) ↦
        let split : prices json (x ∷ vs) ≡ p ∷ prices json vs = rw (e, prices) refl in
        let (number, numbers) = subst (All IsNumber) split n in
        let (apart, rest) = subst AreApart split a in
        let (new, later) = subst (AreNew (in_use s)) split h in
        let (side, still) =
          snapshot_level_lem before strict s p q (prices json vs) number new apart later v in
        rw (e, each_level)
          (each_level-IsSide before strict vs (snapshot_level before s p q) numbers rest still side)
  ]

  all_new : (ps : List W) → AreNew [] ps
  unfolding lookup
  all_new [] = tt
  all_new (p ∷ ps) = (refl, all_new ps)

  levels_at-IsSide :
      (before : W → W → Bool) (strict : IsStrict before) (msg : Value) (key : String) (s : Side W)
      → length s.levels ≡ 256
      → All IsNumber (prices_at json msg key)
      → AreApart (prices_at json msg key)
      → IsSide before
          (levels_at json (snapshot_level before) msg key (record s { count = 0 })).state
  unfolding levels_at
  levels_at-IsSide before strict msg key s h n a =
      let start = cleared-IsSide before s h in
      elim (Option-cases (member? msg key)) [
        | inl e ↦ rw (e, levels_at) start
        | inr (ls, e) ↦
            let split : prices_at json msg key ≡ prices json (items ls) = rw (e, prices_at) refl in
            rw (e, levels_at)
              (each_level-IsSide before strict (items ls) (record s { count = 0 })
                (subst (All IsNumber) split n) (subst AreApart split a)
                (all_new (prices json (items ls))) start)
      ]

  -- A snapshot whose bids have different prices, and whose asks have, leaves a book with whole arrays
  -- and both sides in strict order, whatever levels the book had, also where it throws half way,
  -- provided that no price of the snapshot is NaN.
  pub init_from_snapshot-IsBook :
      (laws : IsOrdered W) (msg : Value) (b : OrderBook W)
      → length b.bids.levels ≡ 256
      → length b.asks.levels ≡ 256
      → AreNumbers json "bids" "asks" msg
      → AreApart (prices_at json msg "bids")
      → AreApart (prices_at json msg "asks")
      → IsBook (init_from_snapshot json msg b).state
  unfolding init_from_snapshot both_sides
  init_from_snapshot-IsBook laws msg b h g n bids asks = ground (
    arith,
    levels_at-IsSide gt (gt-IsStrict laws) msg "bids" b.bids h n.0 bids,
    levels_at-IsSide lt (lt-IsStrict laws) msg "asks" b.asks g n.1 asks,
    cleared-IsSide lt b.asks g,
  )

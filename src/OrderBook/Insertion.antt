-- ===== src/OrderBook/Insertion.antt =====
-- The levels of a side that are in use, and the insertion of one among them.
use native.Mathlib.Nat.{zero-add}
use quant_sim_x.Prelude.{
  ℕ, suc, ◌+◌, ◌≤◌, ◌<◌, ◌≡◌, refl, sym, ap, ◌∙◌, Bool, List, [], ◌∷◌, ◌++◌, arith, length, take,
  drop, take-append, take-append-drop, length-take, length-append, if◌then◌else◌, drop-eq-cons,
  lt→ltb,
}
use quant_sim_x.Double.{Double}
use quant_sim_x.OrderBook.{Level, Side, no_level, place, insert_level}
use quant_sim_x.OrderBook.Arrays.{insert_at, set-shift}
use quant_sim_x.OrderBook.Ladder.{insert_sorted}

module _ {W : Type 0} where
  -- The first `count` levels of the array.
  abbrev pub in_use : Side W → List (Level W)
  in_use s = take s.count s.levels

  -- The array has its 256 levels, and the count is within it.
  pub record IsValid (s : Side W) : Type 0 where
    pub array : length s.levels ≡ 256
    pub counted : s.count ≤ 256

  -- The array `s.levels` starts with `xs`, and those are counted.
  abbrev pub Uses : Side W → List (Level W) → List (Level W) → Type 0
  Uses s xs rest = (s.levels ≡ xs ++ rest) × (s.count ≡ length xs)

  pub in_use-Uses : (s : Side W) → IsValid s → Uses s (in_use s) (drop s.count s.levels)
  in_use-Uses s v = (
    sym (take-append-drop s.count s.levels),
    omega (arith, length-take {0} s.count s.levels, v.array, v.counted),
  )

  pub Uses-in_use : (s : Side W) (xs rest : List (Level W)) → Uses s xs rest → in_use s ≡ xs
  Uses-in_use s xs rest (e, c) = rw (e, c) (take-append xs rest)

  pub Uses-IsValid :
      (s : Side W) (xs rest : List (Level W))
      → length xs + length rest ≡ 256
      → Uses s xs rest
      → (in_use s ≡ xs) × IsValid s
  Uses-IsValid s xs rest h u =
      (Uses-in_use s xs rest u, omega (arith, ap length u.0, length-append {0} xs rest, u.1))

module _ {W : Type 0} ⦃d : Double W⦄ where
  module _ (before : W → W → Bool) where
    -- where `insert_sorted` puts a level
    spot : W → List (Level W) → ℕ
    spot p [] = 0
    spot p (x ∷ xs) = if before x.price p then suc (spot p xs) else 0

    spot-le : (p : W) (xs : List (Level W)) → spot p xs ≤ length xs
    unfolding spot
    spot-le p [] = omega arith
    spot-le p (x ∷ xs) = ground (arith, spot-le p xs)

    insert_sorted_lem :
        (l : Level W) (xs : List (Level W))
        → insert_sorted before l xs ≡ insert_at (spot l.price xs) l xs
    unfolding spot insert_sorted
    insert_sorted_lem l [] = refl
    insert_sorted_lem l (x ∷ xs) = ground (arith, insert_sorted_lem l xs)

    place_lem :
        (p : W) (ls : List (Level W)) (i : ℕ) (ys rest : List (Level W))
        → drop i ls ≡ ys ++ rest
        → place before ls p (length ys) i ≡ i + spot p ys
    unfolding place spot
    place_lem p ls i [] rest e = omega arith
    place_lem p ls i (y ∷ ys) rest e =
        let (here, later) = drop-eq-cons i ls y (ys ++ rest) no_level e in
        ground (arith, here, place_lem p ls (suc i) ys rest later)

    length-insert_sorted :
        (l : Level W) (xs : List (Level W)) → length (insert_sorted before l xs) ≡ length xs + 1
    unfolding insert_sorted
    length-insert_sorted l [] = refl
    length-insert_sorted l (x ∷ xs) = ground (arith, length-insert_sorted l xs)

    insert_level-Uses :
        (s : Side W) (p q : W) (xs rest : List (Level W)) (r : Level W)
        → length xs < 256
        → Uses s xs (r ∷ rest)
        → Uses
            (insert_level before s p q)
            (insert_sorted before (record { price = p; quantity = q }) xs)
            rest
    unfolding insert_level
    insert_level-Uses s p q xs rest r room (e, c) =
        let l : Level W = record { price = p; quantity = q } in
        let at : place before (xs ++ r ∷ rest) p (length xs) 0 ≡ spot p xs =
          place_lem p (xs ++ r ∷ rest) 0 xs (r ∷ rest) refl ∙ zero-add (spot p xs) in
        let below : spot p xs < 256 = omega (arith, spot-le p xs) in
        rw (e, c, at, lt→ltb (spot p xs) 256 below, lt→ltb (length xs) 256 room)
          (
            set-shift xs r l rest (spot p xs) (spot-le p xs)
                ∙ ap (λ t. t ++ rest) (sym (insert_sorted_lem l xs)),
            sym (length-insert_sorted l xs),
          )

    -- With room for one more level, the loops of `insert_bid` and `insert_ask` are `insert_sorted`.
    pub insert_level_lem :
        (s : Side W) (p q : W)
        → IsValid s
        → s.count < 256
        → (in_use (insert_level before s p q)
            ≡ insert_sorted before (record { price = p; quantity = q }) (in_use s))
          × IsValid (insert_level before s p q)
    insert_level_lem s p q v room = go (drop s.count s.levels) (in_use-Uses s v)
      where
        l : Level W
        l = record { price = p; quantity = q }

        go :
            (rest : List (Level W))
            → Uses s (in_use s) rest
            → (in_use (insert_level before s p q) ≡ insert_sorted before l (in_use s))
              × IsValid (insert_level before s p q)
        go [] u =
            absurd
              (omega (arith, v.array, ap length u.0, length-append {0} (in_use s) [], u.1, room))
        go (r ∷ rest) u =
            Uses-IsValid (insert_level before s p q) (insert_sorted before l (in_use s)) rest
              (omega (
                arith,
                v.array,
                ap length u.0,
                length-append {0} (in_use s) (r ∷ rest),
                length-insert_sorted l (in_use s),
              ))
              (insert_level-Uses s p q (in_use s) rest r (omega (arith, u.1, room)) u)

-- ===== src/OrderBook/Refine.antt =====
-- The arrays of a side against the ladder of the levels in use.

use native.Mathlib.Nat.{zero-add}
use quant_sim_x.Prelude.{
  ℕ, zero, suc, ◌+◌, ◌-◌, ◌<◌, ◌≡◌, refl, ap, ◌∙◌, inl, inr, Bool, Option, none, some, List, [],
  ◌∷◌, ◌++◌, arith, length, get_or, set, drop, Option-cases, length-append, if◌then◌else◌,
  set-append_left, get_or-append_left, drop-eq-cons, Bool-cases, length-set, ap₂,
}
use quant_sim_x.Double.{Double}
use quant_sim_x.OrderBook.{
  Level, Side, close, no_level, erase_level, find_price, set_quantity, update_level,
}
use quant_sim_x.OrderBook.Arrays.{remove_at, close_lem}
use quant_sim_x.OrderBook.Ladder.{lookup, remove_price, set_price, update}
use quant_sim_x.OrderBook.Insertion.{in_use, IsValid, in_use-Uses, Uses-IsValid, insert_level_lem}

suc_index :
    (o : Option ℕ) (i : ℕ)
    → elim o [ none ↦ none | some n ↦ some (suc n) ] ≡ some i
    → (j : ℕ) × (o ≡ some j) × (i ≡ suc j)
suc_index none i h = cc
suc_index (some j) i h = (j, refl, ground arith)

module _ {W : Type 0} ⦃d : Double W⦄ where
  open d use {eq}

  -- the place of a price among the levels
  index : W → List (Level W) → Option ℕ
  index p [] = none
  index p (x ∷ xs) =
      if eq x.price p then some 0 else elim (index p xs) [ none ↦ none | some n ↦ some (suc n) ]

  find_price_lem :
      (p : W) (ls : List (Level W)) (i : ℕ) (ys rest : List (Level W))
      → drop i ls ≡ ys ++ rest
      → find_price ls p (length ys) i ≡ elim (index p ys) [ none ↦ none | some n ↦ some (i + n) ]
  unfolding find_price index
  find_price_lem p ls i [] rest e = refl
  find_price_lem p ls i (y ∷ ys) rest e =
      let (here, later) = drop-eq-cons i ls y (ys ++ rest) no_level e in
      ground (arith, here, find_price_lem p ls (suc i) ys rest later)

  -- What the index of a price says of the ladder.
  record Found (p : W) (xs : List (Level W)) (i : ℕ) : Type 0 where
    inside : i < length xs
    present : lookup p xs ≡ some (get_or xs i no_level).quantity
    removed : remove_at i xs ≡ remove_price p xs
    stored : (q : W) → set xs i (record (get_or xs i no_level) { quantity = q }) ≡ set_price p q xs

  index-Found : (p : W) (xs : List (Level W)) (i : ℕ) → index p xs ≡ some i → Found p xs i
  unfolding index lookup remove_price set_price
  index-Found p [] i h = cc
  index-Found p (x ∷ xs) i h = elim (Bool-cases (eq x.price p)) [
    | inl e ↦
        let at : i ≡ 0 = ground arith in
        rw at (record {
          inside = omega arith;
          present = rw (e, if◌then◌else◌);
          removed = rw (e, if◌then◌else◌);
          stored = λ q. rw (e, if◌then◌else◌);
        })
    | inr e ↦
        let (j, found, at) = suc_index (index p xs) i (rw (e, if◌then◌else◌) at h) in
        let rest = index-Found p xs j found in
        rw at (record {
          inside = omega (arith, rest.inside);
          present = rw (e, if◌then◌else◌) rest.present;
          removed = rw (e, if◌then◌else◌) (ap (◌∷◌ x) rest.removed);
          stored = λ q. rw (e, if◌then◌else◌) (ap (◌∷◌ x) (rest.stored q));
        })
  ]

  index-none :
      (p : W) (xs : List (Level W))
      → index p xs ≡ none
      → (lookup p xs ≡ none) × (remove_price p xs ≡ xs)
  unfolding index lookup remove_price
  index-none p [] h = (refl, refl)
  index-none p (x ∷ xs) h = ground (arith, index-none p xs)

  length-remove_at :
      (xs : List (Level W)) (i : ℕ) → i < length xs → length (remove_at i xs) + 1 ≡ length xs
  length-remove_at [] i h = absurd (omega arith)
  length-remove_at (x ∷ xs) zero h = omega arith
  length-remove_at (x ∷ xs) (suc i) h = omega (arith, length-remove_at xs i (omega arith))

  erase_level_lem :
      (s : Side W) (i : ℕ)
      → IsValid s
      → i < s.count
      → (in_use (erase_level s i) ≡ remove_at i (in_use s)) × IsValid (erase_level s i)
  unfolding erase_level
  erase_level_lem s i v h =
      let xs = in_use s in
      let rest = drop s.count s.levels in
      let (e, c) = in_use-Uses s v in
      let (z, closed) = close_lem xs rest i (omega arith) in
      Uses-IsValid (erase_level s i) (remove_at i xs) (z ∷ rest)
        (omega (
          arith,
          length-remove_at xs i (omega arith),
          ap length e,
          length-append {0} xs rest,
          v.array,
        ))
        (
          ap₂ (λ ls n. close ls i (n - 1 - i)) e c ∙ closed,
          omega (arith, length-remove_at xs i (omega arith)),
        )

  set_quantity_lem :
      (s : Side W) (i : ℕ) (q : W)
      → IsValid s
      → i < s.count
      → (in_use (set_quantity s i q)
          ≡ set (in_use s) i (record (get_or (in_use s) i no_level) { quantity = q }))
        × IsValid (set_quantity s i q)
  set_quantity_lem s i q v h =
      let xs = in_use s in
      let rest = drop s.count s.levels in
      let (e, c) = in_use-Uses s v in
      let x = λ (ls : List (Level W)).
        let l : Level W = record (get_or ls i no_level) { quantity = q } in l in
      Uses-IsValid (set_quantity s i q) (set xs i (x xs)) rest
        (omega (arith, length-set xs i (x xs), ap length e, length-append {0} xs rest, v.array))
        (
          ap (λ ls. set ls i (x ls)) e
              ∙ ap (λ l. set (xs ++ rest) i (record l { quantity = q }))
                  (get_or-append_left xs rest i no_level (omega arith))
              ∙ set-append_left xs rest i (x xs) (omega arith),
          omega (arith, length-set xs i (x xs)),
        )

  -- One level of a depth update does to the arrays what `update` does to the ladder: quantity 0
  -- takes the price off, a known price gets the quantity, a new one is put in its place if there
  -- are fewer than 256.
  pub update_level_refines :
      (before : W → W → Bool) (s : Side W) (p q : W)
      → IsValid s
      → (in_use (update_level before s p q) ≡ update before p q (in_use s))
        × IsValid (update_level before s p q)
  unfolding update_level update
  update_level_refines before s p q v =
      let xs = in_use s in
      let (e, c) = in_use-Uses s v in
      let found : find_price s.levels p s.count 0
          ≡ elim (index p xs) [ none ↦ none | some n ↦ some (0 + n) ] =
        ap (λ n. find_price s.levels p n 0) c
        ∙ find_price_lem p s.levels 0 xs (drop s.count s.levels) e in
      elim (Option-cases (index p xs)) [
        | inl miss ↦
            let (absent, kept) = index-none p xs miss in
            let none_found : find_price s.levels p s.count 0 ≡ none = rw miss at found in
            rw (none_found, update_level, absent, update, kept)
              (ground (arith, c, insert_level_lem before s p q v))
        | inr (i, hit) ↦
            let f = index-Found p xs i hit in
            let at : find_price s.levels p s.count 0 ≡ some i =
              rw hit at found ∙ ap some (zero-add i) in
            let inside : i < s.count = omega (arith, c, f.inside) in
            rw (at, update_level, f.present, update)
              (ground (
                arith,
                f.removed,
                f.stored q,
                erase_level_lem s i v inside,
                set_quantity_lem s i q v inside,
              ))
      ]

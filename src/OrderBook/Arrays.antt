-- ===== src/OrderBook/Arrays.antt =====
-- The two loops that move levels, as operations on the list of the levels in use.
use native.Mathlib.Nat.{suc-add, zero-add, sub-zero}
use mathlib.Core.List.{append_assoc}
use quant_sim_x.Prelude.{
  ℕ, zero, suc, ◌+◌, ◌-◌, ◌≤◌, ◌<◌, ◌≡◌, refl, sym, ap, ap₂, ◌∙◌, List, [], ◌∷◌, ◌++◌, arith,
  length, get_or, set, take, drop, length-set, length-append, take-append, take-set, drop-set,
  take-suc,
}
use quant_sim_x.Double.{Double}
use quant_sim_x.OrderBook.{Level, no_level, shift, close}

module _ {ℓ} {A : Type ℓ} where
  abbrev pub insert_at : ℕ → A → List A → List A
  insert_at i v xs = take i xs ++ v ∷ drop i xs

  abbrev pub remove_at : ℕ → List A → List A
  remove_at i [] = []
  remove_at zero (x ∷ xs) = xs
  remove_at (suc i) (x ∷ xs) = x ∷ remove_at i xs

module _ {W : Type 0} ⦃d : Double W⦄ where
  shift-cons :
      (x : Level W) (ls : List (Level W)) (i n : ℕ) → shift (x ∷ ls) (suc i) n ≡ x ∷ shift ls i n
  unfolding shift
  shift-cons x ls i zero = refl
  shift-cons x ls i (suc n) =
      simp suc-add (shift-cons x (set ls (i + suc n) (get_or ls (i + n) no_level)) i n)

  close-cons :
      (x : Level W) (ls : List (Level W)) (i n : ℕ) → close (x ∷ ls) (suc i) n ≡ x ∷ close ls i n
  unfolding close
  close-cons x ls i zero = refl
  close-cons x ls i (suc n) = close-cons x (set ls i (get_or ls (suc i) no_level)) (suc i) n

  gap :
      (n : ℕ) (x : Level W) (ls : List (Level W))
      → suc n < suc (length ls)
      → let ls' = set (x ∷ ls) (suc n) (get_or (x ∷ ls) n no_level) in
        take n ls' ++ drop (suc n) ls' ≡ take (suc n) (x ∷ ls) ++ drop (suc (suc n)) (x ∷ ls)
  gap n x ls h =
      let moved = get_or (x ∷ ls) n no_level in
      ap₂ ◌++◌ (take-set n (suc n) (x ∷ ls) moved (omega arith)) (drop-set (suc n) (x ∷ ls) moved h)
      ∙ sym (append_assoc (take n (x ∷ ls)) (moved ∷ []) (drop (suc (suc n)) (x ∷ ls)))
      ∙ ap (λ t. t ++ drop (suc (suc n)) (x ∷ ls))
          (sym (take-suc n (x ∷ ls) no_level (omega arith)))

  -- Opening a gap at the front: the level at `n` is overwritten.
  shift_front :
      (n : ℕ) (ls : List (Level W)) (v : Level W)
      → n < length ls
      → set (shift ls 0 n) 0 v ≡ v ∷ take n ls ++ drop (suc n) ls
  unfolding shift
  shift_front n [] v h = absurd (omega arith)
  shift_front zero (x ∷ ls) v h = refl
  shift_front (suc n) (x ∷ ls) v h =
      let moved = get_or (x ∷ ls) n no_level in
      let ls' = set (x ∷ ls) (suc n) moved in
      rw (zero-add, zero-add)
        (shift_front n ls' v (omega (arith, length-set (x ∷ ls) (suc n) moved))
          ∙ ap (◌∷◌ v) (gap n x ls (omega arith)))

  pub set-shift :
      (xs : List (Level W)) (r v : Level W) (rest : List (Level W)) (i : ℕ)
      → i ≤ length xs
      → set (shift (xs ++ r ∷ rest) i (length xs - i)) i v ≡ insert_at i v xs ++ rest
  set-shift xs r v rest zero h = rw sub-zero (
      shift_front (length xs) (xs ++ r ∷ rest) v (omega (arith, length-append {0} xs (r ∷ rest)))
      ∙ ap (◌∷◌ v) (ap₂ ◌++◌ (take-append xs (r ∷ rest)) (drop_gap xs)))
    where
      drop_gap : (ys : List (Level W)) → drop (suc (length ys)) (ys ++ r ∷ rest) ≡ rest
      drop_gap [] = refl
      drop_gap (y ∷ ys) = drop_gap ys
  set-shift [] r v rest (suc i) h = absurd (omega arith)
  set-shift (x ∷ xs) r v rest (suc i) h =
      let fewer : suc (length xs) - suc i ≡ length xs - i = omega arith in
      rw (fewer, shift-cons) (ap (◌∷◌ x) (set-shift xs r v rest i (omega arith)))

  close_front :
      (x : Level W) (ys rest : List (Level W))
      → (z : Level W) × (close (x ∷ ys ++ rest) 0 (length ys) ≡ ys ++ z ∷ rest)
  unfolding close
  close_front x [] rest = (x, refl)
  close_front x (y ∷ ys) rest =
      let (z, e) = close_front y ys rest in
      (z, close-cons y (y ∷ ys ++ rest) 0 (length ys) ∙ ap (◌∷◌ y) e)

  -- Closing the gap at `i` leaves some level behind the ones in use.
  pub close_lem :
      (xs : List (Level W)) (rest : List (Level W)) (i : ℕ)
      → i < length xs
      → (z : Level W) × (close (xs ++ rest) i (length xs - 1 - i) ≡ remove_at i xs ++ z ∷ rest)
  close_lem [] rest i h = absurd (omega arith)
  close_lem (x ∷ xs) rest zero h =
      let fewer : suc (length xs) - 1 - 0 ≡ length xs = omega arith in
      rw fewer (close_front x xs rest)
  close_lem (x ∷ xs) rest (suc i) h =
      let fewer : suc (length xs) - 1 - suc i ≡ length xs - 1 - i = omega arith in
      let (z, e) = close_lem xs rest i (omega arith) in
      (
        z,
        ap (close (x ∷ xs ++ rest) (suc i)) fewer
            ∙ close-cons x (xs ++ rest) i (length xs - 1 - i)
            ∙ ap (◌∷◌ x) e,
      )

-- ===== src/PackedBook/Shift.antt =====
-- The while loop of an insertion into a side: where it leaves the new order among the packed prices.
use quant_sim_x.Prelude.{
  ℕ, zero, suc, ◌≤◌, ◌<◌, ◌≡◌, refl, ap, sym, ◌∙◌, subst, Bool, true, false, List, [], ◌∷◌, ◌++◌,
  All, map, arith, length, get_or, set, take, length-set, take-set, take-suc, get_or-set_self,
  get_or-set_ne, Bool-cases, inl, inr,
}
use mathlib.Core.List.{map-append}
use quant_sim_x.Double.{Double, nought}
use quant_sim_x.PackedBook.{PackedOrder, no_order, price_of, price, shift}
use quant_sim_x.PackedBook.Sorted.{
  IsTotal, IsInOrder, insert_in, insert_in-before, insert_in-behind,
}

-- the packed prices of the first `n` orders
abbrev pub prices : List PackedOrder → ℕ → List ℕ
prices os n = map (λ o. o.price_raw) (take n os)

abbrev pub max_raw : ℕ
max_raw = 4_000_000_000

abbrev pub AreSmall : List ℕ → Type 0
AreSmall = All (λ r. r ≤ max_raw)

prices-suc :
    (os : List PackedOrder) (i : ℕ)
    → i < length os
    → prices os (suc i) ≡ prices os i ++ (get_or os i no_order).price_raw ∷ []
prices-suc os i h =
    ap (map (λ o. o.price_raw)) (take-suc i os no_order h)
    ∙ map-append (λ o. o.price_raw) (take i os) (get_or os i no_order ∷ [])

abbrev pub Shifted : (ℕ → ℕ → Bool) → ℕ → List PackedOrder → ℕ → ℕ × List PackedOrder → Type 0
Shifted ahead r os i p =
    (p.0 ≤ i)
    × (length p.1 ≡ length os)
    × ((k : ℕ) → i < k → get_or p.1 k no_order ≡ get_or os k no_order)
    × ((o : PackedOrder)
        → o.price_raw ≡ r
        → prices (set p.1 p.0 o) (suc i) ≡ insert_in ahead r (prices os i))

All-left : (P : ℕ → Type 0) (xs : List ℕ) (x : ℕ) → All P (xs ++ x ∷ []) → All P xs × P x
All-left P [] x (p, _) = (tt, p)
All-left P (y ∷ ys) x (p, ps) = let (l, q) = All-left P ys x ps in ((p, l), q)

IsInOrder-left :
    (ahead : ℕ → ℕ → Bool) (xs : List ℕ) (x : ℕ)
    → IsInOrder ahead (xs ++ x ∷ [])
    → IsInOrder ahead xs
IsInOrder-left ahead [] x v = tt
IsInOrder-left ahead (y ∷ ys) x (a, v) =
    ((All-left (λ z. ahead y z ≡ true) ys x a).0, IsInOrder-left ahead ys x v)

-- The loop moves the last entry, which the new one is ahead of, and goes on.
moved :
    (ahead : ℕ → ℕ → Bool) (r : ℕ) (os : List PackedOrder) (i : ℕ) (p : ℕ × List PackedOrder)
    → suc i < length os
    → ahead r (get_or os i no_order).price_raw ≡ true
    → Shifted ahead r (set os (suc i) (get_or os i no_order)) i p
    → Shifted ahead r os (suc i) p
moved ahead r os i p h e (low, long, frame, placed) =
    let x = get_or os i no_order in
    let all : length p.1 ≡ length os = long ∙ length-set os (suc i) x in
    (
      omega (arith, low),
      all,
      λ k above.
          frame k (omega (arith, above))
          ∙ get_or-set_ne os (suc i) k x no_order (λ z. absurd (omega (arith, z, above))),
      λ o same.
          let there : get_or (set p.1 p.0 o) (suc i) no_order ≡ x =
            get_or-set_ne p.1 p.0 (suc i) o no_order (λ z. absurd (omega (arith, z, low)))
            ∙ frame (suc i) (omega arith)
            ∙ get_or-set_self os (suc i) x no_order h in
          prices-suc (set p.1 p.0 o) (suc i) (omega (arith, h, all, length-set p.1 p.0 o))
          ∙ ap (λ y. prices (set p.1 p.0 o) (suc i) ++ y.price_raw ∷ []) there
          ∙ ap (λ l. l ++ x.price_raw ∷ []) (placed o same)
          ∙ ap (λ l. insert_in ahead r (map (λ o. o.price_raw) l) ++ x.price_raw ∷ [])
              (take-set i (suc i) os x (omega arith))
          ∙ sym (insert_in-before ahead r x.price_raw (prices os i) e)
          ∙ ap (insert_in ahead r) (sym (prices-suc os i (omega (arith, h)))),
    )

-- The loop stops where it is.
stopped :
    (ahead : ℕ → ℕ → Bool) (r : ℕ) (os : List PackedOrder) (i : ℕ)
    → i < length os
    → ((l : List ℕ) → l ≡ prices os i → insert_in ahead r l ≡ l ++ r ∷ [])
    → Shifted ahead r os i (i, os)
stopped ahead r os i h last = (
  omega arith,
  refl,
  λ k above. refl,
  λ o same.
      prices-suc (set os i o) i (omega (arith, h, length-set os i o))
      ∙ ap (λ y. prices (set os i o) i ++ y.price_raw ∷ []) (get_or-set_self os i o no_order h)
      ∙ ap (λ y. prices (set os i o) i ++ y ∷ []) same
      ∙ ap (λ l. map (λ o. o.price_raw) l ++ r ∷ []) (take-set i i os o (omega arith))
      ∙ sym (last (prices os i) refl),
)

module _ {W : Type 0} ⦃d : Double W⦄ where
  open d use {of_nat, le, lt}

  -- The prices of up to 40 millions, of which every packed price fits in 32 bits. NaN is not one.
  abbrev pub InRange : W → Type 0
  InRange p = (le nought p ≡ true) × (le p (of_nat 40_000_000) ≡ true)

  -- The test of the loop agrees with the order of the packed prices.
  abbrev pub Places : (W → Bool) → (ℕ → ℕ → Bool) → ℕ → Type 0
  Places past ahead r =
      (y : ℕ)
      → y ≤ max_raw
      → (past (price_of y) ≡ true → ahead r y ≡ true)
        × (past (price_of y) ≡ false → ahead y r ≡ true)

  pub shift_lem :
      (past : W → Bool) (ahead : ℕ → ℕ → Bool) (r : ℕ) (os : List PackedOrder) (i : ℕ)
      → IsTotal ahead
      → Places past ahead r
      → i < length os
      → AreSmall (prices os i)
      → IsInOrder ahead (prices os i)
      → Shifted ahead r os i (shift past os i)
  unfolding shift price insert_in
  shift_lem past ahead r os zero t q h a v = stopped ahead r os 0 h (λ l e. rw (e) refl)
  shift_lem past ahead r os (suc i) t q h a v =
      let x = get_or os i no_order in
      let os' = set os (suc i) x in
      let split = prices-suc os i (omega (arith, h)) in
      let (small, fits) =
        All-left (λ y. y ≤ max_raw) (prices os i) x.price_raw (subst AreSmall split a) in
      let ordered = subst (IsInOrder ahead) split v in
      let same : prices os' i ≡ prices os i =
        ap (map (λ o. o.price_raw)) (take-set i (suc i) os x (omega arith)) in
      elim (Bool-cases (past (price_of x.price_raw))) [
        | inl e ↦
            rw (e, shift)
              (moved ahead r os i (shift past os' i) h ((q x.price_raw fits).0 e) (
                shift_lem past ahead r os' i t q (omega (arith, h, length-set os (suc i) x))
                  (subst AreSmall (sym same) small)
                  (subst (IsInOrder ahead) (sym same)
                    (IsInOrder-left ahead (prices os i) x.price_raw ordered))))
        | inr e ↦
            rw (e, shift)
              (stopped ahead r os (suc i) h (λ l same.
                let m : l ≡ prices os i ++ x.price_raw ∷ [] = same ∙ split in
                rw (m) (
                  insert_in-behind ahead t r x.price_raw (prices os i) ordered
                    ((q x.price_raw fits).1 e))))
      ]

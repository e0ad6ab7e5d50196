-- ===== src/PackedBook/Sorted.antt =====
-- Insertion into a list of numbers that is kept in an order, from the front, and what it does at the
-- back.
use quant_sim_x.Prelude.{
  ℕ, suc, ◌≡◌, refl, ap, Bool, true, List, [], ◌∷◌, ◌++◌, All, All-append, arith, length,
  if◌then◌else◌, leb, ◌⊎◌, inl, inr, Bool-cases,
}

-- A total order, more a test.
pub record IsTotal (ahead : ℕ → ℕ → Bool) : Type 0 where
  pub ahead_total : (a b : ℕ) → (ahead a b ≡ true) ⊎ (ahead b a ≡ true)
  pub ahead_trans : (a b c : ℕ) → ahead a b ≡ true → ahead b c ≡ true → ahead a c ≡ true
  pub ahead_antisym : (a b : ℕ) → ahead a b ≡ true → ahead b a ≡ true → a ≡ b

-- the higher price first, and the lower one first
abbrev pub falling : ℕ → ℕ → Bool
falling a b = leb b a

abbrev pub rising : ℕ → ℕ → Bool
rising a b = leb a b

pub falling-IsTotal : IsTotal falling
falling-IsTotal = ground arith

pub rising-IsTotal : IsTotal rising
rising-IsTotal = ground arith

module _ (ahead : ℕ → ℕ → Bool) where
  unfoldable pub insert_in : ℕ → List ℕ → List ℕ
  insert_in r [] = r ∷ []
  insert_in r (x ∷ xs) = if ahead r x then r ∷ x ∷ xs else x ∷ insert_in r xs

  -- Every entry is ahead of those behind it.
  abbrev pub IsInOrder : List ℕ → Type 0
  IsInOrder [] = Unit
  IsInOrder (x ∷ xs) = All (λ y. ahead x y ≡ true) xs × IsInOrder xs

  pub length-insert_in : (r : ℕ) (xs : List ℕ) → length (insert_in r xs) ≡ suc (length xs)
  unfolding insert_in
  length-insert_in r [] = refl
  length-insert_in r (x ∷ xs) = ground (arith, length-insert_in r xs)

  pub All-insert_in :
      (P : ℕ → Type 0) (r : ℕ) (xs : List ℕ) → P r → All P xs → All P (insert_in r xs)
  unfolding insert_in
  All-insert_in P r [] p ps = (p, tt)
  All-insert_in P r (x ∷ xs) p (q, qs) = elim (Bool-cases (ahead r x)) [
    | inl e ↦ rw (e) (p, (q, qs))
    | inr e ↦ rw (e) (q, All-insert_in P r xs p qs)
  ]

  All-trans :
      IsTotal ahead
      → (r x : ℕ) (xs : List ℕ) → ahead r x ≡ true
      → All (λ y. ahead x y ≡ true) xs
      → All (λ y. ahead r y ≡ true) xs
  All-trans t r x [] e a = tt
  All-trans t r x (y ∷ ys) e (a, more) = (t.ahead_trans r x y e a, All-trans t r x ys e more)

  pub insert_in-IsInOrder :
      IsTotal ahead → (r : ℕ) (xs : List ℕ) → IsInOrder xs → IsInOrder (insert_in r xs)
  unfolding insert_in
  insert_in-IsInOrder t r [] v = (tt, tt)
  insert_in-IsInOrder t r (x ∷ xs) (v, vs) = elim (Bool-cases (ahead r x)) [
    | inl e ↦ rw (e) ((e, All-trans t r x xs e v), (v, vs))
    | inr e ↦
        let first : ahead x r ≡ true = ground (arith, e, t.ahead_total r x) in
        rw (e) (All-insert_in (λ y. ahead x y ≡ true) r xs first v, insert_in-IsInOrder t r xs vs)
  ]

  -- An entry that the new one is ahead of stays the last.
  pub insert_in-before :
      (r x : ℕ) (xs : List ℕ)
      → ahead r x ≡ true
      → insert_in r (xs ++ x ∷ []) ≡ insert_in r xs ++ x ∷ []
  unfolding insert_in
  insert_in-before r x [] e = rw (e) refl
  insert_in-before r x (y ∷ ys) e = ground (arith, e, insert_in-before r x ys e)

  -- Behind entries that are all ahead of it, the new one is the last.
  pub insert_in-last :
      IsTotal ahead
      → (r : ℕ) (xs : List ℕ) → IsInOrder xs
      → All (λ y. ahead y r ≡ true) xs
      → insert_in r xs ≡ xs ++ r ∷ []
  unfolding insert_in
  insert_in-last t r [] v a = refl
  insert_in-last t r (x ∷ []) v (a, _) = elim (Bool-cases (ahead r x)) [
    | inl e ↦ rw (e, t.ahead_antisym r x e a) refl
    | inr e ↦ rw (e) refl
  ]
  insert_in-last t r (x ∷ y ∷ ys) (v, vs) (a, more) =
      let rest = insert_in-last t r (y ∷ ys) vs more in
      elim (Bool-cases (ahead r x)) [
        | inl e ↦
            let same : r ≡ x = t.ahead_antisym r x e a in
            let next : ahead r y ≡ true = t.ahead_trans r x y e v.0 in
            ground (arith, e, same, next, rest)
        | inr e ↦ rw (e) (ap (◌∷◌ x) rest)
      ]

  IsInOrder-prefix :
      IsTotal ahead
      → (xs : List ℕ) (x : ℕ) → IsInOrder (xs ++ x ∷ [])
      → All (λ y. ahead y x ≡ true) xs
  IsInOrder-prefix t [] x v = tt
  IsInOrder-prefix t (y ∷ ys) x (v, vs) = (All-last ys v, IsInOrder-prefix t ys x vs)
    where
      All-last :
          {y : ℕ} (ys : List ℕ) → All (λ z. ahead y z ≡ true) (ys ++ x ∷ []) → ahead y x ≡ true
      All-last [] a = a.0
      All-last (z ∷ zs) a = All-last zs a.1

  -- Behind a last entry that is ahead of it, the new one is the last.
  pub insert_in-behind :
      IsTotal ahead
      → (r x : ℕ) (xs : List ℕ) → IsInOrder (xs ++ x ∷ [])
      → ahead x r ≡ true
      → insert_in r (xs ++ x ∷ []) ≡ (xs ++ x ∷ []) ++ r ∷ []
  insert_in-behind t r x xs v e = insert_in-last t r (xs ++ x ∷ []) v (
      All-append (λ y. ahead y r ≡ true) xs (x ∷ []) (All-map xs (IsInOrder-prefix t xs x v))
        (e, tt))
    where
      All-map : (ys : List ℕ) → All (λ y. ahead y x ≡ true) ys → All (λ y. ahead y r ≡ true) ys
      All-map [] a = tt
      All-map (y ∷ ys) (a, more) = (t.ahead_trans y x r a e, All-map ys more)

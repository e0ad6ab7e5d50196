-- ===== src/OrderBook/Ladder.antt =====
-- What one side of the book stands for: the levels in use, the best first, and what an update does
-- to them. The levels of a ladder have different prices, each ahead of those behind it.
use quant_sim_x.Prelude.{
  ◌<◌, ◌≡◌, refl, Bool, true, false, Option, none, some, List, [], ◌∷◌, arith, length, ltb,
  Option-cases, inl, inr, ◌≢◌, All, if◌then◌else◌, ◌⊎◌,
}
use quant_sim_x.Double.{Double, IsOrdered, gt, nought}
use quant_sim_x.OrderBook.{Level}

module _ {W : Type 0} ⦃d : Double W⦄ where
  open d use {eq}

  -- the quantity at a price
  unfoldable pub lookup : W → List (Level W) → Option W
  lookup p [] = none
  lookup p (x ∷ xs) = if eq x.price p then some x.quantity else lookup p xs

  unfoldable pub remove_price : W → List (Level W) → List (Level W)
  remove_price p [] = []
  remove_price p (x ∷ xs) = if eq x.price p then xs else x ∷ remove_price p xs

  unfoldable pub set_price : W → W → List (Level W) → List (Level W)
  set_price p q [] = []
  set_price p q (x ∷ xs) =
      if eq x.price p then record x { quantity = q } ∷ xs else x ∷ set_price p q xs

  unfoldable pub insert_sorted : (W → W → Bool) → Level W → List (Level W) → List (Level W)
  insert_sorted before l [] = l ∷ []
  insert_sorted before l (x ∷ xs) =
      if before x.price l.price then x ∷ insert_sorted before l xs else l ∷ x ∷ xs

  -- A quantity of 0 takes a price off, any other one is stored; a new price needs a free level.
  unfoldable pub update : (W → W → Bool) → W → W → List (Level W) → List (Level W)
  unfolding lookup remove_price set_price insert_sorted
  update before p q xs = if eq q nought then remove_price p xs else elim (lookup p xs) [
    | none ↦
        if ltb (length xs) 256
        then insert_sorted before (record { price = p; quantity = q }) xs
        else xs
    | some _ ↦ set_price p q xs
  ]

  abbrev pub IsNumber : W → Type 0
  IsNumber p = eq p p ≡ true

  -- What the order of a side has to satisfy.
  pub record IsStrict (before : W → W → Bool) : Type 0 where
    pub trans : (x y z : W) → before x y ≡ true → before y z ≡ true → before x z ≡ true
    pub apart : (x y : W) → before x y ≡ true → eq x y ≡ false
    pub connex :
        (x y : W)
        → IsNumber x
        → IsNumber y
        → (before x y ≡ true) ⊎ (eq x y ≡ true) ⊎ (before y x ≡ true)

  abbrev pub Ahead : (W → W → Bool) → W → List (Level W) → Type 0
  Ahead before p = All (λ x. before p x.price ≡ true)

  abbrev pub IsLadder : (W → W → Bool) → List (Level W) → Type 0
  IsLadder before [] = Unit
  IsLadder before (x ∷ xs) = IsNumber x.price × Ahead before x.price xs × IsLadder before xs

  module _ (laws : IsOrdered W) where
    pub lt-IsStrict : IsStrict d.lt
    lt-IsStrict = record {
      trans = laws.lt_trans;
      apart = λ x y h. ground (arith, laws.lt-eq_left x y y, laws.lt_irrefl y);
      connex = laws.lt_connex;
    }

    pub gt-IsStrict : IsStrict gt
    gt-IsStrict = record {
      trans = λ x y z h k. laws.lt_trans z y x k h;
      apart = λ x y h. ground (arith, laws.lt-eq_left x y x, laws.lt_irrefl x);
      connex = λ x y n m. ground (arith, laws.lt_connex x y n m);
    }

  module _ (before : W → W → Bool) (strict : IsStrict before) where
    Ahead-trans :
        (p r : W) (xs : List (Level W)) → before p r ≡ true → Ahead before r xs → Ahead before p xs
    Ahead-trans p r [] h a = tt
    Ahead-trans p r (x ∷ xs) h (b, a) = (strict.trans p r x.price h b, Ahead-trans p r xs h a)

    Ahead-insert_sorted :
        (p : W) (l : Level W) (xs : List (Level W))
        → before p l.price ≡ true
        → Ahead before p xs
        → Ahead before p (insert_sorted before l xs)
    unfolding insert_sorted
    Ahead-insert_sorted p l [] h a = (h, tt)
    Ahead-insert_sorted p l (x ∷ xs) h (b, a) = ground (arith, Ahead-insert_sorted p l xs h a)

    Ahead-remove_price :
        (p r : W) (xs : List (Level W)) → Ahead before p xs → Ahead before p (remove_price r xs)
    unfolding remove_price
    Ahead-remove_price p r [] a = tt
    Ahead-remove_price p r (x ∷ xs) (b, a) = ground (arith, Ahead-remove_price p r xs a)

    Ahead-set_price :
        (p r q : W) (xs : List (Level W)) → Ahead before p xs → Ahead before p (set_price r q xs)
    unfolding set_price
    Ahead-set_price p r q [] a = tt
    Ahead-set_price p r q (x ∷ xs) (b, a) = ground (arith, Ahead-set_price p r q xs a)

    pub insert_sorted-IsLadder :
        (l : Level W) (xs : List (Level W))
        → IsNumber l.price
        → lookup l.price xs ≡ none
        → IsLadder before xs
        → IsLadder before (insert_sorted before l xs)
    unfolding insert_sorted lookup
    insert_sorted-IsLadder l [] n h s = (n, tt, tt)
    insert_sorted-IsLadder l (x ∷ xs) n h (m, a, s) = ground (
      arith,
      strict.connex x.price l.price m n,
      insert_sorted-IsLadder l xs n,
      Ahead-insert_sorted x.price l xs,
      Ahead-trans l.price x.price xs,
    )

    remove_price-IsLadder :
        (p : W) (xs : List (Level W)) → IsLadder before xs → IsLadder before (remove_price p xs)
    unfolding remove_price
    remove_price-IsLadder p [] s = tt
    remove_price-IsLadder p (x ∷ xs) (m, a, s) =
        ground (arith, remove_price-IsLadder p xs s, Ahead-remove_price x.price p xs a)

    set_price-IsLadder :
        (p q : W) (xs : List (Level W)) → IsLadder before xs → IsLadder before (set_price p q xs)
    unfolding set_price
    set_price-IsLadder p q [] s = tt
    set_price-IsLadder p q (x ∷ xs) (m, a, s) =
        ground (arith, set_price-IsLadder p q xs s, Ahead-set_price x.price p q xs a)

    -- An update keeps the order and the difference of the prices.
    pub update-IsLadder :
        (p q : W) (xs : List (Level W))
        → IsNumber p
        → IsLadder before xs
        → IsLadder before (update before p q xs)
    unfolding update
    update-IsLadder p q xs n s = ground (
      arith,
      remove_price-IsLadder p xs s,
      set_price-IsLadder p q xs s,
      insert_sorted-IsLadder (record { price = p; quantity = q }) xs n,
    )

    module _ (laws : IsOrdered W) where
      open laws use {eq_sym, eq-eq}

      -- A price that is ahead of a whole ladder is not in it.
      lookup-Ahead :
          (p r : W) (xs : List (Level W)) → eq p r ≡ true → Ahead before p xs → lookup r xs ≡ none
      unfolding lookup
      lookup-Ahead p r [] e a = refl
      lookup-Ahead p r (x ∷ xs) e (b, a) = ground (
        arith,
        lookup-Ahead p r xs e a,
        strict.apart p x.price b,
        eq-eq p r x.price e,
        eq_sym x.price r,
      )

      lookup-remove_price :
          (p r : W) (xs : List (Level W))
          → IsLadder before xs
          → lookup r (remove_price p xs) ≡ (if eq p r then none else lookup r xs)
      unfolding lookup remove_price
      lookup-remove_price p r [] s = ground arith
      lookup-remove_price p r (x ∷ xs) (n, a, s) = ground (
        arith,
        lookup-remove_price p r xs s,
        lookup-Ahead x.price r xs,
        eq-eq x.price p r,
        eq-eq p r x.price,
        eq_sym x.price r,
        eq_sym x.price p,
      )

      lookup-set_price :
          (p r q : W) (xs : List (Level W))
          → (v : W) → lookup p xs ≡ some v
          → lookup r (set_price p q xs) ≡ (if eq p r then some q else lookup r xs)
      unfolding lookup set_price
      lookup-set_price p r q [] v h = cc
      lookup-set_price p r q (x ∷ xs) v h = ground (
        arith,
        lookup-set_price p r q xs v,
        eq-eq x.price p r,
        eq-eq p r x.price,
        eq_sym x.price r,
        eq_sym x.price p,
      )

      lookup-insert_sorted :
          (r : W) (l : Level W) (xs : List (Level W))
          → lookup l.price xs ≡ none
          → lookup r (insert_sorted before l xs)
            ≡ (if eq l.price r then some l.quantity else lookup r xs)
      unfolding lookup insert_sorted
      lookup-insert_sorted r l [] h = refl
      lookup-insert_sorted r l (x ∷ xs) h = ground (
        arith,
        lookup-insert_sorted r l xs,
        eq-eq l.price r x.price,
        eq_sym x.price r,
        eq_sym x.price l.price,
      )

      -- After an update the quantity at its price is the new one, none for 0, and every other price
      -- has the quantity that it had. Only a new price on a full side has no effect.
      pub lookup-update :
          (p q r : W) (xs : List (Level W))
          → IsLadder before xs
          → (length xs < 256) ⊎ (lookup p xs ≢ none)
          → lookup r (update before p q xs)
            ≡ (if eq p r then (if eq q nought then none else some q) else lookup r xs)
      unfolding update
      lookup-update p q r xs s room = elim (Option-cases (lookup p xs)) [
        | inl e ↦
            rw (e, update)
              (ground (
                arith,
                e,
                lookup-remove_price p r xs s,
                lookup-insert_sorted r (record { price = p; quantity = q }) xs,
              ))
        | inr (v, e) ↦
            rw (e, update)
              (ground (arith, lookup-remove_price p r xs s, lookup-set_price p r q xs v))
      ]

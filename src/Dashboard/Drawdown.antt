-- ===== src/Dashboard/Drawdown.antt =====
-- The drawdown of a curve of results.
use mathlib.Core.List.{append_assoc}
use quant_sim_x.Prelude.{
  ◌≡◌, refl, sym, ap, ◌∙◌, subst, false, Bool-cases, ◌⊎◌, inl, inr, List, [], ◌∷◌, ◌++◌, arith,
}
use quant_sim_x.Double.{Double, IsOrdered, nought, max_of}
use quant_sim_x.Dashboard.Figures.{Falls, see_pnl, see_pnls, calculate_daily_drawdown}

module _ {W : Type 0} ⦃d : Double W⦄ where
  -- the highest result so far
  pub peak : W → List W → W
  peak m [] = m
  peak m (x ∷ xs) = peak (max_of m x) xs

  see_pnls-peak : (s : Falls W) (xs : List W) → (see_pnls s xs).running_max ≡ peak s.running_max xs
  unfolding see_pnls peak see_pnl
  see_pnls-peak s [] = refl
  see_pnls-peak s (x ∷ xs) = see_pnls-peak (see_pnl s x) xs

  see_pnls-append :
      (s : Falls W) (xs ys : List W) → see_pnls s (xs ++ ys) ≡ see_pnls (see_pnls s xs) ys
  unfolding see_pnls
  see_pnls-append s [] ys = refl
  see_pnls-append s (x ∷ xs) ys = see_pnls-append (see_pnl s x) xs ys

  peak-snoc : (m : W) (xs : List W) (x : W) → peak m (xs ++ x ∷ []) ≡ max_of (peak m xs) x
  unfolding peak
  peak-snoc m [] x = refl
  peak-snoc m (y ∷ xs) x = peak-snoc (max_of m y) xs x

  -- `r` is 0, or the fall to some point of the curve from the highest result so far.
  pub Attained : W → List W → W → Type 0
  Attained first curve r =
      (r ≡ nought)
      ⊎ ((before : List W) × (x : W) × (after : List W) × (curve ≡ before ++ x ∷ after)
          × (r ≡ d.sub (peak first (before ++ x ∷ [])) x))

  see_pnl-Attained :
      (first : W) (seen : List W) (x : W) (xs : List W) (s : Falls W)
      → Attained first (seen ++ x ∷ xs) s.max_drawdown
      → max_of s.running_max x ≡ peak first (seen ++ x ∷ [])
      → Attained first (seen ++ x ∷ xs) (see_pnl s x).max_drawdown
  unfolding see_pnl Attained
  see_pnl-Attained first seen x xs s a top =
      elim (Bool-cases (d.lt s.max_drawdown (d.sub (max_of s.running_max x) x))) [
        | inl l ↦ rw (l, see_pnl) (inr (seen, x, xs, refl, ap (λ m. d.sub m x) top))
        | inr l ↦ rw (l, see_pnl) a
      ]

  see_pnls-Attained :
      (first : W) (seen xs : List W) (s : Falls W)
      → s.running_max ≡ peak first seen
      → Attained first (seen ++ xs) s.max_drawdown
      → Attained first (seen ++ xs) (see_pnls s xs).max_drawdown
  unfolding see_pnls see_pnl
  see_pnls-Attained first seen [] s e a = a
  see_pnls-Attained first seen (x ∷ xs) s e a =
      let fall = d.sub (max_of s.running_max x) x in
      let top : max_of s.running_max x ≡ peak first (seen ++ x ∷ []) =
        ap (λ m. max_of m x) e ∙ sym (peak-snoc first seen x) in
      subst (λ curve. Attained first curve (see_pnls (see_pnl s x) xs).max_drawdown)
        (append_assoc seen (x ∷ []) xs)
        (see_pnls-Attained first (seen ++ x ∷ []) xs (see_pnl s x) top (
          subst (λ curve. Attained first curve (see_pnl s x).max_drawdown)
            (sym (append_assoc seen (x ∷ []) xs)) (see_pnl-Attained first seen x xs s a top)))

  drawdown-Attained :
      (first : W) (rest : List W)
      → Attained first (first ∷ rest) (calculate_daily_drawdown (first ∷ rest))
  unfolding calculate_daily_drawdown peak Attained
  drawdown-Attained first rest =
      see_pnls-Attained first [] (first ∷ rest)
        (record { running_max = first; max_drawdown = nought }) refl (inl refl)

  module _ (laws : IsOrdered W) where
    -- a larger value still lies below nothing that the smaller does not lie below
    max_of-above : (m y z : W) → d.lt m z ≡ false → d.lt (max_of m y) z ≡ false
    max_of-above m y z h = ground (arith, h, laws.lt_trans m y z)

    max_of-right : (m y : W) → d.lt (max_of m y) y ≡ false
    max_of-right m y = ground (arith, laws.lt_irrefl y)

    see_pnls-above :
        (s : Falls W) (xs : List W) (z : W)
        → d.lt s.max_drawdown z ≡ false
        → d.lt (see_pnls s xs).max_drawdown z ≡ false
    unfolding see_pnls see_pnl
    see_pnls-above s [] z h = h
    see_pnls-above s (x ∷ xs) z h =
        see_pnls-above (see_pnl s x) xs z
          (max_of-above s.max_drawdown (d.sub (max_of s.running_max x) x) z h)

    drawdown-falls :
        (first : W) (before : List W) (x : W) (after : List W)
        → d.lt
            (calculate_daily_drawdown (first ∷ before ++ x ∷ after))
            (d.sub (peak first (first ∷ before ++ x ∷ [])) x)
          ≡ false
    unfolding calculate_daily_drawdown see_pnls see_pnl peak
    drawdown-falls first before x after =
        let s =
          see_pnls (see_pnl (record { running_max = first; max_drawdown = nought }) first) before in
        let top : peak (max_of first first) (before ++ x ∷ []) ≡ max_of s.running_max x =
          peak-snoc (max_of first first) before x
          ∙ ap (λ m. max_of m x) (sym (see_pnls-peak _ before)) in
        let split =
          see_pnls-append (see_pnl (record { running_max = first; max_drawdown = nought }) first)
            before (x ∷ after) in
        subst
          (λ r.
            d.lt r.max_drawdown (d.sub (peak (max_of first first) (before ++ x ∷ [])) x) ≡ false)
          (sym split)
          (subst (λ m. d.lt (see_pnls (see_pnl s x) after).max_drawdown (d.sub m x) ≡ false)
            (sym top)
            (see_pnls-above (see_pnl s x) after (d.sub (max_of s.running_max x) x)
              (max_of-right s.max_drawdown (d.sub (max_of s.running_max x) x))))

    -- The drawdown of a curve is the largest fall along it: it is not below the fall from the highest
    -- result so far to any point `x`, and it is such a fall itself, or 0. An order on the results is
    -- needed, but no law of the subtraction.
    pub drawdown_lem :
        (first : W) (before : List W) (x : W) (after : List W)
        → let curve = first ∷ before ++ x ∷ after in
          (d.lt (calculate_daily_drawdown curve) (d.sub (peak first (first ∷ before ++ x ∷ [])) x)
            ≡ false)
          × Attained first curve (calculate_daily_drawdown curve)
    drawdown_lem first before x after =
        (drawdown-falls first before x after, drawdown-Attained first (before ++ x ∷ after))

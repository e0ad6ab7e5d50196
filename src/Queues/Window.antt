-- ===== src/Queues/Window.antt =====
-- A run of entries in a circular array, from a free-running index on.
use native.Mathlib.Nat.{mod-eq_of_lt, mod-eq-sub-mod, mod-lt, mod-add-mod}
use native.Mathlib.Decide.{dec_lt}
use quant_sim_x.Prelude.{
  ℕ, zero, suc, ◌+◌, ◌-◌, ◌%◌, ◌≤◌, ◌<◌, ◌≡◌, ◌≢◌, sym, ap, ◌∙◌, List, [], ◌∷◌, ◌++◌, some, arith,
  length, get_elem?, set, get_elem?-set_self, get_elem?-set_ne,
}

-- Fewer than `cap` steps round the ring do not come back to the start.
pub mod-ne-add_mod : (cap h m : ℕ) → 0 < m → m < cap → (h + m) % cap ≢ h % cap
mod-ne-add_mod cap h m hm hc =
    let r : ℕ = h % cap in
    let small : r < cap = mod-lt h (omega arith) in
    let same : (r + m) % cap ≡ (h + m) % cap = mod-add-mod h cap m in
    elim (dec_lt (r + m) cap) [
      | yes p ↦ omega (arith, mod-eq_of_lt p)
      | no p ↦ omega (
        arith,
        mod-eq-sub-mod {n = r + m} {m = cap} (omega arith),
        mod-eq_of_lt {n = r + m - cap} {m = cap} (omega arith),
      )
    ]

module _ {ℓ} {A : Type ℓ} (cap : ℕ) where
  -- The entries `xs` stand in `slots` at the indices `h`, `h + 1`, …, each taken modulo `cap`.
  abbrev pub Window : List A → ℕ → List A → Type ℓ
  Window slots h [] = Unit
  Window slots h (x ∷ xs) = (get_elem? slots (h % cap) ≡ some x) × Window slots (h + 1) xs

  -- A write past the run leaves it as it is.
  pub Window-set :
      (slots : List A) (h m i : ℕ) (v : A) (xs : List A)
      → length xs ≤ m
      → m < cap
      → i ≡ (h + m) % cap
      → Window slots h xs
      → Window (set slots i v) h xs
  Window-set slots h m i v [] l c p w = tt
  Window-set slots h zero i v (x ∷ xs) l c p w = absurd (omega arith)
  Window-set slots h (suc m) i v (x ∷ xs) l c p (e, w) = (
    get_elem?-set_ne slots v (λ q. mod-ne-add_mod cap h (suc m) (omega arith) c (sym p ∙ q)) ∙ e,
    Window-set slots (h + 1) m i v xs (omega arith) (omega arith)
        (p ∙ ap (λ k. k % cap) (omega arith)) w,
  )

  -- A write just past the run extends it.
  pub Window-append :
      (slots : List A) (h i : ℕ) (v : A) (xs : List A)
      → length xs < cap
      → cap ≤ length slots
      → i ≡ (h + length xs) % cap
      → Window slots h xs
      → Window (set slots i v) h (xs ++ v ∷ [])
  Window-append slots h i v [] l c p w =
      let small : h % cap < cap = mod-lt h (omega arith) in
      let at_start : i ≡ h % cap = p ∙ ap (λ k. k % cap) (omega arith) in
      (rw at_start (get_elem?-set_self slots (h % cap) v (omega arith)), tt)
  Window-append slots h i v (x ∷ xs) l c p (e, w) = (
    get_elem?-set_ne slots v
          (λ q. mod-ne-add_mod cap h (suc (length xs)) (omega arith) l (sym p ∙ q))
        ∙ e,
    Window-append slots (h + 1) i v xs (omega arith) c (p ∙ ap (λ k. k % cap) (omega arith)) w,
  )

  -- Only the index modulo the capacity matters.
  pub Window-congr :
      (slots : List A) (h h' : ℕ) (xs : List A)
      → h % cap ≡ h' % cap
      → Window slots h xs
      → Window slots h' xs
  Window-congr slots h h' [] p w = tt
  Window-congr slots h h' (x ∷ xs) p (e, w) = (
    rw (← p) e,
    Window-congr slots (h + 1) (h' + 1) xs
        (sym (mod-add-mod h cap 1) ∙ ap (λ t. (t + 1) % cap) p ∙ mod-add-mod h' cap 1) w,
  )

  -- The newest entry stands where the run ends.
  pub Window-last :
      (slots : List A) (h : ℕ) (x : A) (xs : List A)
      → Window slots h (xs ++ x ∷ [])
      → get_elem? slots ((h + length xs) % cap) ≡ some x
  Window-last slots h x [] (e, w) = ap (λ t. get_elem? slots (t % cap)) (omega arith) ∙ e
  Window-last slots h x (y ∷ xs) (e, w) =
      ap (λ t. get_elem? slots (t % cap)) (omega arith) ∙ Window-last slots (h + 1) x xs w

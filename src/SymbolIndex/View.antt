-- ===== src/SymbolIndex/View.antt =====
-- The index as a function from symbols.
use quant_sim_x.Prelude.{
  ℕ, suc, ◌≡◌, refl, sym, ap, ◌∙◌, subst, fun_ext, true, false, Option, none, some, List, [], ◌∷◌,
  All, arith, if◌then◌else◌, Bool-cases, inl, inr,
}
use quant_sim_x.Prelude.Text.{Text, text_eq}
use quant_sim_x.SymbolIndex.{add, get, contains, remove, symbols}

text_eq_self : (s : Text) → text_eq s s ≡ true
text_eq_self [] = refl
text_eq_self (c ∷ s) = ground (arith, text_eq_self s)

text_eq-eq : (s t : Text) → text_eq s t ≡ true → s ≡ t
text_eq-eq [] [] h = refl
text_eq-eq [] (c ∷ t) h = ground (arith, h)
text_eq-eq (c ∷ s) [] h = ground (arith, h)
text_eq-eq (c ∷ s) (x ∷ t) h = ground (arith, h, text_eq-eq s t)

text_eq-join : (a b s : Text) → text_eq a s ≡ true → text_eq b s ≡ true → text_eq a b ≡ true
text_eq-join a b s h g =
    subst (λ x. text_eq a x ≡ true) (text_eq-eq a s h ∙ sym (text_eq-eq b s g)) (text_eq_self a)

-- the value that a call of the index leaves, or none where it removes the symbol
pub data Call {ℓ} (T : Type ℓ) : Type ℓ where
  added : Text → T → Call T
  removed : Text → Call T

-- how often a symbol occurs
abbrev pub times : Text → List Text → ℕ
times s [] = 0
times s (k ∷ ks) = if text_eq k s then suc (times s ks) else times s ks

times-absent :
    (k s : Text) (ks : List Text)
    → text_eq k s ≡ true
    → All (λ x. text_eq k x ≡ false) ks
    → times s ks ≡ 0
times-absent k s [] h a = refl
times-absent k s (x ∷ xs) h (a, rest) =
    ground (arith, h, a, text_eq-join k x s, times-absent k s xs h rest)

module _ {T : Type 0} where
  abbrev pub call : List (Text × T) → Call T → List (Text × T)
  call index (added k v) = add index k v
  call index (removed k) = remove index k

  abbrev pub calls : List (Text × T) → List (Call T) → List (Text × T)
  calls index [] = index
  calls index (c ∷ cs) = calls (call index c) cs

  -- a function with one value changed
  abbrev pub update : (Text → Option T) → Text → Option T → Text → Option T
  update f k o s = if text_eq k s then o else f s

  abbrev pub effect : (Text → Option T) → Call T → Text → Option T
  effect f (added k v) = update f k (some v)
  effect f (removed k) = update f k none

  abbrev pub effects : (Text → Option T) → List (Call T) → Text → Option T
  effects f [] = f
  effects f (c ∷ cs) = effects (effect f c) cs

  -- No symbol has two entries.
  abbrev pub AreDistinct : List (Text × T) → Type 0
  AreDistinct [] = Unit
  AreDistinct (e ∷ index) = All (λ k. text_eq e.0 k ≡ false) (symbols index) × AreDistinct index

  get-add :
      (index : List (Text × T)) (k : Text) (v : T) (s : Text)
      → get (add index k v) s ≡ update (get index) k (some v) s
  unfolding get add
  get-add [] k v s = refl
  get-add (e ∷ index) k v s = elim (Bool-cases (text_eq e.0 k)) [
    | inl h ↦ ground (arith, h, ap (λ x. text_eq x s) (text_eq-eq e.0 k h))
    | inr h ↦ ground (arith, h, get-add index k v s, text_eq-join e.0 k s)
  ]

  get-absent :
      (index : List (Text × T)) (k : Text)
      → All (λ s. text_eq k s ≡ false) (symbols index)
      → (s : Text) → text_eq k s ≡ true
      → get index s ≡ none
  unfolding get
  get-absent [] k a s h = refl
  get-absent (e ∷ index) k (a, rest) s h = ground (
    arith,
    h,
    a,
    ap (text_eq k) (text_eq-eq k s h),
    text_eq-join k e.0 s,
    get-absent index k rest s h,
  )

  get-remove :
      (index : List (Text × T)) (k : Text) (s : Text)
      → AreDistinct index
      → get (remove index k) s ≡ update (get index) k none s
  unfolding get remove
  get-remove [] k s a = ground arith
  get-remove (e ∷ index) k s (a, rest) = elim (Bool-cases (text_eq e.0 k)) [
    | inl h ↦
        ground (arith, h, ap (λ x. text_eq x s) (text_eq-eq e.0 k h), get-absent index e.0 a s)
    | inr h ↦ ground (arith, h, get-remove index k s rest, text_eq-join e.0 k s)
  ]

  symbols-add :
      (P : Text → Type 0) (index : List (Text × T)) (k : Text) (v : T)
      → P k
      → All P (symbols index)
      → All P (symbols (add index k v))
  unfolding add
  symbols-add P [] k v p a = (p, tt)
  symbols-add P (e ∷ index) k v p (a, rest) = elim (Bool-cases (text_eq e.0 k)) [
    | inl h ↦ rw (h) (p, rest)
    | inr h ↦ rw (h) (a, symbols-add P index k v p rest)
  ]

  symbols-remove :
      (P : Text → Type 0) (index : List (Text × T)) (k : Text)
      → All P (symbols index)
      → All P (symbols (remove index k))
  unfolding remove
  symbols-remove P [] k a = tt
  symbols-remove P (e ∷ index) k (a, rest) = elim (Bool-cases (text_eq e.0 k)) [
    | inl h ↦ rw (h) rest
    | inr h ↦ rw (h) (a, symbols-remove P index k rest)
  ]

  add-AreDistinct :
      (index : List (Text × T)) (k : Text) (v : T) → AreDistinct index → AreDistinct (add index k v)
  unfolding add
  add-AreDistinct [] k v a = (tt, tt)
  add-AreDistinct (e ∷ index) k v (a, rest) = elim (Bool-cases (text_eq e.0 k)) [
    | inl h ↦
        rw (h)
          (subst (λ x. All (λ y. text_eq x y ≡ false) (symbols index)) (text_eq-eq e.0 k h) a, rest)
    | inr h ↦
        rw (h)
          (symbols-add (λ x. text_eq e.0 x ≡ false) index k v h a, add-AreDistinct index k v rest)
  ]

  remove-AreDistinct :
      (index : List (Text × T)) (k : Text) → AreDistinct index → AreDistinct (remove index k)
  unfolding remove
  remove-AreDistinct [] k a = tt
  remove-AreDistinct (e ∷ index) k (a, rest) = elim (Bool-cases (text_eq e.0 k)) [
    | inl h ↦ rw (h) rest
    | inr h ↦
        rw (h)
          (symbols-remove (λ x. text_eq e.0 x ≡ false) index k a, remove-AreDistinct index k rest)
  ]

  call_lem :
      (index : List (Text × T)) (c : Call T)
      → AreDistinct index
      → AreDistinct (call index c) × (get (call index c) ≡ effect (get index) c)
  call_lem index (added k v) a = (add-AreDistinct index k v a, fun_ext (get-add index k v))
  call_lem index (removed k) a =
      (remove-AreDistinct index k a, fun_ext (λ s. get-remove index k s a))

  calls_lem :
      (index : List (Text × T)) (cs : List (Call T))
      → AreDistinct index
      → AreDistinct (calls index cs) × (get (calls index cs) ≡ effects (get index) cs)
  calls_lem index [] a = (a, refl)
  calls_lem index (c ∷ cs) a =
      let (b, now) = call_lem index c a in
      let (d, later) = calls_lem (call index c) cs b in (d, later ∙ ap (λ f. effects f cs) now)

  times-symbols :
      (index : List (Text × T)) (s : Text)
      → AreDistinct index
      → times s (symbols index) ≡ (if contains index s then 1 else 0)
  unfolding contains get
  times-symbols [] s a = refl
  times-symbols (e ∷ index) s (a, rest) = elim (Bool-cases (text_eq e.0 s)) [
    | inl h ↦ ground (arith, h, times-absent e.0 s (symbols index) h a)
    | inr h ↦ ground (arith, h, times-symbols index s rest)
  ]

  -- After any calls of `add` and `remove` on an empty index, `get` is the function that these calls
  -- build from the one that has no values, each changing it at its symbol only; and `symbols` has each
  -- symbol that is contained once, and no other.
  pub calls-refine :
      (cs : List (Call T))
      → (get (calls [] cs) ≡ effects (λ s. none) cs)
        × ((s : Text)
            → times s (symbols (calls [] cs)) ≡ (if contains (calls [] cs) s then 1 else 0))
  unfolding get
  calls-refine cs =
      let (a, same) = calls_lem [] cs tt in (same, λ s. times-symbols (calls [] cs) s a)

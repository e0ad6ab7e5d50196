-- ===== src/Queues/Fifo.antt =====
-- What the queues promise: a first-in first-out queue of at most `cap` entries. An implementation
-- fills `FifoImpl`; `run_impl_refines` is proved once, for all of them.
use quant_sim_x.Prelude.{
  ℕ, suc, ◌≡◌, refl, Bool, true, false, List, [], ◌∷◌, ◌++◌, Option, none, some, length, ltb,
  if◌then◌else◌,
}

pub data Op {ℓ} (A : Type ℓ) : Type ℓ where
  push_op : A → Op A
  pop_op : Op A

-- The Boolean result of a call, and what `pop` stored through its reference.
abbrev pub Reply {ℓ} : Type ℓ → Type ℓ
Reply A = Bool × Option A

module _ {ℓ} {A : Type ℓ} where
  abbrev pub push : ℕ → List A → A → Bool × List A
  push cap xs x = if ltb (length xs) cap then (true, xs ++ x ∷ []) else (false, xs)

  abbrev pub pop : List A → Bool × Option A × List A
  pop [] = (false, none, [])
  pop (x ∷ xs) = (true, some x, xs)

  pub run : ℕ → List A → List (Op A) → List (Reply A)
  run cap xs [] = []
  run cap xs (push_op x ∷ ops) = let (done, rest) = push cap xs x in (done, none) ∷ run cap rest ops
  run cap xs (pop_op ∷ ops) = let (done, out, rest) = pop xs in (done, out) ∷ run cap rest ops

-- `Holds q xs n`: the queue `q` holds the entries `xs`, oldest first, and its counters allow `n`
-- more calls.
pub record FifoImpl {ℓ} (A : Type ℓ) (cap : ℕ) : Type (ℓ + 1) where
  pub Queue : Type ℓ
  pub push_impl : Queue → A → Bool × Queue
  pub pop_impl : Queue → Bool × Option A × Queue
  pub Holds : Queue → List A → ℕ → Type ℓ
  pub push_law :
      (q : Queue) (xs : List A) (n : ℕ) (x : A)
      → Holds q xs (suc n)
      → ((push_impl q x).0 ≡ (push cap xs x).0) × Holds (push_impl q x).1 (push cap xs x).1 n
  pub pop_law :
      (q : Queue) (xs : List A) (n : ℕ)
      → Holds q xs (suc n)
      → ((pop_impl q).0 ≡ (pop xs).0)
        × ((pop_impl q).1 ≡ (pop xs).1)
        × Holds (pop_impl q).2 (pop xs).2 n

module _ {ℓ} {A : Type ℓ} (cap : ℕ) (impl : FifoImpl A cap) where
  open impl use {Queue, push_impl, pop_impl, Holds, push_law, pop_law}

  pub run_impl : Queue → List (Op A) → List (Reply A)
  run_impl q [] = []
  run_impl q (push_op x ∷ ops) =
      let (done, rest) = push_impl q x in (done, none) ∷ run_impl rest ops
  run_impl q (pop_op ∷ ops) = let (done, out, rest) = pop_impl q in (done, out) ∷ run_impl rest ops

  -- No sequence of calls that the counters allow tells the implementation from the bounded queue.
  pub run_impl_refines :
      (ops : List (Op A)) (q : Queue) (xs : List A)
      → Holds q xs (length ops)
      → run_impl q ops ≡ run cap xs ops
  unfolding run_impl run
  run_impl_refines [] q xs h = refl
  run_impl_refines (push_op x ∷ ops) q xs h =
      let (same, held) = push_law q xs (length ops) x h in
      rw (same, run_impl_refines ops (push_impl q x).1 (push cap xs x).1 held)
  run_impl_refines (pop_op ∷ ops) q xs h =
      let (same, out, held) = pop_law q xs (length ops) h in
      rw (same, out, run_impl_refines ops (pop_impl q).2 (pop xs).2 held)

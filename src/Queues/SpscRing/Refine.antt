-- ===== src/Queues/SpscRing/Refine.antt =====
-- `SPSCRingBuffer` against the bounded first-in first-out queue. The indices may wrap: the distance
-- between them is what counts, and it is right modulo 2^64.
use native.Mathlib.Nat.{pow-le-pow_right}
use quant_sim_x.Prelude.{
  sub64, ◌∙◌, ℕ, suc, ◌+◌, ◌%◌, ◌^◌, ◌≤◌, ◌<◌, ◌≡◌, List, [], ◌∷◌, arith, length, length-append,
  length-set, slot_of,
}
use quant_sim_x.Prelude.Bits.{bit_and_mask, mod-mod_two_pow}
use quant_sim_x.Queues.Window.{Window, Window-append}
use quant_sim_x.Queues.Fifo
use quant_sim_x.Queues.Fifo.{FifoImpl, Op, run_impl, run_impl_refines}
use quant_sim_x.Queues.SpscRing.{SpscRing, push, pop}

module _ (k : ℕ) (fits : k < 64) where
  small : 2 ^ k ≤ 2 ^ 63
  small = pow-le-pow_right (omega arith) {i = k} {j = 63} (omega arith)

  -- the slot of a wrapped index
  slot_of_wrapped : (i : ℕ) → slot_of (2 ^ k) (i % 2 ^ 64) ≡ i % 2 ^ k
  slot_of_wrapped i = bit_and_mask k (i % 2 ^ 64) ∙ mod-mod_two_pow k 64 i (omega arith)

  distance : (start n : ℕ) → n ≤ 2 ^ k → sub64 ((start + n) % 2 ^ 64) (start % 2 ^ 64) ≡ n
  distance start n h = omega (arith, small)

module _ {A : Type 0} (k : ℕ) (fits : k < 64) where
  -- The ring holds `xs`, oldest first; `start` is `read_idx_` as it would be without wrap-around.
  pub record HoldsFrom (start : ℕ) (q : SpscRing A) (xs : List A) : Type 0 where
    pub array : length q.slots ≡ 2 ^ k
    pub read_at : q.read_idx ≡ start % 2 ^ 64
    pub write_at : q.write_idx ≡ (start + length xs) % 2 ^ 64
    pub few : length xs ≤ 2 ^ k
    pub entries : Window (2 ^ k) q.slots start xs

  abbrev pub Holds : SpscRing A → List A → ℕ → Type 0
  Holds q xs n = (start : ℕ) × HoldsFrom start q xs

  pub push_law :
      (q : SpscRing A) (xs : List A) (n : ℕ) (x : A)
      → Holds q xs (suc n)
      → ((push (2 ^ k) q x).0 ≡ (Fifo.push (2 ^ k) xs x).0)
        × Holds (push (2 ^ k) q x).1 (Fifo.push (2 ^ k) xs x).1 n
  unfolding push
  push_law q xs n x (start, h) = (
    ground (arith, distance k fits start (length xs)),
    (
      start,
      ground (
        arith,
        distance k fits start (length xs),
        length-set q.slots (slot_of (2 ^ k) q.write_idx) x,
        length-append xs (x ∷ []),
        slot_of_wrapped k fits (start + length xs),
        Window-append (2 ^ k) q.slots start (slot_of (2 ^ k) q.write_idx) x xs,
      ),
    ),
  )

  pub pop_law :
      (q : SpscRing A) (xs : List A) (n : ℕ)
      → Holds q xs (suc n)
      → ((pop (2 ^ k) q).0 ≡ (Fifo.pop xs).0)
        × ((pop (2 ^ k) q).1 ≡ (Fifo.pop xs).1)
        × Holds (pop (2 ^ k) q).2 (Fifo.pop xs).2 n
  unfolding pop
  pop_law q [] n (start, h) = (ground arith, ground arith, (start, ground arith))
  pop_law q (x ∷ xs) n (start, h) = (
    ground (arith, small k fits),
    ground (arith, small k fits, slot_of_wrapped k fits start),
    (start + 1, ground (arith, small k fits)),
  )

  abbrev pub ring_fifo : FifoImpl A (2 ^ k)
  ring_fifo = record {
    Queue = SpscRing A;
    push_impl = push (2 ^ k);
    pop_impl = pop (2 ^ k);
    Holds = Holds;
    push_law = push_law;
    pop_law = pop_law;
  }

  -- Any sequence of calls of `push` and `pop`, however long, has the results of the first-in
  -- first-out queue of at most `Capacity` entries: the indices may wrap at 2^64.
  pub spsc_ring_refines :
      (ops : List (Op A)) (q : SpscRing A) (xs : List A) (start : ℕ)
      → HoldsFrom start q xs
      → run_impl (2 ^ k) ring_fifo q ops ≡ Fifo.run (2 ^ k) xs ops
  spsc_ring_refines ops q xs start h = run_impl_refines (2 ^ k) ring_fifo ops q xs (start, h)

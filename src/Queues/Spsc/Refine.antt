-- ===== src/Queues/Spsc/Refine.antt =====
-- `SPSCQueue` against the bounded first-in first-out queue.
use quant_sim_x.Prelude.{
  ℕ, suc, ◌+◌, ◌^◌, ◌≤◌, ◌<◌, ◌≡◌, true, List, [], ◌∷◌, arith, length, length-append, length-set,
  length-replicate, slot_of,
}
use quant_sim_x.Prelude.Bits.{bit_and_mask}
use quant_sim_x.Queues.Window.{Window, Window-append}
use quant_sim_x.Queues.Fifo
use quant_sim_x.Queues.Fifo.{FifoImpl, Op, run_impl, run_impl_refines}
use quant_sim_x.Queues.Spsc.{SpscQueue, next_pow2, make, push, pop, is_empty, size}

module _ {A : Type 0} (k : ℕ) where
  -- The queue holds `xs`, oldest first, and `write_pos_` stays below 2^64 for `n` more calls.
  pub record Holds (q : SpscQueue A) (xs : List A) (n : ℕ) : Type 0 where
    pub power : q.capacity ≡ 2 ^ k
    pub array : length q.buffer ≡ 2 ^ k
    pub ends : q.write_pos ≡ q.read_pos + length xs
    pub room : q.write_pos + n < 2 ^ 64
    pub few : length xs ≤ 2 ^ k
    pub entries : Window (2 ^ k) q.buffer q.read_pos xs

  pub push_law :
      (q : SpscQueue A) (xs : List A) (n : ℕ) (x : A)
      → Holds q xs (suc n)
      → ((push q x).0 ≡ (Fifo.push (2 ^ k) xs x).0)
        × Holds (push q x).1 (Fifo.push (2 ^ k) xs x).1 n
  unfolding push
  push_law q xs n x h = rw h.power (
      ground (
        arith,
        length-set q.buffer (slot_of (2 ^ k) q.write_pos) x,
        length-append xs (x ∷ []),
        bit_and_mask k q.write_pos,
        Window-append (2 ^ k) q.buffer q.read_pos (slot_of (2 ^ k) q.write_pos) x xs,
      ))

  pub pop_law :
      (q : SpscQueue A) (xs : List A) (n : ℕ)
      → Holds q xs (suc n)
      → ((pop q).0 ≡ (Fifo.pop xs).0)
        × ((pop q).1 ≡ (Fifo.pop xs).1)
        × Holds (pop q).2 (Fifo.pop xs).2 n
  unfolding pop
  pop_law q [] n h = ground arith
  pop_law q (x ∷ xs) n h = ground (arith, bit_and_mask k q.read_pos)

  abbrev pub spsc_fifo : FifoImpl A (2 ^ k)
  spsc_fifo = record {
    Queue = SpscQueue A;
    push_impl = push;
    pop_impl = pop;
    Holds = Holds;
    push_law = push_law;
    pop_law = pop_law;
  }

  make-Holds :
      (fill : A) (capacity n : ℕ)
      → next_pow2 capacity ≡ 2 ^ k
      → n < 2 ^ 64
      → Holds (make fill capacity) [] n
  unfolding make
  make-Holds fill capacity n e l = ground (arith, length-replicate (next_pow2 capacity) fill)

  -- A new queue whose rounded capacity is 2^k answers fewer than 2^64 calls of `push` and `pop` as
  -- the first-in first-out queue of at most 2^k entries.
  pub spsc_refines :
      (ops : List (Op A)) (fill : A) (capacity : ℕ)
      → next_pow2 capacity ≡ 2 ^ k
      → length ops < 2 ^ 64
      → run_impl (2 ^ k) spsc_fifo (make fill capacity) ops ≡ Fifo.run (2 ^ k) [] ops
  spsc_refines ops fill capacity e l =
      run_impl_refines (2 ^ k) spsc_fifo ops (make fill capacity) []
        (make-Holds fill capacity (length ops) e l)

  -- `size` is the number of entries, and `is_empty` says whether there are none.
  pub spsc_size :
      (q : SpscQueue A) (xs : List A) (n : ℕ)
      → Holds q xs n
      → (size q ≡ length xs) × (is_empty q ≡ true → xs ≡ []) × (xs ≡ [] → is_empty q ≡ true)
  unfolding size is_empty
  spsc_size q [] n h = ground arith
  spsc_size q (x ∷ xs) n h = ground arith

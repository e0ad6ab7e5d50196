-- ===== src/Queues/LockFree/Refine.antt =====
-- `LockFreeQueue` against the bounded first-in first-out queue.
use quant_sim_x.Prelude.{
  ℕ, zero, suc, ◌+◌, ◌^◌, ◌≤◌, ◌<◌, ◌≡◌, true, false, List, [], ◌∷◌, some, arith, length,
  length-append, length-set, add64, slot_of,
}
use quant_sim_x.Prelude.Bits.{bit_and_mask}
use quant_sim_x.Queues.Window.{Window, Window-append}
use quant_sim_x.Queues.Fifo
use quant_sim_x.Queues.Fifo.{FifoImpl, Op, run_impl, run_impl_refines}
use quant_sim_x.Queues.LockFree.{LockFreeQueue, push, pop, is_empty, size, clear}

module _ {A : Type 0} (k : ℕ) where
  -- The queue holds `xs`, oldest first, and `tail_` stays below 2^64 for `n` more calls.
  pub record Holds (q : LockFreeQueue A) (xs : List A) (n : ℕ) : Type 0 where
    pub array : length q.slots ≡ 2 ^ k
    pub ends : q.tail ≡ q.head + length xs
    pub room : q.tail + n < 2 ^ 64
    pub few : length xs ≤ 2 ^ k
    pub entries : Window (2 ^ k) q.slots q.head xs

  pub push_law :
      (q : LockFreeQueue A) (xs : List A) (n : ℕ) (x : A)
      → Holds q xs (suc n)
      → ((push (2 ^ k) q x).0 ≡ (Fifo.push (2 ^ k) xs x).0)
        × Holds (push (2 ^ k) q x).1 (Fifo.push (2 ^ k) xs x).1 n
  unfolding push
  push_law q xs n x h = ground (
    arith,
    length-set q.slots (slot_of (2 ^ k) q.tail) x,
    length-append xs (x ∷ []),
    bit_and_mask k q.tail,
    Window-append (2 ^ k) q.slots q.head (slot_of (2 ^ k) q.tail) x xs,
  )

  pub pop_law :
      (q : LockFreeQueue A) (xs : List A) (n : ℕ)
      → Holds q xs (suc n)
      → ((pop (2 ^ k) q).0 ≡ (Fifo.pop xs).0)
        × ((pop (2 ^ k) q).1 ≡ (Fifo.pop xs).1)
        × Holds (pop (2 ^ k) q).2 (Fifo.pop xs).2 n
  unfolding pop
  pop_law q [] n h = ground arith
  pop_law q (x ∷ xs) n h = ground (arith, bit_and_mask k q.head)

  abbrev pub lock_free_fifo : FifoImpl A (2 ^ k)
  lock_free_fifo = record {
    Queue = LockFreeQueue A;
    push_impl = push (2 ^ k);
    pop_impl = pop (2 ^ k);
    Holds = Holds;
    push_law = push_law;
    pop_law = pop_law;
  }

  -- Whatever calls of `push` and `pop` are made, as long as `tail_` does not reach 2^64, their
  -- results are those of the first-in first-out queue of at most `Capacity` entries.
  pub lock_free_refines :
      (ops : List (Op A)) (q : LockFreeQueue A) (xs : List A)
      → Holds q xs (length ops)
      → run_impl (2 ^ k) lock_free_fifo q ops ≡ Fifo.run (2 ^ k) xs ops
  lock_free_refines ops q xs h = run_impl_refines (2 ^ k) lock_free_fifo ops q xs h

  -- `size` is the number of entries, and `is_empty` says whether there are none.
  pub lock_free_size :
      (q : LockFreeQueue A) (xs : List A) (n : ℕ)
      → Holds q xs n
      → (size (2 ^ k) q ≡ length xs)
        × (is_empty (2 ^ k) q ≡ true → xs ≡ [])
        × (xs ≡ [] → is_empty (2 ^ k) q ≡ true)
  unfolding size is_empty
  lock_free_size q [] n h = ground arith
  lock_free_size q (x ∷ xs) n h = ground arith

  -- `clear` ends within one round more than there are entries, and leaves the queue empty, with
  -- `head_` at the old `tail_`.
  pub clear_lem :
      (xs : List A) (q : LockFreeQueue A) (n fuel : ℕ)
      → Holds q xs (suc n)
      → length xs < fuel
      → clear (2 ^ k) fuel q ≡ some (record q { head = q.tail })
  unfolding clear
  clear_lem xs q n zero h f = absurd (omega arith)
  clear_lem [] q n (suc fuel) h f = ground arith
  clear_lem (x ∷ xs) q n (suc fuel) h f =
      ground
        (arith, bit_and_mask k q.head, clear_lem xs (record q { head = add64 q.head 1 }) n fuel)

  -- Where the bound on the counters ends: the push that brings `tail_` to 2^64 succeeds, and the
  -- entries are lost to `pop`.
  pub push_wraps :
      (q : LockFreeQueue A) (xs : List A) (x : A)
      → Holds q xs 0
      → q.tail + 1 ≡ 2 ^ 64
      → length xs < 2 ^ k
      → let (done, q') = push (2 ^ k) q x in (done ≡ true) × ((pop (2 ^ k) q').0 ≡ false)
  unfolding push pop
  push_wraps q xs x h e l = ground arith

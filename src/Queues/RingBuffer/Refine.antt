-- ===== src/Queues/RingBuffer/Refine.antt =====
-- `RingBuffer` against the bounded first-in first-out queue, and its two ends.
use native.Mathlib.Nat.{mod-lt, mod-add-mod, mod-eq_of_lt, mod-mod}
use quant_sim_x.Prelude.{
  ℕ, suc, ◌+◌, ◌-◌, ◌%◌, ◌^◌, ◌≤◌, ◌<◌, ◌≡◌, sym, subst, ◌∙◌, ap, List, [], ◌∷◌, ◌++◌, some, arith,
  length, length-append, length-set, get_elem?, add64, sub64, slot_of,
}
use quant_sim_x.Prelude.Bits.{bit_and_mask, mod-mod_two_pow, pow_pos}
use quant_sim_x.Queues.Window.{Window, Window-append, Window-congr, Window-last}
use quant_sim_x.Queues.Fifo
use quant_sim_x.Queues.Fifo.{FifoImpl, Op, run_impl, run_impl_refines}
use quant_sim_x.Queues.RingBuffer.{RingBuffer, push, pop, back, front}

module _ (k : ℕ) (fits : k ≤ 64) where
  -- one slot on, round the end of the array
  next_slot : (i : ℕ) → slot_of (2 ^ k) (add64 i 1) ≡ (i + 1) % 2 ^ k
  next_slot i = bit_and_mask k (add64 i 1) ∙ mod-mod_two_pow k 64 (i + 1) fits

  step_back : (i : ℕ) → slot_of (2 ^ k) (sub64 ((i + 1) % 2 ^ k) 1) ≡ i % 2 ^ k
  step_back i =
      let top : ℕ = 2 ^ 64 in
      let low = λ (t : ℕ). t % 2 ^ k in
      bit_and_mask k (sub64 ((i + 1) % 2 ^ k) 1)
      ∙ mod-mod_two_pow k 64 ((i + 1) % 2 ^ k + top - 1) fits
      ∙ ap low (omega arith)
      ∙ mod-add-mod (i + 1) (2 ^ k) (top - 1)
      ∙ ap low (omega arith)
      ∙ sym (mod-mod_two_pow k 64 (i + top) fits)
      ∙ ap low (omega arith)
      ∙ mod-mod_two_pow k 64 i fits

suc_middle : (a b : ℕ) → a + 1 + b ≡ a + suc b
suc_middle a b = omega arith

module _ {A : Type 0} (k : ℕ) (fits : k ≤ 64) where
  -- The buffer holds `xs`, oldest first.
  pub record Holds (q : RingBuffer A) (xs : List A) (n : ℕ) : Type 0 where
    pub array : length q.items ≡ 2 ^ k
    pub counted : q.count ≡ length xs
    pub read_in : q.read_pos < 2 ^ k
    pub write_at : q.write_pos ≡ (q.read_pos + length xs) % 2 ^ k
    pub few : length xs ≤ 2 ^ k
    pub entries : Window (2 ^ k) q.items q.read_pos xs

  pub push_law :
      (q : RingBuffer A) (xs : List A) (n : ℕ) (x : A)
      → Holds q xs (suc n)
      → ((push (2 ^ k) q x).0 ≡ (Fifo.push (2 ^ k) xs x).0)
        × Holds (push (2 ^ k) q x).1 (Fifo.push (2 ^ k) xs x).1 n
  unfolding push
  push_law q xs n x h = ground (
    arith,
    next_slot k fits q.write_pos,
    length-set q.items q.write_pos x,
    length-append xs (x ∷ []),
    mod-add-mod (q.read_pos + length xs) (2 ^ k) 1,
    Window-append (2 ^ k) q.items q.read_pos q.write_pos x xs,
  )

  pub pop_law :
      (q : RingBuffer A) (xs : List A) (n : ℕ)
      → Holds q xs (suc n)
      → ((pop (2 ^ k) q).0 ≡ (Fifo.pop xs).0)
        × ((pop (2 ^ k) q).1 ≡ (Fifo.pop xs).1)
        × Holds (pop (2 ^ k) q).2 (Fifo.pop xs).2 n
  unfolding pop
  pop_law q [] n h = ground arith
  pop_law q (x ∷ xs) n h = ground (
    arith,
    next_slot k fits q.read_pos,
    mod-eq_of_lt {n = q.read_pos} {m = 2 ^ k} h.read_in,
    mod-lt (q.read_pos + 1) {m = 2 ^ k} (pow_pos k),
    mod-add-mod (q.read_pos + 1) (2 ^ k) (length xs),
    ap (λ t. t % 2 ^ k) (suc_middle q.read_pos (length xs)),
    Window-congr (2 ^ k) q.items (q.read_pos + 1) ((q.read_pos + 1) % 2 ^ k) xs
        (sym (mod-mod (q.read_pos + 1) (2 ^ k))),
  )

  abbrev pub buffer_fifo : FifoImpl A (2 ^ k)
  buffer_fifo = record {
    Queue = RingBuffer A;
    push_impl = push (2 ^ k);
    pop_impl = pop (2 ^ k);
    Holds = Holds;
    push_law = push_law;
    pop_law = pop_law;
  }

  -- Any sequence of calls of `push` and `pop` has the results of the first-in first-out queue of at
  -- most `Capacity` entries.
  pub ring_buffer_refines :
      (ops : List (Op A)) (q : RingBuffer A) (xs : List A)
      → Holds q xs (length ops)
      → run_impl (2 ^ k) buffer_fifo q ops ≡ Fifo.run (2 ^ k) xs ops
  ring_buffer_refines ops q xs h = run_impl_refines (2 ^ k) buffer_fifo ops q xs h

  -- `front` is the oldest entry and `back` the newest, also where `write_pos_` has come round to 0.
  pub ends_lem :
      (q : RingBuffer A) (x y : A) (xs ys : List A) (n : ℕ)
      → Holds q (x ∷ xs) n
      → x ∷ xs ≡ ys ++ y ∷ []
      → (front q ≡ some x) × (back (2 ^ k) q ≡ some y)
  unfolding front back
  ends_lem q x y xs ys n h e =
      let same : length (x ∷ xs) ≡ length ys + 1 = ap length e ∙ length-append ys (y ∷ []) in
      let last : Window (2 ^ k) q.items q.read_pos (ys ++ y ∷ []) =
        subst (Window (2 ^ k) q.items q.read_pos) e h.entries in
      let at_end : q.write_pos ≡ (q.read_pos + length ys + 1) % 2 ^ k =
        h.write_at ∙ ap (λ t. t % 2 ^ k) (omega arith) in
      (
        ap (get_elem? q.items) (sym (mod-eq_of_lt h.read_in)) ∙ h.entries.0,
        ap (λ t. get_elem? q.items (slot_of (2 ^ k) (sub64 t 1))) at_end
            ∙ ap (get_elem? q.items) (step_back k fits (q.read_pos + length ys))
            ∙ Window-last (2 ^ k) q.items q.read_pos y ys last,
      )

-- ===== src/Queues/TickBuffer/Clear.antt =====
-- `TickBuffer::clear`, and a buffer as it is constructed.
use quant_sim_x.Prelude.{
  ℕ, zero, suc, ◌+◌, ◌%◌, ◌≡◌, refl, ◌∙◌, false, List, [], ◌∷◌, All, map, arith, length, length-map,
  get_or, replicate,
}
use quant_sim_x.Queues.Fifo
use quant_sim_x.Queues.Fifo.{Op, run_impl}
use quant_sim_x.Queues.TickBuffer.{Tick, Slot, TickBuffer, release, clear}
use quant_sim_x.Queues.TickBuffer.Refine.{Holds, Free, tick_fifo, tick_buffer_refines}

module _ {W : Type 0} (blank : Tick W) where
  abbrev pub Idle : List (Slot W) → Type 0
  Idle slots = All (λ s. s.ready ≡ false) slots

  get_or-Idle :
      (slots : List (Slot W)) (i : ℕ)
      → Idle slots
      → (get_or slots i (record { ready = false; tick = blank })).ready ≡ false
  get_or-Idle [] i h = refl
  get_or-Idle (s ∷ slots) zero h = h.0
  get_or-Idle (s ∷ slots) (suc i) h = get_or-Idle slots i h.1

  Idle-Free : (slots : List (Slot W)) (h n : ℕ) → Idle slots → Free blank slots h n
  Idle-Free slots h zero a = tt
  Idle-Free slots h (suc n) a = (get_or-Idle slots (h % 1024) a, Idle-Free slots (h + 1) n a)

  released-Idle : (slots : List (Slot W)) → Idle (map release slots)
  released-Idle [] = tt
  released-Idle (s ∷ slots) = (refl, released-Idle slots)

  pub replicate-Idle : (n : ℕ) → Idle (replicate n (record { ready = false; tick = blank }))
  replicate-Idle zero = tt
  replicate-Idle (suc n) = (refl, replicate-Idle n)

  pub Idle-Holds :
      (slots : List (Slot W)) (n : ℕ)
      → length slots ≡ 1024
      → Idle slots
      → Holds blank (record { slots = slots; write_pos = 0; read_pos = 0 }) [] n
  Idle-Holds slots n e a = record {
    array = e;
    read_in = omega arith;
    write_at = refl;
    few = omega arith;
    entries = tt;
    free = Idle-Free slots 0 1024 a;
  }

  -- After `clear` the buffer answers any calls as an empty queue of at most 1023 ticks, whatever its
  -- slots and its two positions were, provided that there are 1024 slots.
  pub clear_refines :
      (ops : List (Op (Tick W))) (b : TickBuffer W)
      → length b.slots ≡ 1024
      → run_impl 1023 (tick_fifo blank) (clear b) ops ≡ Fifo.run 1023 [] ops
  unfolding clear
  clear_refines ops b e = tick_buffer_refines blank ops (clear b) [] (
      Idle-Holds (map release b.slots) (length ops) (length-map b.slots release ∙ e)
        (released-Idle b.slots))

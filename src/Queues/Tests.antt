-- ===== src/Queues/Tests.antt =====
-- Each theorem on the queues, on a concrete queue.
use quant_sim_x.Prelude.{
  ℕ, ◌-◌, ◌^◌, ◌<◌, length-replicate, ◌≡◌, refl, true, false, List, [], ◌∷◌, arith, replicate, some,
}
use quant_sim_x.Queues.Fifo
use quant_sim_x.Queues.Fifo.{Op, push_op, pop_op, run_impl}
use quant_sim_x.Queues.LockFree.{LockFreeQueue, clear}
use quant_sim_x.Queues.LockFree.Refine as LockFreeRefine
use quant_sim_x.Queues.Spsc
use quant_sim_x.Queues.Spsc.{SpscQueue, make, next_pow2}
use quant_sim_x.Queues.Spsc.Refine as SpscRefine
use quant_sim_x.Queues.SpscRing.{SpscRing}
use quant_sim_x.Queues.SpscRing.Refine as SpscRingRefine
use quant_sim_x.Queues.RingBuffer.{RingBuffer}
use quant_sim_x.Queues.RingBuffer.Refine as RingBufferRefine
use quant_sim_x.Queues.TickBuffer.{TickBuffer, Tick, Slot}
use quant_sim_x.Queues.TickBuffer.Refine as TickBufferRefine
use quant_sim_x.Queues.TickBuffer.Clear.{replicate-Idle, Idle-Holds}

-- Five calls: the third push finds a queue of two entries full.
abbrev calls : List (Op ℕ)
calls = push_op 7 ∷ push_op 8 ∷ push_op 9 ∷ pop_op ∷ push_op 10 ∷ []

-- A queue of two slots whose one entry, 5, is in slot 1.
abbrev lock_free_five : LockFreeQueue ℕ
lock_free_five = record { slots = 0 ∷ 5 ∷ []; head = 3; tail = 4 }

lock_free_five-Holds : (n : ℕ) → n < 1000 → LockFreeRefine.Holds 1 lock_free_five (5 ∷ []) n
lock_free_five-Holds n h = record {
  array = refl;
  ends = refl;
  room = omega arith;
  few = omega arith;
  entries = (refl, tt);
}

lock_free_refines_example :
    run_impl (2 ^ 1) (LockFreeRefine.lock_free_fifo 1) lock_free_five calls
    ≡ Fifo.run (2 ^ 1) (5 ∷ []) calls
lock_free_refines_example =
    LockFreeRefine.lock_free_refines 1 calls lock_free_five (5 ∷ [])
      (lock_free_five-Holds 5 (omega arith))

three_two : next_pow2 3 ≡ 2 ^ 2
unfolding next_pow2
three_two = refl

spsc_refines_example :
    run_impl (2 ^ 2) (SpscRefine.spsc_fifo 2) (make 0 3) calls ≡ Fifo.run (2 ^ 2) [] calls
spsc_refines_example = SpscRefine.spsc_refines 2 calls 0 3 three_two (omega arith)

abbrev five : List ℕ
five = 5 ∷ []

abbrev spsc_five : SpscQueue ℕ
spsc_five = record { capacity = 2; buffer = 0 ∷ 5 ∷ []; write_pos = 4; read_pos = 3 }

spsc_five-Holds : SpscRefine.Holds 1 spsc_five (5 ∷ []) 0
spsc_five-Holds = record {
  power = refl;
  array = refl;
  ends = refl;
  room = omega arith;
  few = omega arith;
  entries = (refl, tt);
}

spsc_size_example :
    (Spsc.size spsc_five ≡ 1)
    × (Spsc.is_empty spsc_five ≡ true → five ≡ [])
    × (five ≡ [] → Spsc.is_empty spsc_five ≡ true)
spsc_size_example = SpscRefine.spsc_size 1 spsc_five five 0 spsc_five-Holds

-- The indices of this one wrap at 2^64 within the five calls.
abbrev ring_five : SpscRing ℕ
ring_five = record { slots = 0 ∷ 5 ∷ []; write_idx = 0; read_idx = 2 ^ 64 - 1 }

ring_five-HoldsFrom : SpscRingRefine.HoldsFrom 1 (omega arith) (2 ^ 64 - 1) ring_five (5 ∷ [])
ring_five-HoldsFrom = record {
  array = refl;
  read_at = refl;
  write_at = refl;
  few = omega arith;
  entries = (refl, tt);
}

-- The one entry is in the last slot, so the place to write is slot 0.
abbrev buffer_five : RingBuffer ℕ
buffer_five = record { items = 0 ∷ 5 ∷ []; write_pos = 0; read_pos = 1; count = 1 }

buffer_five-Holds : (n : ℕ) → RingBufferRefine.Holds 1 (omega arith) buffer_five (5 ∷ []) n
buffer_five-Holds n = record {
  array = refl;
  counted = refl;
  read_in = omega arith;
  write_at = refl;
  few = omega arith;
  entries = (refl, tt);
}

-- The ticks carry prices in whole numbers.
abbrev tick : ℕ → Tick ℕ
tick p = record { timestamp_ms = 1000; price = p; qty = 1; bid = p; ask = p }

abbrev idle_slot : Slot ℕ
idle_slot = record { ready = false; tick = tick 0 }

abbrev no_ticks : TickBuffer ℕ
no_ticks = record { slots = replicate 1024 idle_slot; write_pos = 0; read_pos = 0 }

abbrev tick_calls : List (Op (Tick ℕ))
tick_calls = push_op (tick 101) ∷ pop_op ∷ pop_op ∷ []

no_ticks-Holds : (n : ℕ) → TickBufferRefine.Holds (tick 0) no_ticks [] n
no_ticks-Holds n =
    Idle-Holds (tick 0) (replicate 1024 idle_slot) n (length-replicate 1024 idle_slot)
      (replicate-Idle (tick 0) 1024)

tick_buffer_refines_example :
    run_impl 1023 (TickBufferRefine.tick_fifo (tick 0)) no_ticks tick_calls
    ≡ Fifo.run 1023 [] tick_calls
tick_buffer_refines_example =
    TickBufferRefine.tick_buffer_refines (tick 0) tick_calls no_ticks [] (no_ticks-Holds 3)

clear_lem_example :
    clear (2 ^ 1) 2 lock_free_five ≡ some (record lock_free_five { head = lock_free_five.tail })
clear_lem_example =
    LockFreeRefine.clear_lem 1 (5 ∷ []) lock_free_five 3 2 (lock_free_five-Holds 4 (omega arith))
      (omega arith)

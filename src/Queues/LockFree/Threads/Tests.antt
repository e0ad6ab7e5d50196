-- ===== src/Queues/LockFree/Threads/Tests.antt =====
-- The two threads over an array of two slots.
use quant_sim_x.Prelude.{ℕ, ◌≤◌, ◌≡◌, refl, ◌^◌, List, [], ◌∷◌, ◌++◌, length, arith}
use quant_sim_x.Queues.LockFree.Threads.{Move, produce, consume, run, start}
use quant_sim_x.Queues.LockFree.Threads.Order.{threads_in_order, IsApart}

-- The consumer begins before there is an item, and overtakes the second push.
abbrev moves : List (Move ℕ)
moves =
    consume
    ∷ produce 7
    ∷ produce 7
    ∷ produce 7
    ∷ consume
    ∷ produce 7
    ∷ consume
    ∷ produce 8
    ∷ consume
    ∷ consume
    ∷ consume
    ∷ []

threads_in_order_example :
    let s = run (2 ^ 1) 0 (start (0 ∷ 0 ∷ [])) moves in
    ((xs : List ℕ) × (s.pushed ≡ s.popped ++ xs) × (length xs ≤ 2 ^ 1))
    × IsApart 1 0 s.producer s.consumer
threads_in_order_example = threads_in_order 1 0 moves (0 ∷ 0 ∷ []) refl (omega arith)

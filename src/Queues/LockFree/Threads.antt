-- ===== src/Queues/LockFree/Threads.antt =====
-- One thread that calls `push` and one that calls `pop` (include/LockFreeQueue.h), access by access.
-- A move is the next access of one of them to the shared members; any list of moves is a schedule.
-- The accesses are taken as sequentially consistent, and `blank` stands for a read out of the array,
-- which does not occur.
pub mod Between
pub mod Order
mod Tests
use quant_sim_x.Prelude.{
  ℕ, ◌+◌, List, [], ◌∷◌, ◌++◌, get_or, set, leb, add64, sub64, slot_of, if◌then◌else◌,
}
use quant_sim_x.Queues.LockFree.{LockFreeQueue}

-- Where the producer stands in `push(item)`, with the locals that it has read.
pub data Producer {ℓ} (A : Type ℓ) : Type ℓ where
  resting : Producer A
  has_head : A → ℕ → Producer A
  has_both : A → ℕ → ℕ → Producer A
  has_written : A → ℕ → Producer A

-- Where the consumer stands in `pop`.
pub data Consumer {ℓ} (A : Type ℓ) : Type ℓ where
  waiting : Consumer A
  read_head : ℕ → Consumer A
  read_both : ℕ → ℕ → Consumer A
  read_item : A → ℕ → Consumer A

-- `pushed` and `popped` are the items of the calls that have returned true.
pub record System {ℓ} (A : Type ℓ) : Type ℓ where
  pub queue : LockFreeQueue A
  pub producer : Producer A
  pub consumer : Consumer A
  pub pushed : List A
  pub popped : List A

pub data Move {ℓ} (A : Type ℓ) : Type ℓ where
  produce : A → Move A
  consume : Move A

module _ {ℓ} {A : Type ℓ} (capacity : ℕ) (blank : A) where
  -- the producer's next access; `item` is the argument of the call that it begins
  pub push_move : A → Producer A → System A → System A
  push_move item resting s = record s { producer = has_head item s.queue.head }
  push_move _ (has_head item head) s = record s { producer = has_both item head s.queue.tail }
  push_move _ (has_both item head tail) s =
      if leb capacity (sub64 tail head) then record s { producer = resting } else record s {
        queue = record (s.queue) { slots = set s.queue.slots (slot_of capacity tail) item };
        producer = has_written item tail;
      }
  push_move _ (has_written item tail) s = record s {
    queue = record (s.queue) { tail = add64 tail 1 };
    producer = resting;
    pushed = s.pushed ++ item ∷ [];
  }

  pub pop_move : Consumer A → System A → System A
  pop_move waiting s = record s { consumer = read_head s.queue.head }
  pop_move (read_head head) s = record s { consumer = read_both head s.queue.tail }
  pop_move (read_both head tail) s =
      if leb tail head then record s { consumer = waiting } else record s {
        consumer = read_item (get_or s.queue.slots (slot_of capacity head) blank) head;
      }
  pop_move (read_item item head) s = record s {
    queue = record (s.queue) { head = add64 head 1 };
    consumer = waiting;
    popped = s.popped ++ item ∷ [];
  }

  pub move : System A → Move A → System A
  unfolding push_move pop_move
  move s (produce item) = push_move item s.producer s
  move s consume = pop_move s.consumer s

  pub run : System A → List (Move A) → System A
  unfolding move
  run s [] = s
  run s (m ∷ ms) = run (move s m) ms

module _ {ℓ} {A : Type ℓ} where
  -- a new queue over the array `slots`
  abbrev pub start : List A → System A
  start slots = record {
    queue = record { slots = slots; head = 0; tail = 0 };
    producer = resting;
    consumer = waiting;
    pushed = [];
    popped = [];
  }

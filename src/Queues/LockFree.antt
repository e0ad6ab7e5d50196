-- ===== src/Queues/LockFree.antt =====
-- `LockFreeQueue<T, Capacity>` (include/LockFreeQueue.h), called from one thread at a time; two threads
-- are in Threads.
pub mod Refine
pub mod Threads
use quant_sim_x.Prelude.{
  ℕ, zero, suc, ◌-◌, Bool, true, false, Option, none, some, List, get_elem?, set, ltb, leb, add64,
  sub64, slot_of, if◌then◌else◌,
}

-- `slots_` holds one entry a slot; `head_` and `tail_` run freely.
pub record LockFreeQueue {ℓ} (A : Type ℓ) : Type ℓ where
  pub slots : List A
  pub head : ℕ
  pub tail : ℕ

module _ {ℓ} {A : Type ℓ} (capacity : ℕ) where
  pub push : LockFreeQueue A → A → Bool × LockFreeQueue A
  push q item = if leb capacity (sub64 q.tail q.head) then (false, q) else (
    true,
    record q { slots = set q.slots (slot_of capacity q.tail) item; tail = add64 q.tail 1 },
  )

  -- The option is what goes through `item`.
  pub pop : LockFreeQueue A → Bool × Option A × LockFreeQueue A
  pop q =
      if leb q.tail q.head
      then (false, none, q)
      else (true, get_elem? q.slots (slot_of capacity q.head), record q { head = add64 q.head 1 })

  pub is_empty : LockFreeQueue A → Bool
  is_empty q = leb q.tail q.head

  pub size : LockFreeQueue A → ℕ
  size q = if ltb q.head q.tail then q.tail - q.head else 0

  -- `while (pop(dummy)) {}`; `none` means that the fuel ran out.
  pub clear : ℕ → LockFreeQueue A → Option (LockFreeQueue A)
  unfolding pop
  clear zero q = none
  clear (suc fuel) q =
      let (done, out, next) = pop q in
      let rest = clear fuel next in if done then rest else some next

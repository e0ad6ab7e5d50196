-- ===== src/Queues/SpscRing.antt =====
-- `SPSCRingBuffer<T, Capacity>` (include/HFTPerf.h). `pop` and `empty` test the indices for
-- equality, where the other two queues test an order.
pub mod Refine
use quant_sim_x.Prelude.{
  ℕ, ◌-◌, Bool, true, false, Option, none, List, get_elem?, set, ltb, leb, ◌==◌, add64, sub64,
  slot_of, if◌then◌else◌,
}

pub record SpscRing {ℓ} (A : Type ℓ) : Type ℓ where
  pub slots : List A
  pub write_idx : ℕ
  pub read_idx : ℕ

module _ {ℓ} {A : Type ℓ} where
  pub push : ℕ → SpscRing A → A → Bool × SpscRing A
  push capacity q item = if leb capacity (sub64 q.write_idx q.read_idx) then (false, q) else (
    true,
    record q {
      slots = set q.slots (slot_of capacity q.write_idx) item;
      write_idx = add64 q.write_idx 1;
    },
  )

  pub pop : ℕ → SpscRing A → Bool × Option A × SpscRing A
  pop capacity q = if q.write_idx == q.read_idx then (false, none, q) else (
    true,
    get_elem? q.slots (slot_of capacity q.read_idx),
    record q { read_idx = add64 q.read_idx 1 },
  )

  pub empty : SpscRing A → Bool
  empty q = q.write_idx == q.read_idx

  pub size : SpscRing A → ℕ
  size q = if ltb q.read_idx q.write_idx then q.write_idx - q.read_idx else 0

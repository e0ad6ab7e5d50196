-- ===== src/Queues/RingBuffer.antt =====
-- `RingBuffer<T, Capacity>` (include/VWAPCalculator.h). `begin` and `end` give the raw array, from
-- slot 0 on, whatever `read_pos_` is.
pub mod Refine
use quant_sim_x.Prelude.{
  ℕ, ◌+◌, ◌-◌, Bool, true, false, Option, none, List, get_elem?, set, take, leb, ◌==◌, add64, sub64,
  slot_of, if◌then◌else◌,
}

pub record RingBuffer {ℓ} (A : Type ℓ) : Type ℓ where
  pub items : List A
  pub write_pos : ℕ
  pub read_pos : ℕ
  pub count : ℕ

module _ {ℓ} {A : Type ℓ} where
  unfoldable pub push : ℕ → RingBuffer A → A → Bool × RingBuffer A
  push capacity q item = if leb capacity q.count then (false, q) else (
    true,
    record q {
      items = set q.items q.write_pos item;
      write_pos = slot_of capacity (add64 q.write_pos 1);
      count = q.count + 1;
    },
  )

  pub pop : ℕ → RingBuffer A → Bool × Option A × RingBuffer A
  pop capacity q = if q.count == 0 then (false, none, q) else (
    true,
    get_elem? q.items q.read_pos,
    record q { read_pos = slot_of capacity (add64 q.read_pos 1); count = q.count - 1 },
  )

  -- `none` stands for a read out of the array.
  pub back : ℕ → RingBuffer A → Option A
  back capacity q = get_elem? q.items (slot_of capacity (sub64 q.write_pos 1))

  pub front : RingBuffer A → Option A
  front q = get_elem? q.items q.read_pos

  pub clear : RingBuffer A → RingBuffer A
  clear q = record q { write_pos = 0; read_pos = 0; count = 0 }

  pub empty : RingBuffer A → Bool
  empty q = q.count == 0

  pub full : ℕ → RingBuffer A → Bool
  full capacity q = leb capacity q.count

  abbrev pub size : RingBuffer A → ℕ
  size q = q.count

  -- `[begin(), end())`
  abbrev pub span : RingBuffer A → List A
  span q = take q.count q.items

-- ===== src/Queues/Spsc.antt =====
-- `SPSCQueue<T>` (include/HFT.h): the capacity is rounded up to a power of two when it is built.
pub mod Refine
pub mod Capacity
use Prim.Native.Nat.{bit_or}
use quant_sim_x.Prelude.{
  ℕ, ◌+◌, ◌-◌, ◌/◌, ◌^◌, Bool, true, false, Option, none, List, get_elem?, set, ltb, leb, add64,
  sub64, slot_of, replicate, if◌then◌else◌,
}

pub record SpscQueue {ℓ} (A : Type ℓ) : Type ℓ where
  pub capacity : ℕ
  pub buffer : List A
  pub write_pos : ℕ
  pub read_pos : ℕ

-- `n |= n >> s`
abbrev pub smear : ℕ → ℕ → ℕ
smear s n = bit_or n (n / 2 ^ s)

unfoldable pub next_pow2 : ℕ → ℕ
next_pow2 n = add64 (smear 32 (smear 16 (smear 8 (smear 4 (smear 2 (smear 1 (sub64 n 1))))))) 1

module _ {ℓ} {A : Type ℓ} where
  -- `new T[capacity_]`, whose entries are whatever `fill` stands for
  pub make : A → ℕ → SpscQueue A
  make fill capacity = record {
    capacity = next_pow2 capacity;
    buffer = replicate (next_pow2 capacity) fill;
    write_pos = 0;
    read_pos = 0;
  }

  pub push : SpscQueue A → A → Bool × SpscQueue A
  push q item = if leb q.capacity (sub64 q.write_pos q.read_pos) then (false, q) else (
    true,
    record q {
      buffer = set q.buffer (slot_of q.capacity q.write_pos) item;
      write_pos = add64 q.write_pos 1;
    },
  )

  pub pop : SpscQueue A → Bool × Option A × SpscQueue A
  pop q = if leb q.write_pos q.read_pos then (false, none, q) else (
    true,
    get_elem? q.buffer (slot_of q.capacity q.read_pos),
    record q { read_pos = add64 q.read_pos 1 },
  )

  pub is_empty : SpscQueue A → Bool
  is_empty q = leb q.write_pos q.read_pos

  pub size : SpscQueue A → ℕ
  size q = if ltb q.read_pos q.write_pos then q.write_pos - q.read_pos else 0

-- ===== src/Queues/TickBuffer.antt =====
-- `TickBuffer` (include/TickBuffer.h): a ring of slots with a ready flag each. One slot stays free.
pub mod Refine
pub mod Clear
use quant_sim_x.Prelude.{
  ℕ, ◌+◌, ◌-◌, ◌%◌, Bool, true, false, Option, none, some, List, map, get_or, set, leb, ◌==◌,
  if◌then◌else◌,
}

abbrev pub buffer_size : ℕ
buffer_size = 1024

-- what `push` takes and `pop` gives back
pub record Tick {ℓ} (W : Type ℓ) : Type ℓ where
  pub timestamp_ms : ℕ
  pub price : W
  pub qty : W
  pub bid : W
  pub ask : W

pub record Slot {ℓ} (W : Type ℓ) : Type ℓ where
  pub ready : Bool
  pub tick : Tick W

pub record TickBuffer {ℓ} (W : Type ℓ) : Type ℓ where
  pub slots : List (Slot W)
  pub write_pos : ℕ
  pub read_pos : ℕ

-- `slot.ready.store(false)`
abbrev pub release {ℓ} : {W : Type ℓ} → Slot W → Slot W
release s = record s { ready = false }

module _ {ℓ} {W : Type ℓ} where
  pub push : TickBuffer W → Tick W → Bool × TickBuffer W
  push b t =
      let next_wp = (b.write_pos + 1) % buffer_size in
      if next_wp == b.read_pos then (false, b) else (
        true,
        record b {
          slots = set b.slots b.write_pos (record { ready = true; tick = t });
          write_pos = next_wp;
        },
      )

  -- The option is what goes out through the references.
  -- `blank` is the tick of a slot as it is constructed; it also stands for a read out of the array,
  -- which does not occur.
  pub pop : Tick W → TickBuffer W → Bool × Option (Tick W) × TickBuffer W
  pop blank b =
      let slot : Slot W = get_or b.slots b.read_pos (record { ready = false; tick = blank }) in
      if slot.ready
      then (
        true,
        some slot.tick,
        record b {
          slots = set b.slots b.read_pos (release slot);
          read_pos = (b.read_pos + 1) % buffer_size;
        },
      )
      else (false, none, b)

  pub available : TickBuffer W → ℕ
  available b =
      if leb b.read_pos b.write_pos
      then b.write_pos - b.read_pos
      else buffer_size - b.read_pos + b.write_pos

  pub clear : TickBuffer W → TickBuffer W
  clear b = record { slots = map release b.slots; write_pos = 0; read_pos = 0 }

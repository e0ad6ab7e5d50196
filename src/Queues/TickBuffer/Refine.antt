-- ===== src/Queues/TickBuffer/Refine.antt =====
-- `TickBuffer` against the first-in first-out queue of at most 1023 ticks.
use mathlib.Core.List.{map-append}
use mathlib.Core.Option.{some-injective}
use quant_sim_x.Prelude.{
  ℕ, zero, suc, ◌+◌, ◌-◌, ◌%◌, ◌≤◌, ◌<◌, ◌≡◌, refl, sym, ap, ◌∙◌, subst, true, false, List, [], ◌∷◌,
  map, arith, length, length-append, length-set, length-map, get_elem?, get_or, set,
  get_or-set_self, get_or-set_ne, get_elem?-eq-get_or,
}
use quant_sim_x.Queues.Window.{Window, Window-set, Window-append, Window-congr, mod-ne-add_mod}
use quant_sim_x.Queues.Fifo
use quant_sim_x.Queues.Fifo.{FifoImpl, Op, run_impl, run_impl_refines}
use quant_sim_x.Queues.TickBuffer.{Tick, Slot, TickBuffer, release, push, pop, available}

module _ {W : Type 0} (blank : Tick W) where
  abbrev fresh : Slot W
  fresh = record { ready = false; tick = blank }

  abbrev filled : Tick W → Slot W
  filled t = record { ready = true; tick = t }

  -- The `n` slots from the index `h` on are not ready.
  abbrev pub Free : List (Slot W) → ℕ → ℕ → Type 0
  Free slots h zero = Unit
  Free slots h (suc n) = ((get_or slots (h % 1024) fresh).ready ≡ false) × Free slots (h + 1) n

  Free-set :
      (slots : List (Slot W)) (h m i n : ℕ) (v : Slot W)
      → n ≤ m
      → m < 1024
      → i ≡ (h + m) % 1024
      → Free slots h n
      → Free (set slots i v) h n
  Free-set slots h m i zero v l c p f = tt
  Free-set slots h zero i (suc n) v l c p f = absurd (omega arith)
  Free-set slots h (suc m) i (suc n) v l c p (e, f) = (
    ap (λ s. s.ready)
          (get_or-set_ne slots i (h % 1024) v fresh
            (λ q. mod-ne-add_mod 1024 h (suc m) (omega arith) c (sym p ∙ q)))
        ∙ e,
    Free-set slots (h + 1) m i n v (omega arith) (omega arith) (omega arith) f,
  )

  -- A slot that becomes free just past the free ones.
  Free-append :
      (slots : List (Slot W)) (h i n : ℕ) (v : Slot W)
      → n < 1024
      → length slots ≡ 1024
      → i ≡ (h + n) % 1024
      → v.ready ≡ false
      → Free slots h n
      → Free (set slots i v) h (suc n)
  Free-append slots h i zero v l c p r f =
      let at_start : i ≡ h % 1024 = omega arith in
      (
        rw at_start
            (ap (λ s. s.ready) (get_or-set_self slots (h % 1024) v fresh (omega arith)) ∙ r),
        tt,
      )
  Free-append slots h i (suc n) v l c p r (e, f) = (
    ap (λ s. s.ready)
          (get_or-set_ne slots i (h % 1024) v fresh
            (λ q. mod-ne-add_mod 1024 h (suc n) (omega arith) l (sym p ∙ q)))
        ∙ e,
    Free-append slots (h + 1) i n v (omega arith) c (omega arith) r f,
  )

  Free-congr :
      (slots : List (Slot W)) (h h' n : ℕ) → h % 1024 ≡ h' % 1024 → Free slots h n → Free slots h' n
  Free-congr slots h h' zero p f = tt
  Free-congr slots h h' (suc n) p (e, f) =
      (rw (← p) e, Free-congr slots (h + 1) (h' + 1) n (omega arith) f)

  -- A push takes the first free slot.
  Free-push :
      (slots : List (Slot W)) (r len i : ℕ) (v : Slot W)
      → len < 1023
      → i ≡ (r + len) % 1024
      → Free slots (r + len) (1024 - len)
      → Free (set slots i v) (r + suc len) (1024 - suc len)
  Free-push slots r len i v l p f =
      let gap : 1024 - len ≡ suc (1024 - suc len) = omega arith in
      let rest = (subst (Free slots (r + len)) gap f).1 in
      Free-congr (set slots i v) (r + len + 1) (r + suc len) (1024 - suc len) (omega arith) (
        Free-set slots (r + len + 1) 1023 i (1024 - suc len) v (omega arith) (omega arith)
          (omega arith) rest)

  -- A pop frees the slot behind the last free one.
  Free-pop :
      (slots : List (Slot W)) (r len : ℕ) (v : Slot W)
      → len < 1023
      → r < 1024
      → length slots ≡ 1024
      → v.ready ≡ false
      → Free slots (r + suc len) (1024 - suc len)
      → Free (set slots r v) ((r + 1) % 1024 + len) (1024 - len)
  Free-pop slots r len v l lr c e f =
      let gap : suc (1024 - suc len) ≡ 1024 - len = omega arith in
      Free-congr (set slots r v) (r + suc len) ((r + 1) % 1024 + len) (1024 - len) (omega arith) (
        subst (Free (set slots r v) (r + suc len)) gap
          (Free-append slots (r + suc len) r (1024 - suc len) v (omega arith) c (omega arith) e f))

  -- The buffer holds `xs`, oldest first: their slots are ready, and no other is.
  pub record Holds (b : TickBuffer W) (xs : List (Tick W)) (n : ℕ) : Type 0 where
    pub array : length b.slots ≡ 1024
    pub read_in : b.read_pos < 1024
    pub write_at : b.write_pos ≡ (b.read_pos + length xs) % 1024
    pub few : length xs ≤ 1023
    pub entries : Window 1024 b.slots b.read_pos (map filled xs)
    pub free : Free b.slots (b.read_pos + length xs) (1024 - length xs)

  pub push_law :
      (b : TickBuffer W) (xs : List (Tick W)) (n : ℕ) (x : Tick W)
      → Holds b xs (suc n)
      → ((push b x).0 ≡ (Fifo.push 1023 xs x).0) × Holds (push b x).1 (Fifo.push 1023 xs x).1 n
  unfolding push
  push_law b xs n x h = ground (
    arith,
    length-set b.slots b.write_pos (filled x),
    length-append xs (x ∷ []),
    map-append filled xs (x ∷ []),
    length-map xs filled,
    Window-append 1024 b.slots b.read_pos b.write_pos (filled x) (map filled xs),
    Free-push b.slots b.read_pos (length xs) b.write_pos (filled x),
  )

  front_slot :
      (b : TickBuffer W) (x : Tick W) (xs : List (Tick W)) (n : ℕ)
      → Holds b (x ∷ xs) n
      → get_or b.slots b.read_pos fresh ≡ filled x
  front_slot b x xs n h =
      let at : b.read_pos % 1024 ≡ b.read_pos = omega arith in
      some-injective _ _ (
        sym (get_elem?-eq-get_or b.slots b.read_pos fresh (omega arith))
        ∙ ap (get_elem? b.slots) (sym at)
        ∙ h.entries.0)

  popped :
      (b : TickBuffer W) (x : Tick W) (xs : List (Tick W)) (n : ℕ)
      → Holds b (x ∷ xs) (suc n)
      → Holds
          (record {
            slots = set b.slots b.read_pos (release (filled x));
            write_pos = b.write_pos;
            read_pos = (b.read_pos + 1) % 1024;
          })
          xs
          n
  popped b x xs n h = record {
    array = length-set b.slots b.read_pos (release (filled x)) ∙ h.array;
    read_in = omega arith;
    write_at = omega (arith, h.write_at);
    few = omega (arith, h.few);
    entries =
        Window-congr 1024 (set b.slots b.read_pos (release (filled x))) (b.read_pos + 1)
          ((b.read_pos + 1) % 1024) (map filled xs) (omega arith)
          (Window-set 1024 b.slots (b.read_pos + 1) 1023 b.read_pos (release (filled x))
            (map filled xs) (omega (arith, length-map xs filled, h.few)) (omega arith)
            (omega (arith, h.read_in)) h.entries.1);
    free =
        Free-pop b.slots b.read_pos (length xs) (release (filled x)) (omega (arith, h.few))
          h.read_in h.array refl h.free;
  }

  empty_slot :
      (b : TickBuffer W) (n : ℕ) → Holds b [] n → (get_or b.slots b.read_pos fresh).ready ≡ false
  empty_slot b n h =
      let at : (b.read_pos + 0) % 1024 ≡ b.read_pos = omega (arith, h.read_in) in
      subst (λ t. (get_or b.slots t fresh).ready ≡ false) at h.free.0

  -- The positions wrap around, so no number of calls is too many.
  pub Holds-calls : (b : TickBuffer W) (xs : List (Tick W)) (n m : ℕ) → Holds b xs n → Holds b xs m
  Holds-calls b xs n m h = record {
    array = h.array;
    read_in = h.read_in;
    write_at = h.write_at;
    few = h.few;
    entries = h.entries;
    free = h.free;
  }

  pub pop_law :
      (b : TickBuffer W) (xs : List (Tick W)) (n : ℕ)
      → Holds b xs (suc n)
      → ((pop blank b).0 ≡ (Fifo.pop xs).0)
        × ((pop blank b).1 ≡ (Fifo.pop xs).1)
        × Holds (pop blank b).2 (Fifo.pop xs).2 n
  unfolding pop
  pop_law b [] n h = rw (empty_slot b (suc n) h, pop) (refl, refl, Holds-calls b [] (suc n) n h)
  pop_law b (x ∷ xs) n h = rw (front_slot b x xs (suc n) h, pop) (refl, refl, popped b x xs n h)

  abbrev pub tick_fifo : FifoImpl (Tick W) 1023
  tick_fifo = record {
    Queue = TickBuffer W;
    push_impl = push;
    pop_impl = pop blank;
    Holds = Holds;
    push_law = push_law;
    pop_law = pop_law;
  }

  -- Any sequence of calls of `push` and `pop` has the results of the first-in first-out queue of at
  -- most 1023 ticks.
  pub tick_buffer_refines :
      (ops : List (Op (Tick W))) (b : TickBuffer W) (xs : List (Tick W))
      → Holds b xs (length ops)
      → run_impl 1023 tick_fifo b ops ≡ Fifo.run 1023 xs ops
  tick_buffer_refines ops b xs h = run_impl_refines 1023 tick_fifo ops b xs h

  -- `available` is the number of ticks that wait.
  pub available_lem :
      (b : TickBuffer W) (xs : List (Tick W)) (n : ℕ) → Holds b xs n → available b ≡ length xs
  unfolding available
  available_lem b xs n h = ground arith

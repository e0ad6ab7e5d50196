-- ===== src/Queues/LockFree/Threads/Order.antt =====
-- What the consumer gets, under every schedule.
use quant_sim_x.Prelude.{
  ℕ, suc, ◌+◌, ◌%◌, ◌^◌, ◌≤◌, ◌<◌, ◌≡◌, ◌≢◌, refl, sym, ap, ◌∙◌, subst, List, [], ◌∷◌, ◌++◌, false,
  arith, length, get_or, leb, sub64, slot_of, Bool-cases, inl, inr,
}
use quant_sim_x.Queues.Window.{mod-ne-add_mod}
use quant_sim_x.Queues.LockFree.Threads.{
  Producer, resting, has_head, has_both, has_written, Consumer, waiting, read_head, read_both,
  read_item, System, Move, produce, consume, push_move, pop_move, move, run, start,
}
use quant_sim_x.Queues.LockFree.Threads.Between.{
  IsProducing, IsConsuming, IsBetween, slot, written-IsBetween, stored-IsBetween, read-IsConsuming,
  popped-IsBetween,
}

module _ {A : Type 0} (k : ℕ) (blank : A) where
  push_move-IsBetween :
      (item : A) (p : Producer A) (s : System A) (xs : List A) (n : ℕ)
      → s.producer ≡ p
      → IsBetween k blank s xs (suc n)
      → (ys : List A) × IsBetween k blank (push_move (2 ^ k) blank item p s) ys n
  unfolding push_move
  push_move-IsBetween item resting s xs n e v = (
    xs,
    record {
      array = v.array;
      ends = v.ends;
      room = omega (arith, v.room);
      few = v.few;
      entries = v.entries;
      in_order = v.in_order;
      producing = omega arith;
      consuming = v.consuming;
    },
  )
  push_move-IsBetween item (has_head it head) s xs n e v = (
    xs,
    record {
      array = v.array;
      ends = v.ends;
      room = omega (arith, v.room);
      few = v.few;
      entries = v.entries;
      in_order = v.in_order;
      producing = (
        subst (IsProducing k blank s.queue.slots s.queue.head s.queue.tail (length xs)) e
            v.producing,
        refl,
      );
      consuming = v.consuming;
    },
  )
  push_move-IsBetween item (has_both it head tail) s xs n e v =
      let p =
        subst (IsProducing k blank s.queue.slots s.queue.head s.queue.tail (length xs)) e
          v.producing in
      elim (Bool-cases (leb (2 ^ k) (sub64 tail head))) [
        | inl f ↦ (
          xs,
          rw (f, push_move)
              (record {
                array = v.array;
                ends = v.ends;
                room = omega (arith, v.room);
                few = v.few;
                entries = v.entries;
                in_order = v.in_order;
                producing = tt;
                consuming = v.consuming;
              }),
        )
        | inr f ↦ (xs, rw (f, push_move) (written-IsBetween k blank it head tail s xs n p f v))
      ]
  push_move-IsBetween item (has_written it tail) s xs n e v =
      let p =
        subst (IsProducing k blank s.queue.slots s.queue.head s.queue.tail (length xs)) e
          v.producing in
      (xs ++ it ∷ [], stored-IsBetween k blank it tail s xs n p v)

  -- A consumer that has only read, or returned false.
  consumer-IsBetween :
      (c : Consumer A) (s : System A) (xs : List A) (n : ℕ)
      → IsBetween k blank s xs (suc n)
      → IsConsuming k blank s.queue.head s.queue.tail xs c
      → IsBetween k blank (record s { consumer = c }) xs n
  consumer-IsBetween c s xs n v w = record {
    array = v.array;
    ends = v.ends;
    room = omega (arith, v.room);
    few = v.few;
    entries = v.entries;
    in_order = v.in_order;
    producing = v.producing;
    consuming = w;
  }

  pop_move-IsBetween :
      (c : Consumer A) (s : System A) (xs : List A) (n : ℕ)
      → s.consumer ≡ c
      → IsBetween k blank s xs (suc n)
      → (ys : List A) × IsBetween k blank (pop_move (2 ^ k) blank c s) ys n
  unfolding pop_move
  pop_move-IsBetween waiting s xs n e v =
      (xs, consumer-IsBetween (read_head s.queue.head) s xs n v refl)
  pop_move-IsBetween (read_head head) s xs n e v =
      let w = subst (IsConsuming k blank s.queue.head s.queue.tail xs) e v.consuming in
      (xs, consumer-IsBetween (read_both head s.queue.tail) s xs n v (w, omega arith))
  pop_move-IsBetween (read_both head tail) s xs n e v =
      let w = subst (IsConsuming k blank s.queue.head s.queue.tail xs) e v.consuming in
      elim (Bool-cases (leb tail head)) [
        | inl f ↦ (xs, rw (f, pop_move) (consumer-IsBetween waiting s xs n v tt))
        | inr f ↦ (
          xs,
          rw (f, pop_move)
              (consumer-IsBetween
                (read_item (get_or s.queue.slots (slot_of (2 ^ k) head) blank) head) s xs n v
                (read-IsConsuming k blank head tail s xs (suc n) w f v)),
        )
      ]
  pop_move-IsBetween (read_item it head) s [] n e v =
      absurd (subst (IsConsuming k blank s.queue.head s.queue.tail []) e v.consuming)
  pop_move-IsBetween (read_item it head) s (x ∷ xs) n e v =
      let w = subst (IsConsuming k blank s.queue.head s.queue.tail (x ∷ xs)) e v.consuming in
      (xs, popped-IsBetween k blank it head s x xs n w v)

  move-IsBetween :
      (m : Move A) (s : System A) (xs : List A) (n : ℕ)
      → IsBetween k blank s xs (suc n)
      → (ys : List A) × IsBetween k blank (move (2 ^ k) blank s m) ys n
  unfolding move
  move-IsBetween (produce item) s xs n v = push_move-IsBetween item s.producer s xs n refl v
  move-IsBetween consume s xs n v = pop_move-IsBetween s.consumer s xs n refl v

  run-IsBetween :
      (ms : List (Move A)) (s : System A) (xs : List A) (n : ℕ)
      → IsBetween k blank s xs (length ms + n)
      → (ys : List A) × IsBetween k blank (run (2 ^ k) blank s ms) ys n
  unfolding run
  run-IsBetween [] s xs n v = (xs, subst (IsBetween k blank s xs) (omega arith) v)
  run-IsBetween (m ∷ ms) s xs n v =
      let (ys, w) =
        move-IsBetween m s xs (length ms + n) (subst (IsBetween k blank s xs) (omega arith) v) in
      run-IsBetween ms (move (2 ^ k) blank s m) ys n w

  -- If both threads are about to access the array, they access different slots.
  abbrev pub IsApart : Producer A → Consumer A → Type 0
  IsApart (has_both item head tail) (read_both head' tail') =
      leb (2 ^ k) (sub64 tail head) ≡ false
      → leb tail' head' ≡ false
      → slot_of (2 ^ k) tail ≢ slot_of (2 ^ k) head'
  IsApart _ _ = Unit

  apart :
      (s : System A) (xs : List A) (n : ℕ) (p : Producer A) (c : Consumer A)
      → IsBetween k blank s xs n
      → IsProducing k blank s.queue.slots s.queue.head s.queue.tail (length xs) p
      → IsConsuming k blank s.queue.head s.queue.tail xs c
      → IsApart p c
  apart s xs n (has_both item head tail) (read_both head' tail') v (l, e) (f, g) =
      λ room some_item same.
        let more : length xs < 2 ^ k = ground (arith, v.ends, v.room) in
        let less : 0 < length xs = ground (arith, v.ends) in
        mod-ne-add_mod (2 ^ k) s.queue.head (length xs) less more (
          ap (λ i. i % 2 ^ k) (sym (e ∙ v.ends))
          ∙ sym (slot k blank tail)
          ∙ same
          ∙ slot k blank head'
          ∙ ap (λ i. i % 2 ^ k) f)
  apart s xs n _ _ v a b = tt

  -- Under every schedule of one thread that pushes and one that pops, of fewer than 2^64 moves: the
  -- items popped are the first of those pushed, in their order, at most `Capacity` items are
  -- between, and the two threads never access the same slot at once.
  pub threads_in_order :
      (ms : List (Move A)) (slots : List A)
      → length slots ≡ 2 ^ k
      → length ms < 2 ^ 64
      → let s = run (2 ^ k) blank (start slots) ms in
        ((xs : List A) × (s.pushed ≡ s.popped ++ xs) × (length xs ≤ 2 ^ k))
        × IsApart s.producer s.consumer
  threads_in_order ms slots e l =
      let (xs, v) = run-IsBetween ms (start slots) [] 0 (record {
        array = e;
        ends = refl;
        room = omega arith;
        few = omega arith;
        entries = tt;
        in_order = refl;
        producing = tt;
        consuming = tt;
      }) in
      let s = run (2 ^ k) blank (start slots) ms in
      ((xs, v.in_order, v.few), apart s xs 0 s.producer s.consumer v v.producing v.consuming)

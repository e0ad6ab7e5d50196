-- ===== src/Queues/LockFree/Threads/Between.antt =====
-- What holds between two moves of the threads, and the moves that write.
use native.Mathlib.Nat.{mod-lt}
use quant_sim_x.Prelude.{
  ℕ, suc, ◌+◌, ◌%◌, ◌^◌, ◌≤◌, ◌<◌, ◌≡◌, sym, ap, ◌∙◌, subst, List, [], ◌∷◌, ◌++◌, false, some,
  arith, length, length-append, length-set, get_or, get_elem?, get_elem?-eq-get_or,
  get_elem?-set_self, set, leb, add64, sub64, slot_of,
}
use mathlib.Core.Option.{some-injective}
use quant_sim_x.Prelude.Bits.{bit_and_mask, pow_pos}
use mathlib.Core.List.{append_assoc}
use quant_sim_x.Queues.Window.{Window, Window-set}
use quant_sim_x.Queues.LockFree.Threads.{
  Producer, resting, has_head, has_both, has_written, Consumer, waiting, read_head, read_both,
  read_item, System,
}

module _ {A : Type 0} (k : ℕ) (blank : A) where
  -- The locals of the producer: its head may be old, its tail is current, and what it has written is
  -- in the slot behind the entries.
  abbrev pub IsProducing : List A → ℕ → ℕ → ℕ → Producer A → Type 0
  IsProducing slots h t n resting = Unit
  IsProducing slots h t n (has_head item head) = head ≤ h
  IsProducing slots h t n (has_both item head tail) = (head ≤ h) × (tail ≡ t)
  IsProducing slots h t n (has_written item tail) =
      (tail ≡ t) × (n < 2 ^ k) × (get_elem? slots (t % 2 ^ k) ≡ some item)

  -- The locals of the consumer: its head is current, its tail may be old, and what it has read is the
  -- oldest entry.
  abbrev pub IsConsuming : ℕ → ℕ → List A → Consumer A → Type 0
  IsConsuming h t xs waiting = Unit
  IsConsuming h t xs (read_head head) = head ≡ h
  IsConsuming h t xs (read_both head tail) = (head ≡ h) × (tail ≤ t)
  IsConsuming h t [] (read_item item head) = ⊥
  IsConsuming h t (x ∷ xs) (read_item item head) = (head ≡ h) × (item ≡ x)

  -- The entries `xs` are between the two threads, and the counters allow `n` more moves.
  pub record IsBetween (s : System A) (xs : List A) (n : ℕ) : Type 0 where
    pub array : length s.queue.slots ≡ 2 ^ k
    pub ends : s.queue.tail ≡ s.queue.head + length xs
    pub room : s.queue.tail + n < 2 ^ 64
    pub few : length xs ≤ 2 ^ k
    pub entries : Window (2 ^ k) s.queue.slots s.queue.head xs
    pub in_order : s.pushed ≡ s.popped ++ xs
    pub producing : IsProducing s.queue.slots s.queue.head s.queue.tail (length xs) s.producer
    pub consuming : IsConsuming s.queue.head s.queue.tail xs s.consumer

  IsConsuming-push :
      (h t : ℕ) (xs : List A) (x : A) (c : Consumer A)
      → IsConsuming h t xs c
      → IsConsuming h (t + 1) (xs ++ x ∷ []) c
  IsConsuming-push h t xs x waiting v = tt
  IsConsuming-push h t xs x (read_head head) v = v
  IsConsuming-push h t xs x (read_both head tail) (e, l) = (e, omega arith)
  IsConsuming-push h t [] x (read_item item head) v = absurd v
  IsConsuming-push h t (y ∷ xs) x (read_item item head) v = v

  IsProducing-pop :
      (slots : List A) (h t n : ℕ) (p : Producer A)
      → IsProducing slots h t (suc n) p
      → IsProducing slots (h + 1) t n p
  IsProducing-pop slots h t n resting v = tt
  IsProducing-pop slots h t n (has_head item head) v = omega arith
  IsProducing-pop slots h t n (has_both item head tail) (l, e) = (omega arith, e)
  IsProducing-pop slots h t n (has_written item tail) (e, l, w) = (e, omega arith, w)

  Window-snoc :
      (slots : List A) (h : ℕ) (xs : List A) (x : A)
      → Window (2 ^ k) slots h xs
      → get_elem? slots ((h + length xs) % 2 ^ k) ≡ some x
      → Window (2 ^ k) slots h (xs ++ x ∷ [])
  Window-snoc slots h [] x w e = (ap (λ i. get_elem? slots (i % 2 ^ k)) (omega arith) ∙ e, tt)
  Window-snoc slots h (y ∷ xs) x (a, w) e = (
    a,
    Window-snoc slots (h + 1) xs x w (ap (λ i. get_elem? slots (i % 2 ^ k)) (omega arith) ∙ e),
  )

  pub slot : (i : ℕ) → slot_of (2 ^ k) i ≡ i % 2 ^ k
  slot i = bit_and_mask k i

  -- the write of an item, and the store of the tail behind it
  pub written-IsBetween :
      (it : A) (head tail : ℕ) (s : System A) (xs : List A) (n : ℕ)
      → IsProducing s.queue.slots s.queue.head s.queue.tail (length xs) (has_both it head tail)
      → leb (2 ^ k) (sub64 tail head) ≡ false
      → IsBetween s xs (suc n)
      → IsBetween
          (record s {
            queue = record (s.queue) { slots = set s.queue.slots (slot_of (2 ^ k) tail) it };
            producer = has_written it tail;
          })
          xs
          n
  written-IsBetween it head tail s xs n (l, e) f v =
      let space : length xs < 2 ^ k = ground (arith, v.ends, v.room) in
      let at : slot_of (2 ^ k) tail ≡ (s.queue.head + length xs) % 2 ^ k =
        slot tail ∙ ap (λ i. i % 2 ^ k) (e ∙ v.ends) in
      record {
        array = length-set s.queue.slots (slot_of (2 ^ k) tail) it ∙ v.array;
        ends = v.ends;
        room = omega (arith, v.room);
        few = v.few;
        entries =
            Window-set (2 ^ k) s.queue.slots s.queue.head (length xs) (slot_of (2 ^ k) tail) it xs
              (omega arith) space at v.entries;
        in_order = v.in_order;
        producing = (
          e,
          space,
          ap (get_elem? (set s.queue.slots (slot_of (2 ^ k) tail) it))
                (sym (slot tail ∙ ap (λ i. i % 2 ^ k) e))
              ∙ get_elem?-set_self s.queue.slots (slot_of (2 ^ k) tail) it
                  (omega (arith, slot tail, mod-lt tail (pow_pos k), v.array)),
        );
        consuming = v.consuming;
      }

  pub stored-IsBetween :
      (it : A) (tail : ℕ) (s : System A) (xs : List A) (n : ℕ)
      → IsProducing s.queue.slots s.queue.head s.queue.tail (length xs) (has_written it tail)
      → IsBetween s xs (suc n)
      → IsBetween
          (record s {
            queue = record (s.queue) { tail = add64 tail 1 };
            producer = resting;
            pushed = s.pushed ++ it ∷ [];
          })
          (xs ++ it ∷ [])
          n
  stored-IsBetween it tail s xs n (e, l, w) v =
      let next : add64 tail 1 ≡ s.queue.tail + 1 = omega (arith, v.room) in
      record {
        array = v.array;
        ends = omega (arith, next, v.ends, length-append xs (it ∷ []));
        room = omega (arith, next, v.room);
        few = omega (arith, length-append xs (it ∷ []));
        entries =
            Window-snoc s.queue.slots s.queue.head xs it v.entries
              (ap (λ i. get_elem? s.queue.slots (i % 2 ^ k)) (sym v.ends) ∙ w);
        in_order = ap (λ l. l ++ it ∷ []) v.in_order ∙ append_assoc s.popped xs (it ∷ []);
        producing = tt;
        consuming =
            subst (λ t. IsConsuming s.queue.head t (xs ++ it ∷ []) s.consumer) (sym next)
              (IsConsuming-push s.queue.head s.queue.tail xs it s.consumer v.consuming);
      }

  -- The slot that the consumer reads holds the oldest entry.
  pub read-IsConsuming :
      (head tail : ℕ) (s : System A) (xs : List A) (n : ℕ)
      → IsConsuming s.queue.head s.queue.tail xs (read_both head tail)
      → leb tail head ≡ false
      → IsBetween s xs n
      → IsConsuming s.queue.head s.queue.tail xs
          (read_item (get_or s.queue.slots (slot_of (2 ^ k) head) blank) head)
  read-IsConsuming head tail s [] n (e, l) f v = absurd (ground (arith, v.ends))
  read-IsConsuming head tail s (x ∷ xs) n (e, l) f v =
      let at : slot_of (2 ^ k) head ≡ s.queue.head % 2 ^ k = slot head ∙ ap (λ i. i % 2 ^ k) e in
      let inside : slot_of (2 ^ k) head < length s.queue.slots =
        omega (arith, slot head, mod-lt head (pow_pos k), v.array) in
      (
        e,
        some-injective _ _ (
            sym (get_elem?-eq-get_or s.queue.slots (slot_of (2 ^ k) head) blank inside)
            ∙ ap (get_elem? s.queue.slots) at
            ∙ v.entries.0),
      )

  -- The store of the head behind the oldest entry.
  pub popped-IsBetween :
      (it : A) (head : ℕ) (s : System A) (x : A) (xs : List A) (n : ℕ)
      → IsConsuming s.queue.head s.queue.tail (x ∷ xs) (read_item it head)
      → IsBetween s (x ∷ xs) (suc n)
      → IsBetween
          (record s {
            queue = record (s.queue) { head = add64 head 1 };
            consumer = waiting;
            popped = s.popped ++ it ∷ [];
          })
          xs
          n
  popped-IsBetween it head s x xs n (e, f) v =
      let next : add64 head 1 ≡ s.queue.head + 1 = omega (arith, v.room, v.ends) in
      record {
        array = v.array;
        ends = omega (arith, next, v.ends);
        room = omega (arith, v.room);
        few = omega (arith, v.few);
        entries = subst (λ h. Window (2 ^ k) s.queue.slots h xs) (sym next) v.entries.1;
        in_order =
            v.in_order
            ∙ ap (λ y. s.popped ++ y ∷ xs) (sym f)
            ∙ sym (append_assoc s.popped (it ∷ []) xs);
        producing =
            subst (λ h. IsProducing s.queue.slots h s.queue.tail (length xs) s.producer) (sym next)
              (IsProducing-pop s.queue.slots s.queue.head s.queue.tail (length xs) s.producer
                v.producing);
        consuming = tt;
      }

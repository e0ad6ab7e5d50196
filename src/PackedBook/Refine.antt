-- ===== src/PackedBook/Refine.antt =====
-- What a side of the book stands for: the packed prices of its orders, which an insertion puts a
-- rounded price into.
use quant_sim_x.Prelude.{
  ℕ, zero, suc, ◌+◌, ◌≤◌, ◌<◌, ◌≡◌, refl, ap, sym, ◌∙◌, subst, Bool, true, false, List, [], ◌∷◌,
  arith, length, get_or, set, length-set, Bool-cases, inl, inr, leb, if◌then◌else◌, ◌⊎◌, Option,
  none, some,
}
use quant_sim_x.Double.{Double}
use quant_sim_x.BitBook.{get_best_level}
use quant_sim_x.PackedBook.{
  PackedOrder, PackedSide, no_order, max_levels, shift, raw_price, raw_qty, set_price, set_qty,
  insert_order,
}
use quant_sim_x.PackedBook.Sorted.{
  IsTotal, IsInOrder, insert_in, insert_in-IsInOrder, length-insert_in, All-insert_in,
}
use quant_sim_x.PackedBook.Shift.{prices, max_raw, AreSmall, Places, Shifted, shift_lem}

-- the lowest bit of a side with these prices
abbrev lowest : List ℕ → Option ℕ
lowest [] = none
lowest (r ∷ rs) = some 0

level-set :
    (bits : List Bool) (i : ℕ)
    → 0 < length bits
    → (i ≡ 0) ⊎ (get_best_level bits ≡ some 0)
    → get_best_level (set bits i true) ≡ some 0
level-set [] i h e = absurd (omega arith)
level-set (b ∷ bits) zero h e = refl
level-set (true ∷ bits) (suc i) h e = refl
level-set (false ∷ bits) (suc i) h e = absurd (ground (arith, e))

-- The side holds these packed prices, in order, each in range, and its mask has its lowest bit set
-- unless it is empty.
pub record IsListed (ahead : ℕ → ℕ → Bool) (s : PackedSide) (rs : List ℕ) : Type 0 where
  pub orders_all : length s.orders ≡ 64
  pub bits_all : length s.mask ≡ 64
  pub counted : s.cnt ≡ length rs
  pub few : length rs ≤ 64
  pub listed : prices s.orders s.cnt ≡ rs
  pub lowest_bit : get_best_level s.mask ≡ lowest rs
  pub ordered : IsInOrder ahead rs
  pub small : AreSmall rs

unfoldable pub with_price : (ℕ → ℕ → Bool) → ℕ → List ℕ → List ℕ
with_price ahead r rs = if leb max_levels (length rs) then rs else insert_in ahead r rs

lowest-insert_in :
    (ahead : ℕ → ℕ → Bool) (r : ℕ) (rs : List ℕ) → lowest (insert_in ahead r rs) ≡ some 0
unfolding insert_in
lowest-insert_in ahead r [] = refl
lowest-insert_in ahead r (x ∷ xs) = elim (Bool-cases (ahead r x)) [
  | inl e ↦ rw (e) refl
  | inr e ↦ rw (e) refl
]

-- A new order in the place that the loop leaves.
placed-IsListed :
    (ahead : ℕ → ℕ → Bool) (s : PackedSide) (rs : List ℕ) (p : ℕ × List PackedOrder)
    (o : PackedOrder)
    → IsTotal ahead
    → o.price_raw ≤ max_raw
    → s.cnt < 64
    → IsListed ahead s rs
    → Shifted ahead o.price_raw s.orders s.cnt p
    → IsListed ahead
        (record { orders = set p.1 p.0 o; mask = set s.mask p.0 true; cnt = s.cnt + 1 })
        (insert_in ahead o.price_raw rs)
placed-IsListed ahead s rs p o t m h v (low, long, _, placed) =
    let r = o.price_raw in
    record {
      orders_all = length-set p.1 p.0 o ∙ long ∙ v.orders_all;
      bits_all = length-set s.mask p.0 true ∙ v.bits_all;
      counted = omega (arith, v.counted, length-insert_in ahead r rs);
      few = omega (arith, h, v.counted, length-insert_in ahead r rs);
      listed =
          ap (prices (set p.1 p.0 o)) {y = suc s.cnt} (omega arith)
          ∙ placed o refl
          ∙ ap (insert_in ahead r) v.listed;
      lowest_bit =
          level-set s.mask p.0 (omega (arith, v.bits_all)) (first rs v.counted v.lowest_bit)
          ∙ sym (lowest-insert_in ahead r rs);
      ordered = insert_in-IsInOrder ahead t r rs v.ordered;
      small = All-insert_in ahead (λ y. y ≤ max_raw) r rs m v.small;
    }
  where
    first :
        (rs : List ℕ)
        → s.cnt ≡ length rs
        → get_best_level s.mask ≡ lowest rs
        → (p.0 ≡ 0) ⊎ (get_best_level s.mask ≡ some 0)
    first [] c e = inl (omega (arith, low, c))
    first (x ∷ xs) c e = inr e

module _ {W : Type 0} ⦃d : Double W⦄ (to_uint32 : W → ℕ) where
  pub insert_order-IsListed :
      (past : W → Bool) (ahead : ℕ → ℕ → Bool) (first_id flags : ℕ) (s : PackedSide) (px qty : W)
      (rs : List ℕ)
      → IsTotal ahead
      → Places past ahead (raw_price to_uint32 px)
      → raw_price to_uint32 px ≤ max_raw
      → IsListed ahead s rs
      → IsListed ahead
          (insert_order to_uint32 past first_id flags s px qty)
          (with_price ahead (raw_price to_uint32 px) rs)
  unfolding insert_order with_price set_price set_qty
  insert_order-IsListed past ahead first_id flags s px qty rs t q m v =
      elim (Bool-cases (leb max_levels s.cnt)) [
        | inl e ↦ ground (arith, e, v.counted, v)
        | inr e ↦
            let free : leb max_levels (length rs) ≡ false =
              subst (λ n. leb 64 n ≡ false) v.counted e in
            let h : s.cnt < 64 = ground (arith, e) in
            let p = shift past s.orders s.cnt in
            rw (e, free)
              (placed-IsListed ahead s rs p
                (record (get_or p.1 p.0 no_order) {
                  id = p.0 + first_id;
                  price_raw = raw_price to_uint32 px;
                  qty_raw = raw_qty to_uint32 qty;
                  flags = flags;
                  ts_ns = 0;
                })
                t m h v
                (shift_lem past ahead (raw_price to_uint32 px) s.orders s.cnt t q
                  (omega (arith, h, v.orders_all)) (subst AreSmall (sym v.listed) v.small)
                  (subst (IsInOrder ahead) (sym v.listed) v.ordered)))
      ]

-- ===== src/OrderBook/Lookup.antt =====
-- What a depth update does to the quantities of one side.
use quant_sim_x.Prelude.{◌<◌, ◌≡◌, ◌≢◌, ◌⊎◌, ap, ◌∙◌, none, some, length, Bool, if◌then◌else◌}
use quant_sim_x.Double.{Double, nought, IsOrdered}
use quant_sim_x.OrderBook.{Side, update_level}
use quant_sim_x.OrderBook.Ladder.{IsStrict, IsLadder, lookup, lookup-update}
use quant_sim_x.OrderBook.Insertion.{in_use, IsValid}
use quant_sim_x.OrderBook.Refine.{update_level_refines}

module _ {W : Type 0} ⦃d : Double W⦄ where
  open d use {eq}

  -- If a side is in order, one level of a depth update makes the quantity at its price the new one,
  -- none for 0, and leaves the quantity at every other price, provided that the side is not full or
  -- that it has the price.
  pub lookup-update_level :
      (laws : IsOrdered W) (before : W → W → Bool) (strict : IsStrict before) (s : Side W)
      (p q r : W)
      → IsValid s
      → IsLadder before (in_use s)
      → (length (in_use s) < 256) ⊎ (lookup p (in_use s) ≢ none)
      → lookup r (in_use (update_level before s p q))
        ≡ (if eq p r then (if eq q nought then none else some q) else lookup r (in_use s))
  lookup-update_level laws before strict s p q r v h room =
      ap (lookup r) (update_level_refines before s p q v).0
      ∙ lookup-update before strict laws p q r (in_use s) h room

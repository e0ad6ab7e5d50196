-- ===== src/SymbolIndex.antt =====
-- `SymbolIndex` (include/SymbolIndex.h): a hash map from symbols under a mutex. The calls are one after
-- another, since each holds the mutex. The list has the entries in the order in which their keys came;
-- the order that the hash map iterates in is left open, so `symbols` says only which keys there are.
mod View
mod Tests
use quant_sim_x.Prelude.{
  ℕ, Bool, true, false, Option, none, some, List, [], ◌∷◌, map, length, if◌then◌else◌,
}
use quant_sim_x.Prelude.Text.{Text, text_eq}

module _ {ℓ} {T : Type ℓ} where
  -- `index_[symbol] = std::move(value)`
  unfoldable pub add : List (Text × T) → Text → T → List (Text × T)
  add [] symbol value = (symbol, value) ∷ []
  add (e ∷ index) symbol value =
      if text_eq e.0 symbol then (symbol, value) ∷ index else e ∷ add index symbol value

  -- `none` is the null pointer; both overloads
  unfoldable pub get : List (Text × T) → Text → Option T
  get [] symbol = none
  get (e ∷ index) symbol = if text_eq e.0 symbol then some e.1 else get index symbol

  unfoldable pub contains : List (Text × T) → Text → Bool
  unfolding get
  contains index symbol = elim (get index symbol) [ none ↦ false | some _ ↦ true ]

  unfoldable pub remove : List (Text × T) → Text → List (Text × T)
  remove [] symbol = []
  remove (e ∷ index) symbol = if text_eq e.0 symbol then index else e ∷ remove index symbol

  abbrev pub symbols : List (Text × T) → List Text
  symbols index = map (λ e. e.0) index

  abbrev pub size : List (Text × T) → ℕ
  size index = length index

-- ===== src/Json/Document.antt =====
-- A concrete JSON value for tests: objects, arrays, texts and numbers, with decimal digits as texts.
use Prim.Native.String.{String}
use Prim.Native.Char.{code}
use text.Mathlib.Text.{◌==◌ as str_eq}
use quant_sim_x.Prelude.{
  ℕ, zero, suc, ◌+◌, ◌-◌, ◌*◌, List, [], ◌∷◌, Option, none, some, leb, ◌&&◌, if◌then◌else◌,
}
use quant_sim_x.Prelude.Int.{pos}
use quant_sim_x.Double.Fixed.{Fixed, fixed}
use quant_sim_x.Json.{Json}

mutual
  pub data Document : Type 0 where
    object : Members → Document
    array : Documents → Document
    quoted : String → Document
    number : ℕ → Document

  pub data Documents : Type 0 where
    nil : Documents
    cons : Document → Documents → Documents

  pub data Members : Type 0 where
    end : Members
    member : String → Document → Members → Members

abbrev find_member : Members → String → Option Document
find_member end key = none
find_member (member k v ms) key = if str_eq k key then some v else find_member ms key

abbrev to_list : Documents → List Document
to_list nil = []
to_list (cons v vs) = v ∷ to_list vs

abbrev nth? : List Document → ℕ → Option Document
nth? [] i = none
nth? (v ∷ vs) zero = some v
nth? (v ∷ vs) (suc i) = nth? vs i

abbrev digits? : ℕ → String → Option ℕ
digits? acc String.[] = some acc
digits? acc (String.◌∷◌ c s) =
    let rest = digits? (10 * acc + (code c - b'0')) s in
    if leb b'0' (code c) && leb (code c) b'9' then rest else none

abbrev pub read_fixed : String → Option Fixed
read_fixed s = elim (digits? 0 s) [ none ↦ none | some n ↦ some (fixed n 0) ]

abbrev member_of : Document → String → Option Document
member_of (object ms) key = find_member ms key
member_of _ key = none

abbrev items_of : Document → List Document
items_of (array vs) = to_list vs
items_of _ = []

abbrev text_of : Document → Option String
text_of (quoted s) = some s
text_of _ = none

abbrev number_of : Document → Option ℕ
number_of (number n) = some n
number_of _ = none

abbrev pub document_json : Json Fixed
document_json = record {
  Value = Document;
  member? = member_of;
  items = items_of;
  item? = λ v i. nth? (items_of v) i;
  text? = text_of;
  uint64? = number_of;
  int32? = λ v. elim (number_of v) [ none ↦ none | some n ↦ some (pos n) ];
  number? = λ v. elim (number_of v) [ none ↦ none | some n ↦ some (fixed n 0) ];
  stod? = read_fixed;
}

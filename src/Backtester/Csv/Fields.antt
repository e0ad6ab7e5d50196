-- ===== src/Backtester/Csv/Fields.antt =====
-- How `load_csv` splits a line: `std::getline(ss, token, ',')` until it fails.
use quant_sim_x.Prelude.{
  true, false, ℕ, ◌≡◌, ◌≢◌, refl, ap, ◌∙◌, List, [], ◌∷◌, ◌++◌, All, arith, ◌==◌,
}
use mathlib.Core.List.{append_assoc, append-nil}
use quant_sim_x.Prelude.Text.{Text}

abbrev pub comma : ℕ
comma = 44

-- `token` holds what is read of the current field. An empty field at the end of the line is none.
unfoldable pub cut : Text → Text → List Text
cut [] [] = []
cut (c ∷ token) [] = (c ∷ token) ∷ []
cut token (c ∷ s) = elim (c == comma) [ true ↦ token ∷ cut [] s | false ↦ cut (token ++ c ∷ []) s ]

unfoldable pub fields_of : Text → List Text
unfolding cut
fields_of line = cut [] line

unfoldable pub LacksComma : Text → Type 0
LacksComma = All (λ c. c ≢ comma)

-- `<< field << ","` for each of some fields
abbrev pub each_comma : List Text → Text
each_comma [] = []
each_comma (p ∷ ps) = p ++ comma ∷ each_comma ps

cut_field :
    (p rest token : Text)
    → LacksComma p
    → cut token (p ++ comma ∷ rest) ≡ (token ++ p) ∷ cut [] rest
unfolding cut LacksComma
cut_field [] rest token l = rw append-nil refl
cut_field (c ∷ p) rest token l =
    ground (arith, l, cut_field p rest (token ++ c ∷ []), append_assoc token (c ∷ []) p)

-- Fields that are written one after another, each with a comma behind it, are read back as they were,
-- whatever follows on the line.
pub fields_of-each_comma :
    (ps : List Text) (rest : Text)
    → All LacksComma ps
    → fields_of (each_comma ps ++ rest) ≡ ps ++ fields_of rest
unfolding fields_of
fields_of-each_comma [] rest l = refl
fields_of-each_comma (p ∷ ps) rest l =
    ap fields_of (append_assoc p (comma ∷ each_comma ps) rest)
    ∙ cut_field p (each_comma ps ++ rest) [] l.0
    ∙ ap (λ fs. p ∷ fs) (fields_of-each_comma ps rest l.1)

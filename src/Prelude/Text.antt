-- ===== src/Prelude/Text.antt =====
-- Texts as lists of character codes, for the code that takes them apart.
use Prim.Native.Char.{code}
use Prim.Native.String.{String}
use quant_sim_x.Prelude.{ℕ, Bool, true, false, ◌&&◌, List, [], ◌∷◌, ◌==◌}

abbrev pub Text : Type 0
Text = List ℕ

abbrev pub codes : String → Text
codes String.[] = []
codes (String.◌∷◌ c s) = code c ∷ codes s

abbrev pub text_eq : Text → Text → Bool
text_eq [] [] = true
text_eq (c ∷ s) (c' ∷ s') = (c == c') && text_eq s s'
text_eq _ _ = false

-- ===== src/Output/Lines.antt =====
-- The rows of a file that `CSVWriter` wrote, read line by line.
use quant_sim_x.Prelude.{
  ◌≡◌, ◌≢◌, refl, ap, sym, ◌∙◌, true, false, none, some, List, [], ◌∷◌, ◌++◌, All, arith,
}
use mathlib.Core.List.{append_assoc, append-nil}
use quant_sim_x.Prelude.Text.{Text}
use quant_sim_x.Output.{open_csv, write_row, write_rows, getlines}

-- no newline
abbrev pub IsLine : Text → Type 0
IsLine = All (λ c. c ≢ 10)

abbrev pub content_of : List Text → Text
content_of [] = []
content_of (row ∷ rows) = row ++ 10 ∷ content_of rows

write_rows-content :
    (content : Text) (rows : List Text)
    → (write_rows (record { fout = some content }) rows).fout ≡ some (content ++ content_of rows)
unfolding write_rows write_row
write_rows-content content [] = ap some (sym (append-nil content))
write_rows-content content (row ∷ rows) =
    write_rows-content (content ++ row ++ 10 ∷ []) rows
    ∙ ap some (
        append_assoc (content ++ row) (10 ∷ []) (content_of rows)
        ∙ append_assoc content row (10 ∷ content_of rows))

getlines-row :
    (row rest line : Text)
    → IsLine row
    → getlines line (row ++ 10 ∷ rest) ≡ (line ++ row) ∷ getlines [] rest
unfolding getlines
getlines-row [] rest line h = rw (append-nil line) refl
getlines-row (c ∷ row) rest line (h, hs) =
    ground (arith, h, getlines-row row rest (line ++ c ∷ []) hs, append_assoc line (c ∷ []) row)

getlines-content : (rows : List Text) → All IsLine rows → getlines [] (content_of rows) ≡ rows
unfolding getlines
getlines-content [] h = refl
getlines-content (row ∷ rows) (h, hs) =
    getlines-row row (content_of rows) [] h ∙ ap (λ rs. row ∷ rs) (getlines-content rows hs)

write_rows-closed : (rows : List Text) → (write_rows (record { fout = none }) rows).fout ≡ none
unfolding write_rows write_row
write_rows-closed [] = refl
write_rows-closed (row ∷ rows) = write_rows-closed rows

-- The rows that are written to a file that opens, none of which has a newline, are the lines that are
-- read from it, an empty row included. Where the file does not open, nothing is written.
pub write_rows-getlines :
    (rows : List Text)
    → All IsLine rows
    → ((content : Text) × ((write_rows (open_csv true) rows).fout ≡ some content)
        × (getlines [] content ≡ rows))
      × ((write_rows (open_csv false) rows).fout ≡ none)
unfolding open_csv
write_rows-getlines rows h =
    ((content_of rows, write_rows-content [] rows, getlines-content rows h), write_rows-closed rows)

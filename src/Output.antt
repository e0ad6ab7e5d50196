-- ===== src/Output.antt =====
-- What the program writes: `CSVWriter` (include/CSVWriter.h, src/CSVWriter.cpp) and `Logger`
-- (include/Logger.h, src/Logger.cpp). The file is the text that it holds once it is closed; buffering
-- does not show, since every write reaches the file by then.
pub mod Lines
mod Tests
use quant_sim_x.Prelude.{
  ℕ, suc, ◌-◌, Bool, true, false, Option, none, some, List, [], ◌∷◌, ◌++◌, length, replicate, ltb,
  ◌==◌, if◌then◌else◌,
}
use quant_sim_x.Prelude.Text.{Text, codes}

-- The text of the file, or `none` where it could not be opened.
pub record CsvWriter : Type 0 where
  pub fout : Option Text

-- `opens` says whether the system opens the file, which is then empty.
unfoldable pub open_csv : Bool → CsvWriter
open_csv opens = record { fout = if opens then some [] else none }

unfoldable pub write_row : CsvWriter → Text → CsvWriter
write_row w row = record {
  fout = elim w.fout [ none ↦ none | some content ↦ some (content ++ row ++ 10 ∷ []) ];
}

unfoldable pub write_rows : CsvWriter → List Text → CsvWriter
unfolding write_row
write_rows w [] = w
write_rows w (row ∷ rows) = write_rows (write_row w row) rows

-- the lines that `std::getline` reads until it fails; `line` holds what is read of the current one
unfoldable pub getlines : Text → Text → List Text
getlines [] [] = []
getlines (c ∷ line) [] = (c ∷ line) ∷ []
getlines line (c ∷ s) = elim (c == 10) [
  | true ↦ line ∷ getlines [] s
  | false ↦ getlines (line ++ c ∷ []) s
]

pub data LogLevel : Type 0 where
  debug info warn error : LogLevel

abbrev pub rank : LogLevel → ℕ
rank debug = 0
rank info = 1
rank warn = 2
rank error = 3

abbrev pub level_to_string : LogLevel → Text
level_to_string debug = codes "DEBUG"
level_to_string info = codes "INFO"
level_to_string warn = codes "WARN"
level_to_string error = codes "ERROR"

-- `std::setfill('0') << std::setw(3)`
abbrev pub pad3 : Text → Text
pad3 t = replicate (3 - length t) 48 ++ t

-- the arguments of `format`, each printed already
abbrev pub format : List Text → Text
format [] = []
format (value ∷ values) = value ++ format values

-- A call of `log`: the time and the numbers are printed already.
pub record LogCall : Type 0 where
  pub level : LogLevel
  pub time : Text
  pub ms : Text
  pub file : Text
  pub line : Text
  pub values : List Text

-- The line that goes to the standard output, or none.
unfoldable pub log : LogLevel → LogCall → Option Text
log level c =
    if ltb (rank c.level) (rank level)
    then none
    else some (
        codes "["
        ++ c.time
        ++ codes "."
        ++ pad3 c.ms
        ++ codes "] ["
        ++ level_to_string c.level
        ++ codes "] ["
        ++ c.file
        ++ codes ":"
        ++ c.line
        ++ codes "] "
        ++ format c.values
        ++ 10 ∷ [])

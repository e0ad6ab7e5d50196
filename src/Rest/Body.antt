-- ===== src/Rest/Body.antt =====
-- The body of a response whose headers are lines, each with CR LF at its end, with an empty line
-- behind them.
use quant_sim_x.Prelude.{
  ℕ, zero, suc, ◌+◌, ◌≡◌, ◌≢◌, refl, ap, sym, ◌∙◌, false, Option, none, some, List, [], ◌∷◌, ◌++◌,
  take, drop, length, All, arith, length-append, drop-append,
}
use mathlib.Core.List.{append_assoc}
use quant_sim_x.Prelude.Text.{Text}
use quant_sim_x.Rest.{
  crlf, starts_with, next_place, find, find_brace, body_start, cut_body, parse_response,
}

-- A header: not empty, and without CR.
pub record IsHeader (l : Text) : Type 0 where
  pub plain : All (λ c. c ≢ 13) l
  pub not_empty : l ≢ []

abbrev pub lines : List Text → Text
lines [] = []
lines (l ∷ ls) = l ++ 13 ∷ 10 ∷ lines ls

abbrev pub plus : ℕ → Option ℕ → Option ℕ
plus zero o = o
plus (suc n) o = next_place (plus n o)

-- The search goes over a text without CR.
find_plain :
    (p l s : Text)
    → All (λ c. c ≢ 13) l
    → find (13 ∷ p) (l ++ s) ≡ plus (length l) (find (13 ∷ p) s)
unfolding find
find_plain p [] s h = refl
find_plain p (c ∷ l) s (h, hs) = ground (arith, h, find_plain p l s hs)

-- and over a line that is not the last
find_line :
    (l s : Text)
    → All (λ c. c ≢ 13) l
    → starts_with (13 ∷ 10 ∷ []) s ≡ false
    → find (crlf ++ crlf) (l ++ 13 ∷ 10 ∷ s)
      ≡ plus (length l) (next_place (next_place (find (crlf ++ crlf) s)))
unfolding find
find_line l s h e = find_plain (10 ∷ crlf) l (13 ∷ 10 ∷ s) h ∙ ap (plus (length l)) (rw (e) refl)

plus-some : (n k : ℕ) → plus n (some k) ≡ some (n + k)
plus-some zero k = ap some (omega arith)
plus-some (suc n) k = rw (plus-some n k) (ap some (omega arith))

next_header : (l t : Text) → IsHeader l → starts_with (13 ∷ 10 ∷ []) (l ++ t) ≡ false
next_header [] t h = absurd (h.not_empty refl)
next_header (c ∷ l) t h = ground (arith, h.plain.0)

lines_append :
    (l : Text) (ls : List Text) (t : Text) → lines (l ∷ ls) ++ t ≡ l ++ 13 ∷ 10 ∷ (lines ls ++ t)
lines_append l ls t = append_assoc l (13 ∷ 10 ∷ lines ls) t

-- The end of the headers is found at the CR of the last one.
find_block :
    (l : Text) (ls : List Text) (body : Text)
    → IsHeader l
    → All IsHeader ls
    → (n : ℕ) × (n + 2 ≡ length (lines (l ∷ ls)))
      × (find (crlf ++ crlf) (lines (l ∷ ls) ++ 13 ∷ 10 ∷ body) ≡ some n)
unfolding find
find_block l [] body h hs = (
  length l,
  sym (length-append l (13 ∷ 10 ∷ [])),
  ap (find (crlf ++ crlf)) (lines_append l [] (13 ∷ 10 ∷ body))
      ∙ find_plain (10 ∷ crlf) l (13 ∷ 10 ∷ 13 ∷ 10 ∷ body) h.plain
      ∙ plus-some (length l) 0
      ∙ ap some (omega arith),
)
find_block l (k ∷ ls) body h (g, hs) =
    let rest = lines (k ∷ ls) ++ 13 ∷ 10 ∷ body in
    let (n, long, found) = find_block k ls body g hs in
    let start : starts_with (13 ∷ 10 ∷ []) rest ≡ false =
      ap (starts_with (13 ∷ 10 ∷ [])) (lines_append k ls (13 ∷ 10 ∷ body))
      ∙ next_header k (13 ∷ 10 ∷ (lines ls ++ 13 ∷ 10 ∷ body)) g in
    (
      length l + (2 + n),
      omega (arith, long, length-append l (13 ∷ 10 ∷ lines (k ∷ ls))),
      ap (find (crlf ++ crlf)) (lines_append l (k ∷ ls) (13 ∷ 10 ∷ body))
          ∙ find_line l rest h.plain start
          ∙ ap (λ o. plus (length l) (next_place (next_place o))) found
          ∙ plus-some (length l) (suc (suc n))
          ∙ ap some (omega arith),
    )

find_brace-none : (t : Text) → All (λ c. c ≢ 125) t → find_brace t ≡ none
unfolding find_brace
find_brace-none [] h = refl
find_brace-none (c ∷ t) (h, hs) = ground (arith, h, find_brace-none t hs)

find_brace-last :
    (json after : Text)
    → All (λ c. c ≢ 125) after
    → find_brace (json ++ 125 ∷ after) ≡ some (length json)
unfolding find_brace
find_brace-last [] after h = ground (arith, find_brace-none after h)
find_brace-last (c ∷ json) after h = ground (arith, find_brace-last json after h)

cut_body_lem :
    (json after : Text)
    → All (λ c. c ≢ 125) after
    → cut_body (json ++ 125 ∷ after) ≡ json ++ 125 ∷ []
unfolding cut_body
cut_body_lem json after h = rw (find_brace-last json after h, cut_body) (take_behind json)
  where
    take_behind : (j : Text) → take (length j + 1) (j ++ 125 ∷ after) ≡ j ++ 125 ∷ []
    take_behind [] = ground arith
    take_behind (c ∷ j) = ground (arith, take_behind j)

-- the response of a server: the headers, an empty line, and the body
abbrev pub response_of : Text → List Text → Text → Text
response_of l ls body = lines (l ∷ ls) ++ 13 ∷ 10 ∷ body

module _ {Value : Type 0} (parse : Text → Option Value) where
  -- Of a response with headers, an empty line, and a JSON object with more text behind it that has no
  -- closing brace, the parser gets the object.
  pub parse_response_lem :
      (l : Text) (ls : List Text) (json after : Text)
      → IsHeader l
      → All IsHeader ls
      → All (λ c. c ≢ 125) after
      → parse_response parse (response_of l ls (json ++ 125 ∷ after)) ≡ parse (json ++ 125 ∷ [])
  unfolding parse_response body_start
  parse_response_lem l ls json after h hs g =
      let body = json ++ 125 ∷ after in
      let (n, long, found) = find_block l ls body h hs in
      let place : n + 4 ≡ length (lines (l ∷ ls) ++ 13 ∷ 10 ∷ []) =
        omega (arith, long, length-append (lines (l ∷ ls)) (13 ∷ 10 ∷ [])) in
      let rest : drop (n + 4) (response_of l ls body) ≡ body =
        ap (λ k. drop k (response_of l ls body)) place
        ∙ ap (drop (length (lines (l ∷ ls) ++ 13 ∷ 10 ∷ [])))
            (sym (append_assoc (lines (l ∷ ls)) (13 ∷ 10 ∷ []) body))
        ∙ drop-append (lines (l ∷ ls) ++ 13 ∷ 10 ∷ []) body in
      rw (found, parse_response, body_start)
        (ap (λ b. parse (cut_body b)) rest ∙ ap parse (cut_body_lem json after g))

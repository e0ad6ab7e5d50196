-- ===== src/Profiler/Span.antt =====
-- What `total_cycles` measures over any marks.
use quant_sim_x.Prelude.{
  ℕ, ◌+◌, ◌≤◌, ◌<◌, ◌^◌, ◌≡◌, refl, ap, sym, ◌∙◌, Bool, true, false, List, [], ◌∷◌, ◌++◌, map,
  length, length-append, get_or, sub64, arith, ltb, Option, none, some, Option-cases, inl, inr,
}
use mathlib.Core.List.{append_assoc, append-nil, map-append}
use quant_sim_x.Prelude.Text.{Text}
use quant_sim_x.Profiler.{Record, LatencyProfiler, no_record, mark, mark_with_latency, total_cycles}

-- A call of `mark`, or of `mark_with_latency` where there is a start.
pub record Mark : Type 0 where
  pub stage : Text
  pub start_ns : Option ℕ
  pub time_ns : ℕ
  pub cycles : ℕ

abbrev pub do_mark : LatencyProfiler → Mark → LatencyProfiler
do_mark p m = elim m.start_ns [
  | none ↦ mark p m.stage m.time_ns m.cycles
  | some start ↦ mark_with_latency p m.stage start m.time_ns m.cycles
]

abbrev pub marks : LatencyProfiler → List Mark → LatencyProfiler
marks p [] = p
marks p (m ∷ ms) = marks (do_mark p m) ms

abbrev record_of : Mark → Record
record_of m = record {
  timestamp_ns = m.time_ns;
  stage = m.stage;
  cycles = elim m.start_ns [ none ↦ m.cycles | some start ↦ sub64 m.cycles start ];
}

do_mark-records :
    (p : LatencyProfiler) (m : Mark)
    → p.enabled ≡ true
    → do_mark p m ≡ record p { records = p.records ++ record_of m ∷ [] }
unfolding mark mark_with_latency
do_mark-records p m e = elim (Option-cases m.start_ns) [
  | inl h ↦ ground (arith, e, h)
  | inr (start, h) ↦ ground (arith, e, h)
]

marks-records :
    (p : LatencyProfiler) (ms : List Mark)
    → p.enabled ≡ true
    → (marks p ms).records ≡ p.records ++ map record_of ms
marks-records p [] e = sym (append-nil p.records)
marks-records p (m ∷ ms) e =
    let one = do_mark-records p m e in
    marks-records (do_mark p m) ms (ap (λ q. q.enabled) one ∙ e)
    ∙ ap (λ q. q.records ++ map record_of ms) one
    ∙ append_assoc p.records (record_of m ∷ []) (map record_of ms)

marks-disabled :
    (rs : List Record) (ms : List Mark)
    → marks (record { enabled = false; records = rs }) ms ≡ record { enabled = false; records = rs }
unfolding mark mark_with_latency
marks-disabled rs [] = refl
marks-disabled rs (m ∷ ms) = elim (Option-cases m.start_ns) [
  | inl h ↦ rw (h) (marks-disabled rs ms)
  | inr (start, h) ↦ rw (h) (marks-disabled rs ms)
]

get_or-last : (xs : List Record) (x d : Record) → get_or (xs ++ x ∷ []) (length xs) d ≡ x
get_or-last [] x d = refl
get_or-last (y ∷ xs) x d = get_or-last xs x d

total_cycles-ends :
    (enabled : Bool) (x : Record) (xs : List Record) (y : Record)
    → total_cycles (record { enabled = enabled; records = x ∷ xs ++ y ∷ [] })
      ≡ sub64 y.cycles x.cycles
unfolding total_cycles
total_cycles-ends enabled x xs y =
    let n = length-append xs (y ∷ []) in
    let long : ltb (length (x ∷ xs ++ y ∷ [])) 2 ≡ false = ground (arith, n) in
    rw (long) (
      ap (λ k. sub64 (get_or (x ∷ xs ++ y ∷ []) k no_record).cycles x.cycles) {y = length (x ∷ xs)}
        (omega (arith, n))
      ∙ ap (λ r. sub64 r.cycles x.cycles) (get_or-last (x ∷ xs) y no_record))

-- An enabled profiler without records, after any marks whose first and last ones are calls of `mark`
-- with the counter not falling: `total_cycles` is the difference of these two, whatever was marked
-- between them. A disabled profiler has no record of any of them.
pub marks-total :
    (first last : Mark) (between : List Mark)
    → first.start_ns ≡ none
    → last.start_ns ≡ none
    → first.cycles ≤ last.cycles
    → last.cycles < 2 ^ 64
    → let ms = first ∷ between ++ last ∷ [] in
      (total_cycles (marks (record { enabled = true; records = [] }) ms) + first.cycles
        ≡ last.cycles)
      × ((marks (record { enabled = false; records = [] }) ms).records ≡ [])
unfolding total_cycles
marks-total first last between a b h g =
    let on : LatencyProfiler = record { enabled = true; records = [] } in
    let ms = first ∷ between ++ last ∷ [] in
    let kept = marks-records on ms refl in
    let whole : total_cycles (marks on ms)
        ≡ sub64 (record_of last).cycles (record_of first).cycles =
      ap (λ rs. total_cycles (record { enabled = true; records = rs }))
        (kept ∙ ap (λ rs. record_of first ∷ rs) (map-append record_of between (last ∷ [])))
      ∙ total_cycles-ends true (record_of first) (map record_of between) (record_of last) in
    let c : (record_of first).cycles ≡ first.cycles = rw (a) refl in
    let d : (record_of last).cycles ≡ last.cycles = rw (b) refl in
    (omega (arith, whole, c, d, h, g), ap (λ p. p.records) (marks-disabled [] ms))

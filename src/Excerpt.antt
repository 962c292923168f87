-- ===== src/Excerpt.antt =====
-- The excerpt of a tool's output: src/excerpt.c. Allocations succeed; the trace in JSON is left out.
use asterism_asngn.Common.{
  ℕ, zero, suc, ◌+◌, ◌-◌, ◌*◌, ◌/◌, Bool, true, false, not, ◌&&◌, ◌||◌, Option, none, some, List,
  [], ◌∷◌, ◌++◌, leb, ltb, ◌==◌, if◌then◌else◌, Bytes, has_byte, length, take, drop, get_or,
}
use asterism_asngn.Common.Errors.{AsngnErr, invalid, limit}
use asterism_asngn.Common.Decimal.{decimal}
use asterism_asngn.Text.Utf8.{is_cont, utf8_valid}
pub mod Windows
pub mod Kept
pub mod Merged

-- Why a part of the output is shown.
pub data Reason : Type 0 where
  compiler build traceback assertion test_run summary complete head_part tail_part diagnostics :
      Reason

unfoldable pub reason_text : Reason → Bytes
reason_text compiler = b'c' ∷ b'o' ∷ b'm' ∷ b'p' ∷ b'i' ∷ b'l' ∷ b'e' ∷ b'r' ∷ []
reason_text build = b'b' ∷ b'u' ∷ b'i' ∷ b'l' ∷ b'd' ∷ []
reason_text traceback = b't' ∷ b'r' ∷ b'a' ∷ b'c' ∷ b'e' ∷ b'b' ∷ b'a' ∷ b'c' ∷ b'k' ∷ []
reason_text assertion = b'a' ∷ b's' ∷ b's' ∷ b'e' ∷ b'r' ∷ b't' ∷ b'i' ∷ b'o' ∷ b'n' ∷ []
reason_text test_run = b't' ∷ b'e' ∷ b's' ∷ b't' ∷ []
reason_text summary = b's' ∷ b'u' ∷ b'm' ∷ b'm' ∷ b'a' ∷ b'r' ∷ b'y' ∷ []
reason_text complete = b'c' ∷ b'o' ∷ b'm' ∷ b'p' ∷ b'l' ∷ b'e' ∷ b't' ∷ b'e' ∷ []
reason_text head_part = b'h' ∷ b'e' ∷ b'a' ∷ b'd' ∷ []
reason_text tail_part = b't' ∷ b'a' ∷ b'i' ∷ b'l' ∷ []
reason_text diagnostics =
    b'd' ∷ b'i' ∷ b'a' ∷ b'g' ∷ b'n' ∷ b'o' ∷ b's' ∷ b't' ∷ b'i' ∷ b'c' ∷ b's' ∷ []

pub record Span : Type 0 where
  pub start : ℕ
  pub end : ℕ
  pub reason : Reason

abbrev pub span : ℕ → ℕ → Reason → Span
span a b r = record { start = a; end = b; reason = r }

-- `markers`.
abbrev pub markers : List (Bytes × Reason)
markers =
    (b':' ∷ b' ' ∷ b'e' ∷ b'r' ∷ b'r' ∷ b'o' ∷ b'r' ∷ b':' ∷ [], compiler)
    ∷ (
      b':' ∷ b' ' ∷ b'f' ∷ b'a' ∷ b't' ∷ b'a' ∷ b'l' ∷ b' ' ∷ b'e' ∷ b'r' ∷ b'r' ∷ b'o' ∷ b'r'
          ∷ b':' ∷ [],
      compiler,
    )
    ∷ (b'e' ∷ b'r' ∷ b'r' ∷ b'o' ∷ b'r' ∷ b'[' ∷ b'E' ∷ [], compiler)
    ∷ (b' ' ∷ b'e' ∷ b'r' ∷ b'r' ∷ b'o' ∷ b'r' ∷ b' ' ∷ b'C' ∷ [], compiler)
    ∷ (b'C' ∷ b'M' ∷ b'a' ∷ b'k' ∷ b'e' ∷ b' ' ∷ b'E' ∷ b'r' ∷ b'r' ∷ b'o' ∷ b'r' ∷ [], build)
    ∷ (b'F' ∷ b'A' ∷ b'I' ∷ b'L' ∷ b'E' ∷ b'D' ∷ b':' ∷ [], build)
    ∷ (
      b'T' ∷ b'r' ∷ b'a' ∷ b'c' ∷ b'e' ∷ b'b' ∷ b'a' ∷ b'c' ∷ b'k' ∷ b' ' ∷ b'(' ∷ b'm' ∷ b'o'
          ∷ b's' ∷ b't' ∷ b' ' ∷ b'r' ∷ b'e' ∷ b'c' ∷ b'e' ∷ b'n' ∷ b't' ∷ b' ' ∷ b'c' ∷ b'a' ∷ b'l'
          ∷ b'l' ∷ b' ' ∷ b'l' ∷ b'a' ∷ b's' ∷ b't' ∷ b')' ∷ b':' ∷ [],
      traceback,
    )
    ∷ (
      b'A' ∷ b's' ∷ b's' ∷ b'e' ∷ b'r' ∷ b't' ∷ b'i' ∷ b'o' ∷ b'n' ∷ b'E' ∷ b'r' ∷ b'r' ∷ b'o'
          ∷ b'r' ∷ [],
      assertion,
    )
    ∷ (b'F' ∷ b'A' ∷ b'I' ∷ b'L' ∷ b'E' ∷ b'D' ∷ b' ' ∷ [], test_run)
    ∷ (b'F' ∷ b'A' ∷ b'I' ∷ b'L' ∷ b':' ∷ b' ' ∷ [], test_run)
    ∷ (b'*' ∷ b'*' ∷ b'*' ∷ b'F' ∷ b'a' ∷ b'i' ∷ b'l' ∷ b'e' ∷ b'd' ∷ [], test_run)
    ∷ (
      b'E' ∷ b'R' ∷ b'R' ∷ b'O' ∷ b'R' ∷ b' ' ∷ b'c' ∷ b'o' ∷ b'l' ∷ b'l' ∷ b'e' ∷ b'c' ∷ b't'
          ∷ b'i' ∷ b'n' ∷ b'g' ∷ b' ' ∷ [],
      test_run,
    )
    ∷ (
      b't' ∷ b'e' ∷ b's' ∷ b't' ∷ b' ' ∷ b'r' ∷ b'e' ∷ b's' ∷ b'u' ∷ b'l' ∷ b't' ∷ b':' ∷ b' '
          ∷ b'F' ∷ b'A' ∷ b'I' ∷ b'L' ∷ b'E' ∷ b'D' ∷ [],
      test_run,
    )
    ∷ (
      b't' ∷ b'e' ∷ b's' ∷ b't' ∷ b's' ∷ b' ' ∷ b'f' ∷ b'a' ∷ b'i' ∷ b'l' ∷ b'e' ∷ b'd' ∷ [],
      summary,
    )
    ∷ []

-- `memcmp` of the text with a marker that must fit in it.
abbrev pub prefix : Bytes → Bytes → Bool
prefix [] s = true
prefix (p ∷ ps) [] = false
prefix (p ∷ ps) (ch ∷ s) = ch == p && prefix ps s

-- The reason of the first marker that stands at a position.
unfoldable pub marker_at : List (Bytes × Reason) → Bytes → Option Reason
marker_at [] s = none
marker_at ((text, reason) ∷ ms) s =
    let later = marker_at ms s in if prefix text s then some reason else later

-- The loops of `window`: over continuation bytes forward, from position `i` on, and back to `start`.
unfoldable pub skip_cont : ℕ → Bytes → ℕ
skip_cont i [] = i
skip_cont i (ch ∷ s) = let later = skip_cont (suc i) s in if is_cont ch then later else i

unfoldable pub back_off : Bytes → ℕ → ℕ → ℕ
back_off text start zero = zero
back_off text start (suc e) =
    let sooner = back_off text start e in
    if ltb start (suc e) && ltb (suc e) (length text) && is_cont (get_or text (suc e) 0)
    then sooner
    else suc e

-- `window`.
unfoldable pub window : Bytes → ℕ → ℕ → Reason → Span
window text at width reason =
    let start = skip_cont at (drop at text) in
    let end = if ltb width (length text - start) then start + width else length text in
    span start (back_off text start end) reason

-- `ASNGN_EXCERPT_SPANS`.
abbrev pub excerpt_spans : ℕ
excerpt_spans = 8

-- The number of windows and the width of each, for a budget of 512 bytes at least.
unfoldable pub slots_of : ℕ → ℕ
slots_of budget =
    let n = (budget - 256) / 128 in
    if ltb n 2 then 2 else if ltb excerpt_spans n then excerpt_spans else n

unfoldable pub width_of : ℕ → ℕ
width_of budget = (budget - 256) / slots_of budget - 64

abbrev pub count : List Span → ℕ
count [] = 0
count (m ∷ ms) = suc (count ms)

-- The last span covers a new one.
unfoldable pub is_covered : Span → List Span → Bool
is_covered s [] = false
is_covered s (m ∷ []) = leb s.start m.end && leb s.end m.end
is_covered s (m ∷ n ∷ ms) = is_covered s (n ∷ ms)

-- `memmove`: the second span makes room.
unfoldable pub drop_second : List Span → List Span
drop_second (m ∷ n ∷ ms) = m ∷ ms
drop_second ms = ms

-- What becomes of the spans and the number of matches where a marker stands.
unfoldable pub keep_span : ℕ → Span → List Span → List Span
keep_span slots s spans =
    if is_covered s spans
    then spans
    else (if count spans == slots then drop_second spans else spans) ++ s ∷ []

-- The loop over the text, from position `at` on.
unfoldable pub select_loop : Bytes → ℕ → ℕ → ℕ → Bytes → List Span × ℕ → List Span × ℕ
select_loop text slots width at [] kept = kept
select_loop text slots width at (ch ∷ s) (spans, matches) = elim (marker_at markers (ch ∷ s)) [
  | none ↦ select_loop text slots width (suc at) s (spans, matches)
  | some reason ↦
      let from = if ltb (width / 4) at then at - width / 4 else 0 in
      select_loop text slots width (suc at) s
        (keep_span slots (window text from width reason) spans, suc matches)
]

-- Without a marker, the start and the end of the output.
unfoldable pub or_ends : Bytes → ℕ → List Span → List Span
or_ends text budget [] =
    let width = (budget - 256) / 2 - 64 in
    window text 0 width head_part ∷ window text (length text - width) width tail_part ∷ []
or_ends text budget (m ∷ ms) = m ∷ ms

-- qsort by `by_start`.
unfoldable pub insert_span : Span → List Span → List Span
insert_span x [] = x ∷ []
insert_span x (y ∷ ys) =
    let later = insert_span x ys in if leb x.start y.start then x ∷ y ∷ ys else y ∷ later

unfoldable pub sort_spans : List Span → List Span
sort_spans [] = []
sort_spans (x ∷ xs) = insert_span x (sort_spans xs)

-- The loop that merges, with the last merged span as an argument.
unfoldable pub merge_loop : Span → List Span → List Span
merge_loop last [] = last ∷ []
merge_loop last (s ∷ ss) =
    let longer =
      merge_loop (span last.start (if ltb last.end s.end then s.end else last.end) diagnostics)
        ss in
    let next = last ∷ merge_loop s ss in if leb s.start last.end then longer else next

unfoldable pub merge : List Span → List Span
merge [] = []
merge (s ∷ ss) = merge_loop s ss

-- The spans that the view shows of an output longer than the budget.
unfoldable pub shown : Bytes → ℕ → List Span
shown text budget =
    let (spans, matches) = select_loop text (slots_of budget) (width_of budget) 0 text ([], 0) in
    merge (sort_spans (or_ends text budget spans))

unfoldable pub print_spans : Bytes → List Span → Bytes
print_spans text [] = []
print_spans text (m ∷ ms) =
    (b'\n' ∷ b'[' ∷ b'b' ∷ b'y' ∷ b't' ∷ b'e' ∷ b's' ∷ b' ' ∷ [])
    ++ (decimal m.start
        ++ b'-' ∷ (decimal m.end ++ b';' ∷ b' ' ∷ (reason_text m.reason ++ b']' ∷ b'\n' ∷ [])))
    ++ (take (m.end - m.start) (drop m.start text) ++ b'\n' ∷ print_spans text ms)

unfoldable pub print_view : Bytes → ℕ → List Span → Bytes
print_view text matches spans =
    (b'[' ∷ b'e' ∷ b'x' ∷ b't' ∷ b'r' ∷ b'a' ∷ b'c' ∷ b't' ∷ b'i' ∷ b'v' ∷ b'e' ∷ b' ' ∷ b'v' ∷ b'i'
      ∷ b'e' ∷ b'w' ∷ b':' ∷ b' ' ∷ [])
    ++ (decimal matches
        ++ (b' ' ∷ b'd' ∷ b'i' ∷ b'a' ∷ b'g' ∷ b'n' ∷ b'o' ∷ b's' ∷ b't' ∷ b'i' ∷ b'c' ∷ b' ' ∷ b'm'
            ∷ b'a' ∷ b'r' ∷ b'k' ∷ b'e' ∷ b'r' ∷ b's' ∷ b';' ∷ b' ' ∷ b'o' ∷ b't' ∷ b'h' ∷ b'e'
            ∷ b'r' ∷ b' ' ∷ b'b' ∷ b'y' ∷ b't' ∷ b'e' ∷ b's' ∷ b' ' ∷ b'o' ∷ b'm' ∷ b'i' ∷ b't'
            ∷ b't' ∷ b'e' ∷ b'd' ∷ b';' ∷ b' ' ∷ b'n' ∷ b'o' ∷ b't' ∷ b' ' ∷ b'a' ∷ b' ' ∷ b'v'
            ∷ b'e' ∷ b'r' ∷ b'i' ∷ b'f' ∷ b'i' ∷ b'c' ∷ b'a' ∷ b't' ∷ b'i' ∷ b'o' ∷ b'n' ∷ b' '
            ∷ b'r' ∷ b'e' ∷ b's' ∷ b'u' ∷ b'l' ∷ b't' ∷ b']' ∷ b'\n' ∷ [])
        ++ print_spans text spans)

-- `asngn_excerpt_build`: the text of the view and its spans, or an error.
unfoldable pub excerpt_build : Bytes → ℕ → Option AsngnErr × Bytes × List Span
excerpt_build text budget =
    let (spans, matches) = select_loop text (slots_of budget) (width_of budget) 0 text ([], 0) in
    let view = print_view text matches (shown text budget) in
    if ltb budget 512 || ltb 65536 budget || has_byte 0 text || not (utf8_valid text)
    then (some invalid, [], [])
    else if leb (length text) budget
    then (none, text, span 0 (length text) complete ∷ [])
    else if ltb budget (length view)
    then (some limit, [], shown text budget)
    else (none, view, shown text budget)

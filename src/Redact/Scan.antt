-- ===== src/Redact/Scan.antt =====
-- The two phases of `asngn_redact` of src/redact.c and the copy of the text. A span is a range of byte
-- positions; allocations succeed. Whether a run's Shannon entropy, computed in floating point, reaches
-- the bar of its alphabet is the argument `is_random`; qsort puts equal starts in the order they have.
use asterism_asngn.Common.{
  ℕ, zero, suc, ◌+◌, ◌-◌, ◌*◌, Bool, false, not, ◌&&◌, ◌||◌, Option, none, some, List, [], ◌∷◌,
  ◌++◌, leb, within, ◌==◌, if◌then◌else◌, Bytes, all, length, take, drop, get_or,
}
use asterism_asngn.Sha256.{sha256, sha256_hex}
use asterism_asngn.Redact.Patterns.{cls_entropy, run_length, Match, match_structural}

pub record Span : Type 0 where
  pub start : ℕ
  pub end : ℕ

abbrev pub span : ℕ → ℕ → Span
span a b = record { start = a; end = b }

-- A consumed region with the mask inside it.
pub record Hit : Type 0 where
  pub consumed : Span
  pub mask : Span

abbrev pub hit_at : ℕ → Match → Hit
hit_at i m = record {
  consumed = span i (i + m.total);
  mask = span (i + m.off) (i + m.off + m.size);
}

-- The character in front of what follows `n` more characters.
abbrev pub last_of : ℕ → Bytes → Option ℕ
last_of zero s = none
last_of (suc n) s = some (get_or s n 0)

-- Phase 1, on fuel: a round consumes a byte at least. A match that consumes nothing is none.
unfoldable pub structural_loop : ℕ → Option ℕ → ℕ → Bytes → List Hit
structural_loop zero before i s = []
structural_loop (suc fuel) before i [] = []
structural_loop (suc fuel) before i (ch ∷ s) = elim (match_structural before (ch ∷ s)) [
  | none ↦ structural_loop fuel (some ch) (suc i) s
  | some m ↦
      hit_at i m
      ∷ structural_loop fuel (last_of m.total (ch ∷ s)) (i + m.total) (drop m.total (ch ∷ s))
]

abbrev pub is_letter : ℕ → Bool
is_letter ch = within b'A' b'Z' ch || within b'a' b'z' ch

abbrev pub is_hex : ℕ → Bool
is_hex ch = within b'0' b'9' ch || within b'a' b'f' ch || within b'A' b'F' ch

-- A character passes the test.
abbrev pub any : (ℕ → Bool) → Bytes → Bool
any p [] = false
any p (ch ∷ s) = p ch || any p s

-- The masks in the order in which they are found.
abbrev pub masks_of : List Hit → List Span
masks_of [] = []
masks_of (h ∷ hs) = h.mask ∷ masks_of hs

-- qsort by `span_cmp`.
unfoldable pub insert_span : Span → List Span → List Span
insert_span x [] = x ∷ []
insert_span x (y ∷ ys) =
    let later = insert_span x ys in if leb x.start y.start then x ∷ y ∷ ys else y ∷ later

unfoldable pub sort_spans : List Span → List Span
sort_spans [] = []
sort_spans (x ∷ xs) = insert_span x (sort_spans xs)

unfoldable pub masked_bytes : List Span → ℕ
masked_bytes [] = 0
masked_bytes (m ∷ ms) = (m.end - m.start) + masked_bytes ms

abbrev pub count : List Span → ℕ
count [] = 0
count (m ∷ ms) = suc (count ms)

-- `out_len`, the size of the block that is allocated, less the NUL.
unfoldable pub out_len : Bytes → List Span → ℕ
out_len text masks = length text - masked_bytes masks + count masks * 21

-- «redacted:XXXXXXXX», with the first four bytes of the digest.
unfoldable pub marker : Bytes → Bytes
marker secret =
    0xc2
    ∷ 0xab
    ∷ b'r'
    ∷ b'e'
    ∷ b'd'
    ∷ b'a'
    ∷ b'c'
    ∷ b't'
    ∷ b'e'
    ∷ b'd'
    ∷ b':'
    ∷ (sha256_hex (sha256 secret) 4 ++ 0xc2 ∷ 0xbb ∷ [])

-- The copy from position `at` on.
unfoldable pub write_out : Bytes → ℕ → List Span → Bytes
write_out text at [] = drop at text
write_out text at (m ∷ ms) =
    take (m.start - at) (drop at text)
    ++ (marker (take (m.end - m.start) (drop m.start text)) ++ write_out text m.end ms)

module _ (is_random : Bool → Bytes → Bool) where
  unfoldable pub run_is_secret : Bytes → Bool
  run_is_secret run =
      if not (any (within b'0' b'9') run) || not (any is_letter run)
      then false
      else is_random (all is_hex run) run

  abbrev pub entropy_mask : ℕ → ℕ → Bytes → List Span
  entropy_mask i run s =
      if leb 32 run && run_is_secret (take run s) then span i (i + run) ∷ [] else []

  -- `scan_entropy` on the bytes of a gap that starts at `i`, on fuel.
  unfoldable pub entropy_loop : ℕ → ℕ → Bytes → List Span
  entropy_loop zero i s = []
  entropy_loop (suc fuel) i [] = []
  entropy_loop (suc fuel) i (ch ∷ s) =
      let run = run_length cls_entropy (ch ∷ s) in
      let skipped = entropy_loop fuel (suc i) s in
      let later = entropy_loop fuel (i + run) (drop run (ch ∷ s)) in
      if not (cls_entropy ch) then skipped else entropy_mask i run (ch ∷ s) ++ later

  unfoldable pub scan_entropy : Bytes → ℕ → ℕ → List Span
  scan_entropy text a b = entropy_loop (b - a) a (take (b - a) (drop a text))

  -- Phase 2: the gaps that phase 1 left.
  unfoldable pub scan_gaps : Bytes → ℕ → List Hit → List Span
  scan_gaps text at [] = scan_entropy text at (length text)
  scan_gaps text at (h ∷ hs) =
      scan_entropy text at h.consumed.start ++ scan_gaps text h.consumed.end hs

  unfoldable pub find_masks : Bytes → List Span
  find_masks text =
      let hits = structural_loop (length text) none 0 text in masks_of hits ++ scan_gaps text 0 hits

  -- `asngn_redact`: the new text, none where nothing is masked, and the number of masks.
  unfoldable pub redact : Bytes → Option Bytes × ℕ
  redact text =
      let masks = sort_spans (find_masks text) in
      if count masks == 0 then (none, 0) else (some (write_out text 0 masks), count masks)

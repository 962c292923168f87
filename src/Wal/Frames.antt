-- ===== src/Wal/Frames.antt =====
-- Proofs on one frame of the log of src/wal.c.
use asterism_asngn.Common.{
  ℕ, zero, suc, ◌+◌, ◌-◌, ◌≤◌, ◌<◌, ◌≡◌, refl, ◌∙◌, ap, false, not, some, [], ◌∷◌, ◌++◌,
  append_assoc, ltb, leb, if_true, if_false, Bytes, bytes_eq_refl, has_byte, take, drop, length,
  length-append, length-take, All-take, arith, Bool-cases, inl, inr, pick_on, leb→le, leb-false,
  take-ge, take-append, drop-append, take-append_add, take-append_le, drop-length, or_false,
  not-true,
}
use asterism_asngn.Wal.{
  frame_max, digest, canonical, frame_of, fgets, c_string, parse_header, torn, frame, read_end,
  read_record, read_line, read_frame,
}
use asterism_asngn.Wal.Decimal.{IsPlain}
use asterism_asngn.Wal.Header.{
  fgets-line, fgets-short, c_string-line, has_byte-line, has_byte-IsPlain, header_line,
  header_line-IsPlain, length-header_line, parse_header-line,
}

-- The limit of a scan.
abbrev pub IsLimit : ℕ → Type 0
IsLimit frame_limit = (0 < frame_limit) × (frame_limit ≤ frame_max)

-- A record that the scan may hand on: its size is in range, and no byte of it is a NUL.
abbrev pub IsRecord : ℕ → Bytes → Type 0
IsRecord frame_limit r = (0 < length r) × (length r ≤ frame_limit) × (has_byte 0 r ≡ false)

abbrev line_of : Bytes → Bytes
line_of r = header_line (length r) (digest r)

frame_of-split : (r rest : Bytes) → frame_of r ++ rest ≡ line_of r ++ b'\n' ∷ (r ++ b'\n' ∷ rest)
unfolding frame_of
frame_of-split r rest =
    append_assoc (line_of r) (b'\n' ∷ (r ++ b'\n' ∷ [])) rest
    ∙ ap (λ s. line_of r ++ b'\n' ∷ s) (append_assoc r (b'\n' ∷ []) rest)

pub length-frame_of :
    (r : Bytes) → (length r < length (frame_of r)) × (length (frame_of r) ≤ length r + 168)
unfolding frame_of
length-frame_of r = omega (
  arith,
  length-append (line_of r) (b'\n' ∷ (r ++ b'\n' ∷ [])),
  length-append r (b'\n' ∷ []),
  length-header_line (length r) r,
)

-- A file that starts with a header has a byte.
reads_line :
    (frame_limit n : ℕ) (hash tail : Bytes)
    → read_frame frame_limit (header_line n hash ++ tail)
      ≡ read_line frame_limit (fgets 223 (header_line n hash ++ tail))
unfolding read_frame canonical
reads_line frame_limit n hash tail = refl

-- Behind a whole header, the record is read.
read_frame-line :
    (frame_limit : ℕ) (r body : Bytes)
    → 0 < length r
    → length r ≤ frame_max
    → read_frame frame_limit (line_of r ++ b'\n' ∷ body)
      ≡ read_record frame_limit (some (length r, digest r)) body
unfolding read_line
read_frame-line frame_limit r body pos fits =
    let line = line_of r in
    let plain = header_line-IsPlain (length r) r in
    let whole : c_string (line ++ b'\n' ∷ []) ≡ line ++ b'\n' ∷ [] = c_string-line line plain in
    let ends : not (has_byte b'\n' (c_string (line ++ b'\n' ∷ []))) ≡ false =
      not-true (ap (has_byte b'\n') whole ∙ has_byte-line line) in
    reads_line frame_limit (length r) (digest r) (b'\n' ∷ body)
    ∙ ap (read_line frame_limit)
        (fgets-line 223 line body plain (omega (arith, length-header_line (length r) r)))
    ∙ if_false _ _ ends
    ∙ ap (λ s. read_record frame_limit (parse_header s) body) whole
    ∙ ap (λ h. read_record frame_limit h body) (parse_header-line (length r) r pos fits)

read_end-record :
    (r rest : Bytes) → has_byte 0 r ≡ false → read_end (digest r) r (b'\n' ∷ rest) ≡ frame r rest
unfolding read_end
read_end-record r rest clean = if_false _ _ (or_false (not-true (bytes_eq_refl (digest r))) clean)

-- A whole frame is read back as its record, and what is behind it is left.
pub read_frame-frame_of :
    (frame_limit : ℕ) (r rest : Bytes)
    → IsLimit frame_limit
    → IsRecord frame_limit r
    → read_frame frame_limit (frame_of r ++ rest) ≡ frame r rest
unfolding read_record
read_frame-frame_of frame_limit r rest ok h =
    let body = r ++ b'\n' ∷ rest in
    let in_range : ltb frame_limit (length r) ≡ false = ground (arith, h.1) in
    let long : ltb (length body) (length r) ≡ false =
      ground (arith, length-append r (b'\n' ∷ rest)) in
    ap (read_frame frame_limit) (frame_of-split r rest)
    ∙ read_frame-line frame_limit r body h.0 (omega (arith, h.1, ok.1))
    ∙ if_false _ _ in_range
    ∙ if_false _ _ long
    ∙ ap (λ s. read_end (digest r) s (drop (length r) body)) (take-append r _)
    ∙ ap (read_end (digest r) r) (drop-append r _)
    ∙ read_end-record r rest h.2

-- A part of a header is no line.
torn_header :
    (frame_limit : ℕ) (r : Bytes) (k : ℕ)
    → 0 < k
    → k ≤ length (line_of r)
    → read_frame frame_limit (take k (line_of r)) ≡ torn
unfolding read_frame canonical read_line
torn_header frame_limit r zero pos fits = absurd (omega arith)
torn_header frame_limit r (suc k) pos fits =
    let line = take (suc k) (line_of r) in
    let plain : IsPlain line = All-take _ (suc k) (line_of r) (header_line-IsPlain (length r) r) in
    let small : length line < 223 =
      omega (arith, length-take (suc k) (line_of r), length-header_line (length r) r) in
    ap (read_line frame_limit) (fgets-short 223 line plain small)
    ∙ if_true _ _ (ap not (has_byte-IsPlain line plain))

-- A part of the record, or the record without its separator, is torn.
torn_record :
    (frame_limit : ℕ) (r : Bytes) (j : ℕ)
    → j ≤ length r
    → length r ≤ frame_limit
    → read_record frame_limit (some (length r, digest r)) (take j (r ++ b'\n' ∷ [])) ≡ torn
unfolding read_record read_end
torn_record frame_limit r j h fits =
    let body : take j (r ++ b'\n' ∷ []) ≡ take j r = take-append_le j r _ h in
    let in_range : ltb frame_limit (length r) ≡ false = ground arith in
    ap (read_record frame_limit (some (length r, digest r))) body
    ∙ if_false _ _ in_range
    ∙ pick_on (λ x. x ≡ torn) (ltb (length (take j r)) (length r)) torn _ (λ short. refl)
        (λ whole.
          let all_of_it : length r ≤ j = ground (arith, length-take j r) in
          ap (read_end (digest r) (take (length r) (take j r)))
            (ap (drop (length r)) (take-ge j r all_of_it) ∙ drop-length r))

-- A frame that was cut off inside is torn, wherever it was cut.
pub read_frame-torn :
    (frame_limit : ℕ) (r : Bytes) (k : ℕ)
    → IsLimit frame_limit
    → 0 < length r
    → length r ≤ frame_limit
    → 0 < k
    → k < length (frame_of r)
    → read_frame frame_limit (take k (frame_of r)) ≡ torn
unfolding frame_of
read_frame-torn frame_limit r k ok pos fits some_byte cut =
    let line = line_of r in
    let tail = b'\n' ∷ (r ++ b'\n' ∷ []) in
    elim (Bool-cases (leb k (length line))) [
      | inl inside ↦
          ap (read_frame frame_limit) (take-append_le k line tail (leb→le k _ inside))
          ∙ torn_header frame_limit r k some_byte (leb→le k _ inside)
      | inr behind ↦
          let j = k - (length line + 1) in
          let split : k ≡ length line + suc j = omega (arith, leb-false k (length line) behind) in
          let short : j ≤ length r =
            omega (arith, length-append line tail, length-append r (b'\n' ∷ [])) in
          ap (λ n. read_frame frame_limit (take n (line ++ tail))) split
          ∙ ap (read_frame frame_limit) (take-append_add line tail (suc j))
          ∙ read_frame-line frame_limit r (take j (r ++ b'\n' ∷ [])) pos (omega (arith, ok.1))
          ∙ torn_record frame_limit r j short fits
    ]

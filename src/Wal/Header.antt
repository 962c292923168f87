-- ===== src/Wal/Header.antt =====
-- Proofs on the header line of a frame of src/wal.c.
use asterism_asngn.Common.{
  ℕ, zero, suc, ◌+◌, ◌^◌, ◌≤◌, ◌<◌, ◌≡◌, refl, ◌∙◌, ap, subst, true, false, ◌==◌, some, [], ◌∷◌,
  ◌++◌, append_assoc, ltb, within, if_false, Bytes, bytes_eq, bytes_eq_refl, has_byte, take, drop,
  length, length-append, get_or, All-append, arith, pick, or_false, not-true, ==_iff, take-append,
  drop-append_add, get_or-append_add,
}
use asterism_asngn.Sha256.Digest.{length-sha256_hex, sha256_hex-IsPlain}
use asterism_asngn.Common.Decimal.{digits, decimal}
use asterism_asngn.Wal.{
  frame_max, magic, digest, canonical, read_digits, fgets, c_string, check_header, header_size,
  parse_header,
}
use asterism_asngn.Wal.Decimal.{
  IsPlain, read_digits-digits, length-digits, digits-IsPlain, digits-first,
}

is_above : (k ch : ℕ) → k < ch → (ch == k) ≡ false
is_above k ch h = ground arith

-- A line that fits in the buffer is read at once.
pub fgets-line :
    (room : ℕ) (line rest : Bytes)
    → IsPlain line
    → length line < room
    → fgets room (line ++ b'\n' ∷ rest) ≡ (line ++ b'\n' ∷ [], rest, false)
unfolding fgets
fgets-line zero line rest plain fits = absurd (omega arith)
fgets-line (suc room) [] rest plain fits = refl
fgets-line (suc room) (ch ∷ line) rest plain fits =
    rw (fgets-line room line rest plain.1 (omega arith)) (if_false _ _ (is_above 10 ch plain.0))

pub c_string-line :
    (line : Bytes) → IsPlain line → c_string (line ++ b'\n' ∷ []) ≡ line ++ b'\n' ∷ []
unfolding c_string
c_string-line [] plain = refl
c_string-line (ch ∷ line) plain =
    if_false _ _ (is_above 0 ch (omega (arith, plain.0))) ∙ ap (◌∷◌ ch) (c_string-line line plain.1)

pub has_byte-line : (line : Bytes) → has_byte b'\n' (line ++ b'\n' ∷ []) ≡ true
has_byte-line [] = refl
has_byte-line (ch ∷ line) = ground (arith, has_byte-line line)

-- A line that has not ended yet.
pub fgets-short :
    (room : ℕ) (line : Bytes)
    → IsPlain line
    → length line < room
    → fgets room line ≡ (line, [], true)
unfolding fgets
fgets-short zero line plain fits = absurd (omega arith)
fgets-short (suc room) [] plain fits = refl
fgets-short (suc room) (ch ∷ line) plain fits =
    rw (fgets-short room line plain.1 (omega arith)) (if_false _ _ (is_above 10 ch plain.0))

pub has_byte-IsPlain : (line : Bytes) → IsPlain line → has_byte b'\n' (c_string line) ≡ false
unfolding c_string
has_byte-IsPlain [] plain = refl
has_byte-IsPlain (ch ∷ line) plain =
    pick (λ s. has_byte b'\n' s ≡ false) (ch == 0) _ _ refl
      (ground (arith, plain.0, has_byte-IsPlain line plain.1))

canonical-IsPlain : (n : ℕ) (hash : Bytes) → IsPlain hash → IsPlain (canonical n hash)
unfolding canonical decimal
canonical-IsPlain n hash plain =
    All-append _ magic _ (omega arith)
      (All-append _ (digits 20 n) _ (digits-IsPlain 20 n) (omega arith, plain))

length-canonical : (n : ℕ) (hash : Bytes) → length (canonical n hash) ≤ 37 + length hash
unfolding canonical decimal
length-canonical n hash =
    omega (arith, length-append (digits 20 n) (b' ' ∷ hash), length-digits 20 n)

digest-IsPlain : (r : Bytes) → IsPlain (digest r)
unfolding digest
digest-IsPlain r = sha256_hex-IsPlain r

pub length-digest : (r : Bytes) → length (digest r) ≡ 64
unfolding digest
length-digest r = length-sha256_hex r

-- The header line of a record, without its line feed.
abbrev pub header_line : ℕ → Bytes → Bytes
header_line n hash = canonical n hash ++ b' ' ∷ digest (canonical n hash)

pub header_line-IsPlain : (n : ℕ) (r : Bytes) → IsPlain (header_line n (digest r))
header_line-IsPlain n r =
    let start = canonical n (digest r) in
    All-append _ start _ (canonical-IsPlain n (digest r) (digest-IsPlain r))
      (omega arith, digest-IsPlain start)

pub length-header_line : (n : ℕ) (r : Bytes) → length (header_line n (digest r)) ≤ 166
length-header_line n r =
    let start = canonical n (digest r) in
    omega (
      arith,
      length-append start (b' ' ∷ digest start),
      length-canonical n (digest r),
      length-digest r,
      length-digest start,
    )

module _ (n : ℕ) (hash tag : Bytes) (h : length hash ≡ 64) (t : length tag ≡ 64) where
  -- What stands behind the digits of a header.
  abbrev end_of : Bytes
  end_of = b' ' ∷ (hash ++ b' ' ∷ (tag ++ b'\n' ∷ []))

  length-end_of : length end_of ≡ 131
  length-end_of =
      omega (
        arith,
        h,
        t,
        length-append hash (b' ' ∷ (tag ++ b'\n' ∷ [])),
        length-append tag (b'\n' ∷ []),
      )

  get_or-end_of_65 : get_or end_of 65 0 ≡ b' '
  get_or-end_of_65 =
      subst (λ k. get_or end_of (suc (k + 0)) 0 ≡ b' ') h
        (get_or-append_add hash (b' ' ∷ (tag ++ b'\n' ∷ [])) 0 0)

  get_or-end_of_130 : get_or end_of 130 0 ≡ b'\n'
  get_or-end_of_130 =
      subst (λ k. get_or end_of (suc (k + 65)) 0 ≡ b'\n') h
        (get_or-append_add hash (b' ' ∷ (tag ++ b'\n' ∷ [])) 65 0
          ∙ subst (λ k. get_or (tag ++ b'\n' ∷ []) (k + 0) 0 ≡ b'\n') t
              (get_or-append_add tag (b'\n' ∷ []) 0 0))

  take-end_of : take 64 (drop 1 end_of) ≡ hash
  take-end_of =
      subst (λ k. take k (hash ++ b' ' ∷ (tag ++ b'\n' ∷ [])) ≡ hash) h (take-append hash _)

  drop-end_of : take 64 (drop 66 end_of) ≡ tag
  drop-end_of =
      subst (λ k. take 64 (drop (k + 1) (hash ++ b' ' ∷ (tag ++ b'\n' ∷ []))) ≡ tag) h
        (ap (take 64) (drop-append_add hash (b' ' ∷ (tag ++ b'\n' ∷ [])) 1)
          ∙ subst (λ k. take k (tag ++ b'\n' ∷ []) ≡ tag) t (take-append tag _))

  header-at_end : (canonical n hash ++ b' ' ∷ tag) ++ b'\n' ∷ [] ≡ magic ++ (decimal n ++ end_of)
  unfolding canonical
  header-at_end =
      append_assoc (canonical n hash) (b' ' ∷ tag) (b'\n' ∷ [])
      ∙ ap (◌++◌ magic) (append_assoc (decimal n) (b' ' ∷ hash) _)

  check_header-line :
      tag ≡ digest (canonical n hash)
      → check_header ((canonical n hash ++ b' ' ∷ tag) ++ b'\n' ∷ []) n hash end_of ≡ some (n, hash)
  unfolding check_header
  check_header-line e =
      let start = canonical n hash in
      let split = append_assoc start (b' ' ∷ tag) (b'\n' ∷ []) in
      let front : bytes_eq (take (length start) ((start ++ b' ' ∷ tag) ++ b'\n' ∷ [])) start
          ≡ true =
        ap (λ s. bytes_eq (take (length start) s) start) split
        ∙ ap (λ s. bytes_eq s start) (take-append start _)
        ∙ bytes_eq_refl start in
      let here : length start ≡ length start + 0 = omega arith in
      let space : (get_or ((start ++ b' ' ∷ tag) ++ b'\n' ∷ []) (length start) 0 == b' ') ≡ true =
        ap (λ s. get_or s (length start) 0 == b' ') split
        ∙ ap (λ k. get_or (start ++ b' ' ∷ (tag ++ b'\n' ∷ [])) k 0 == b' ') here
        ∙ ap (λ ch. ch == b' ') (get_or-append_add start (b' ' ∷ (tag ++ b'\n' ∷ [])) 0 0) in
      let digested : bytes_eq (take 64 (drop 66 end_of)) (digest start) ≡ true =
        ap (λ s. bytes_eq s (digest start)) (drop-end_of ∙ e) ∙ bytes_eq_refl (digest start) in
      if_false _ _ (or_false (or_false (not-true front) (not-true space)) (not-true digested))

  header_size-line :
      tag ≡ digest (canonical n hash)
      → 0 < n
      → n ≤ frame_max
      → header_size ((canonical n hash ++ b' ' ∷ tag) ++ b'\n' ∷ []) (n, end_of) ≡ some (n, hash)
  unfolding header_size
  header_size-line e pos fits =
      let some_size : (n == 0) ≡ false = ground arith in
      let first : (get_or end_of 0 0 == b' ') ≡ true = refl in
      let in_range : ltb frame_max n ≡ false = ground arith in
      let size : (length end_of == 131) ≡ true = (==_iff _ _).1 length-end_of in
      let front = or_false (or_false some_size in_range) (not-true size) in
      let spaces =
        or_false (or_false front (not-true first)) (not-true ((==_iff _ _).1 get_or-end_of_65)) in
      if_false _ _ (or_false spaces (not-true ((==_iff _ _).1 get_or-end_of_130)))
      ∙ ap (λ s. check_header ((canonical n hash ++ b' ' ∷ tag) ++ b'\n' ∷ []) n s end_of)
          take-end_of
      ∙ check_header-line e

-- A header that `asngn_wal_append` prints is read back.
pub parse_header-line :
    (n : ℕ) (r : Bytes)
    → 0 < n
    → n ≤ frame_max
    → parse_header (header_line n (digest r) ++ b'\n' ∷ []) ≡ some (n, digest r)
unfolding parse_header
parse_header-line n r pos fits =
    let hash = digest r in
    let tag = digest (canonical n hash) in
    let behind = end_of n hash tag (length-digest r) (length-digest _) in
    let split = header-at_end n hash tag (length-digest r) (length-digest _) in
    let small : n < 10 ^ 20 = omega arith in
    let number : read_digits 0 (decimal n ++ behind) ≡ (n, behind) =
      unfold decimal in unfold read_digits in read_digits-digits 20 n behind small (omega arith) in
    let digit : within b'0' b'9' (get_or (decimal n ++ behind) 0 0) ≡ true =
      unfold decimal in digits-first 20 n behind 0 small (omega arith) in
    let is_good : bytes_eq (take 16 (header_line n hash ++ b'\n' ∷ [])) magic ≡ true =
      ap (λ s. bytes_eq (take 16 s) magic) split in
    let starts : within b'0' b'9' (get_or (header_line n hash ++ b'\n' ∷ []) 16 0) ≡ true =
      ap (λ s. within b'0' b'9' (get_or s 16 0)) split ∙ digit in
    if_false _ _ (or_false (not-true is_good) (not-true starts))
    ∙ ap (λ s. header_size (header_line n hash ++ b'\n' ∷ []) (read_digits 0 (drop 16 s))) split
    ∙ ap (header_size (header_line n hash ++ b'\n' ∷ [])) number
    ∙ header_size-line n hash tag (length-digest r) (length-digest _) refl pos fits

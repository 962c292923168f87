-- ===== src/Wal/Sound.antt =====
-- Proofs on the reader of frames of src/wal.c.
use asterism_asngn.Common.{
  ℕ, zero, suc, ◌+◌, ◌≤◌, ◌<◌, ◌≡◌, refl, sym, ◌∙◌, ap, ap₂, subst, Bool, true, false, not, ◌==◌,
  ==_iff, Option, none, some, [], ◌∷◌, ◌++◌, append_assoc, ltb, if◌then◌else◌, if_false, Bytes,
  bytes_eq→eq, has_byte, take, drop, length, length-append, length-take, length-drop, get_or,
  get_or-append_add, drop-append_add, take-append-drop, get_or-drop, arith, or_left, or_right,
  pick_on,
}
use asterism_asngn.Common.Decimal.{decimal}
use asterism_asngn.Common.Maybe.{some_eq}
use asterism_asngn.Common.Errors.{AsngnErr, parse, limit}
use asterism_asngn.Wal.{
  frame_max, magic, digest, canonical, frame_of, fgets, c_string, read_digits, check_header,
  header_size, parse_header, Read, torn, bad, frame, read_end, read_record, read_line, read_frame,
}
use asterism_asngn.Wal.Decimal.{ltb-ge, read_digits-digits}

not_guarded :
    {A : Type 0} (b : Bool) (x : Option A) {a : A}
    → (if b then none else x) ≡ some a
    → (b ≡ false) × (x ≡ some a)
not_guarded true x e = cc
not_guarded false x e = (refl, e)

not-false : (b : Bool) → not b ≡ false → b ≡ true
not-false true e = refl
not-false false e = cc

-- Behind the part that its digest covers, a header goes on after its digits.
read_digits-canonical :
    (h : Bytes) (n : ℕ) (hash w : Bytes)
    → n ≤ frame_max
    → canonical n hash ++ w ≡ h
    → read_digits 0 (drop 16 h) ≡ (n, b' ' ∷ (hash ++ w))
unfolding canonical decimal
read_digits-canonical h n hash w fits split =
    ap (λ t. read_digits 0 (drop 16 t))
      (sym split ∙ ap (◌++◌ magic) (append_assoc (decimal n) (b' ' ∷ hash) w))
    ∙ (unfold read_digits in
        read_digits-digits 20 n (b' ' ∷ (hash ++ w)) (omega arith) (omega arith))

last_of_one : (s : Bytes) → length s ≡ 1 → get_or s 0 0 ≡ b'\n' → s ≡ b'\n' ∷ []
last_of_one [] e k = absurd (omega (arith, e))
last_of_one (ch ∷ []) e k = ap (λ x. x ∷ []) k
last_of_one (ch ∷ x ∷ s) e k = absurd (omega (arith, e))

starts_blank : (s : Bytes) → 0 < length s → get_or s 0 0 ≡ b' ' → s ≡ b' ' ∷ drop 1 s
starts_blank [] h e = absurd (omega arith)
starts_blank (ch ∷ s) h e = ap (λ x. x ∷ s) e

-- The rest of a header is its digest and a line feed.
tail_of :
    (hash w tag : Bytes)
    → length hash ≡ 64
    → length w ≡ 66
    → get_or w 0 0 ≡ b' '
    → get_or (b' ' ∷ (hash ++ w)) 130 0 ≡ b'\n'
    → take 64 (drop 66 (b' ' ∷ (hash ++ w))) ≡ tag
    → w ≡ b' ' ∷ (tag ++ b'\n' ∷ [])
tail_of hash w tag h l blank newline tagged =
    let w' = drop 1 w in
    let starts = starts_blank w (omega (arith, l)) blank in
    let same : take 64 w' ≡ tag =
      ap (take 64) (sym (subst (λ k. drop (k + 1) (hash ++ w) ≡ w') h (drop-append_add hash w 1)))
      ∙ tagged in
    let at_end : get_or w 65 0 ≡ b'\n' =
      sym (
        subst (λ k. get_or (hash ++ w) (k + 65) 0 ≡ get_or w 65 0) h
          (get_or-append_add hash w 65 0))
      ∙ newline in
    let one : length (drop 64 w') ≡ 1 = omega (arith, length-drop 64 w', length-drop 1 w, l) in
    let head : get_or (drop 64 w') 0 0 ≡ b'\n' =
      get_or-drop 64 0 w' 0 ∙ get_or-drop 1 64 w 0 ∙ at_end in
    starts
    ∙ ap (◌∷◌ b' ')
        (sym (take-append-drop 64 w') ∙ ap₂ ◌++◌ same (last_of_one (drop 64 w') one head))

-- What is read as a header is the one that its size and its digest are printed as.
check_header-Sound :
    (h : Bytes) (m : ℕ) (end : Bytes) (n : ℕ) (hash : Bytes)
    → read_digits 0 (drop 16 h) ≡ (m, end)
    → m ≤ frame_max
    → length end ≡ 131
    → get_or end 130 0 ≡ b'\n'
    → check_header h m (take 64 (drop 1 end)) end ≡ some (n, hash)
    → (n ≡ m) × (h ≡ canonical n hash ++ b' ' ∷ (digest (canonical n hash) ++ b'\n' ∷ []))
unfolding check_header
check_header-Sound h m end n hash digits fits size newline e =
    let expected = take 64 (drop 1 end) in
    let start = canonical m expected in
    let (checks, found) = not_guarded _ (some (m, expected)) e in
    let same_start : take (length start) h ≡ start =
      bytes_eq→eq _ _ (not-false _ (or_left _ _ (or_left _ _ checks))) in
    let blank : get_or h (length start) 0 ≡ b' ' =
      (==_iff (get_or h (length start) 0) b' ').0
        (not-false _ (or_right _ _ (or_left _ _ checks))) in
    let tagged : take 64 (drop 66 end) ≡ digest start =
      bytes_eq→eq _ _ (not-false _ (or_right _ _ checks)) in
    let w = drop (length start) h in
    let split : start ++ w ≡ h =
      ap (λ s. s ++ w) (sym same_start) ∙ take-append-drop (length start) h in
    let after : end ≡ b' ' ∷ (expected ++ w) =
      ap (λ (p : ℕ × Bytes). p.1) (sym digits ∙ read_digits-canonical h m expected w fits split) in
    let long : length expected ≡ 64 =
      omega (arith, length-take 64 (drop 1 end), length-drop 1 end, size) in
    let rest : length w ≡ 66 =
      omega (arith, ap length after, length-append expected w, long, size) in
    let first : get_or w 0 0 ≡ b' ' =
      get_or-drop (length start) 0 h 0 ∙ ap (λ k. get_or h k 0) (omega arith) ∙ blank in
    let whole =
      tail_of expected w (digest start) long rest first
        (ap (λ s. get_or s 130 0) (sym after) ∙ newline)
        (ap (λ s. take 64 (drop 66 s)) (sym after) ∙ tagged) in
    let pair = some_eq found in
    let header : h ≡ start ++ b' ' ∷ (digest start ++ b'\n' ∷ []) =
      sym split ∙ ap (◌++◌ start) whole in
    (
      sym (ap (λ (p : ℕ × Bytes). p.0) pair),
      subst
          (λ (p : ℕ × Bytes).
            h ≡ canonical p.0 p.1 ++ b' ' ∷ (digest (canonical p.0 p.1) ++ b'\n' ∷ []))
          pair header,
    )

header_size-Sound :
    (h : Bytes) (p : ℕ × Bytes) (n : ℕ) (hash : Bytes)
    → read_digits 0 (drop 16 h) ≡ p
    → header_size h p ≡ some (n, hash)
    → h ≡ canonical n hash ++ b' ' ∷ (digest (canonical n hash) ++ b'\n' ∷ [])
unfolding header_size
header_size-Sound h (m, end) n hash digits e =
    let (checks, rest) = not_guarded _ (check_header h m (take 64 (drop 1 end)) end) e in
    let newline : get_or end 130 0 ≡ b'\n' = (==_iff _ _).0 (not-false _ (or_right _ _ checks)) in
    let front = or_left _ _ (or_left _ _ (or_left _ _ checks)) in
    let size : length end ≡ 131 = (==_iff _ _).0 (not-false _ (or_right _ _ front)) in
    let in_range : ltb frame_max m ≡ false = or_right (m == 0) _ (or_left _ _ front) in
    (check_header-Sound h m end n hash digits (ltb-ge frame_max m in_range) size newline rest).1

parse_header-Sound :
    (h : Bytes) (n : ℕ) (hash : Bytes)
    → parse_header h ≡ some (n, hash)
    → h ≡ canonical n hash ++ b' ' ∷ (digest (canonical n hash) ++ b'\n' ∷ [])
unfolding parse_header
parse_header-Sound h n hash e =
    header_size-Sound h (read_digits 0 (drop 16 h)) n hash refl
      (not_guarded _ (header_size h (read_digits 0 (drop 16 h))) e).1

-- A line and what is behind it are the file.
fgets-append : (room : ℕ) (s : Bytes) → (fgets room s).0 ++ (fgets room s).1 ≡ s
unfolding fgets
fgets-append zero s = refl
fgets-append (suc room) [] = refl
fgets-append (suc room) (ch ∷ s) =
    pick_on (λ (l : Bytes × Bytes × Bool). l.0 ++ l.1 ≡ ch ∷ s) (ch == b'\n') (ch ∷ [], s, false) _
      (λ ends. refl) (λ goes_on. ap (◌∷◌ ch) (fgets-append room s))

-- A line that shows its line feed as a C string has no NUL.
fgets-c_string :
    (room : ℕ) (s : Bytes)
    → has_byte b'\n' (c_string (fgets room s).0) ≡ true
    → c_string (fgets room s).0 ≡ (fgets room s).0
unfolding fgets c_string
fgets-c_string zero s e = refl
fgets-c_string (suc room) [] e = refl
fgets-c_string (suc room) (ch ∷ s) e =
    pick_on
      (λ (l : Bytes × Bytes × Bool). has_byte b'\n' (c_string l.0) ≡ true → c_string l.0 ≡ l.0)
      (ch == b'\n') (ch ∷ [], s, false) _
      (λ ends k. if_false _ _ (is_other ch ((==_iff ch b'\n').0 ends)))
      (λ goes_on k. whole_line ch (fgets room s).0 goes_on (fgets-c_string room s) k) e
  where
    is_other : (ch : ℕ) → ch ≡ b'\n' → (ch == 0) ≡ false
    is_other ch e = ground arith

    whole_line :
        (ch : ℕ) (l : Bytes)
        → (ch == b'\n') ≡ false
        → (has_byte b'\n' (c_string l) ≡ true → c_string l ≡ l)
        → has_byte b'\n' (if ch == 0 then [] else ch ∷ c_string l) ≡ true
        → (if ch == 0 then [] else ch ∷ c_string l) ≡ ch ∷ l
    whole_line ch l goes_on again k =
        pick_on (λ t. has_byte b'\n' t ≡ true → t ≡ ch ∷ l) (ch == 0) [] (ch ∷ c_string l)
          (λ nul j. cc) (λ other j. ap (◌∷◌ ch) (again (ground (arith, j, goes_on)))) k

module _ {r rest : Bytes} where
  not_bad :
      (b : Bool) (e : AsngnErr) (x : Read)
      → (if b then bad e else x) ≡ frame r rest
      → (b ≡ false) × (x ≡ frame r rest)
  not_bad true e x h = cc
  not_bad false e x h = (refl, h)

  not_torn :
      (b : Bool) (x : Read)
      → (if b then torn else x) ≡ frame r rest
      → (b ≡ false) × (x ≡ frame r rest)
  not_torn true x h = cc
  not_torn false x h = (refl, h)

  goes_on :
      (b at_end : Bool) (x : Read)
      → (if not b then (if at_end then torn else bad parse) else x) ≡ frame r rest
      → (b ≡ true) × (x ≡ frame r rest)
  goes_on true at_end x h = (refl, h)
  goes_on false true x h = cc
  goes_on false false x h = cc

frame_eq : {r rest r' rest' : Bytes} → frame r rest ≡ frame r' rest' → (r ≡ r') × (rest ≡ rest')
frame_eq e = (cc, cc)

joined :
    (start tag r rest : Bytes)
    → (start ++ b' ' ∷ (tag ++ b'\n' ∷ [])) ++ (r ++ b'\n' ∷ rest)
      ≡ ((start ++ b' ' ∷ tag) ++ b'\n' ∷ (r ++ b'\n' ∷ [])) ++ rest
joined start tag r rest =
    append_assoc start (b' ' ∷ (tag ++ b'\n' ∷ [])) (r ++ b'\n' ∷ rest)
    ∙ ap (λ s. start ++ b' ' ∷ s) (append_assoc tag (b'\n' ∷ []) (r ++ b'\n' ∷ rest))
    ∙ sym (append_assoc start (b' ' ∷ tag) (b'\n' ∷ (r ++ b'\n' ∷ rest)))
    ∙ ap (λ s. (start ++ b' ' ∷ tag) ++ b'\n' ∷ s) (sym (append_assoc r (b'\n' ∷ []) rest))
    ∙ sym (append_assoc (start ++ b' ' ∷ tag) (b'\n' ∷ (r ++ b'\n' ∷ [])) rest)

read_end-Sound :
    (hash r body r' rest : Bytes)
    → read_end hash r body ≡ frame r' rest
    → (r ≡ r') × (hash ≡ digest r') × (body ≡ b'\n' ∷ rest) × (has_byte 0 r' ≡ false)
unfolding read_end
read_end-Sound hash r [] r' rest e = cc
read_end-Sound hash r (ch ∷ body) r' rest e =
    let (newline, more) = not_bad (not (ch == b'\n')) parse _ e in
    let (checks, same) = not_bad _ parse (frame r body) more in
    let record_same : r ≡ r' = (frame_eq same).0 in
    (
      record_same,
      bytes_eq→eq hash (digest r) (not-false _ (or_left _ _ checks)) ∙ ap digest record_same,
      ap₂ ◌∷◌ ((==_iff ch b'\n').0 (not-false _ newline)) (frame_eq same).1,
      subst (λ x. has_byte 0 x ≡ false) record_same (or_right _ _ checks),
    )

read_record-Sound :
    (frame_limit : ℕ) (o : Option (ℕ × Bytes)) (body r rest : Bytes)
    → read_record frame_limit o body ≡ frame r rest
    → (hash : Bytes) × (o ≡ some (length r, hash))
      × (hash ≡ digest r)
      × (body ≡ r ++ b'\n' ∷ rest)
      × (length r ≤ frame_limit)
      × (has_byte 0 r ≡ false)
unfolding read_record
read_record-Sound frame_limit none body r rest e = cc
read_record-Sound frame_limit (some (n, hash)) body r rest e =
    let (in_range, more) = not_bad (ltb frame_limit n) limit _ e in
    let (long, ends) = not_torn (ltb (length body) n) _ more in
    let (record_same, digested, behind, clean) =
      read_end-Sound hash (take n body) (drop n body) r rest ends in
    let size : length r ≡ n =
      ap length (sym record_same)
      ∙ omega (arith, length-take n body, ltb-ge (length body) n long) in
    (
      hash,
      ap (λ k. some (k, hash)) (sym size),
      digested,
      sym (take-append-drop n body) ∙ ap₂ ◌++◌ record_same behind,
      omega (arith, size, ltb-ge frame_limit n in_range),
      clean,
    )

read_line-Sound :
    (frame_limit room : ℕ) (file r rest : Bytes)
    → read_line frame_limit (fgets room file) ≡ frame r rest
    → (file ≡ frame_of r ++ rest) × (length r ≤ frame_limit) × (has_byte 0 r ≡ false)
unfolding read_line frame_of
read_line-Sound frame_limit room file r rest e =
    let line = (fgets room file).0 in
    let body = (fgets room file).1 in
    let (whole, reads) = goes_on (has_byte b'\n' (c_string line)) (fgets room file).2 _ e in
    let text = fgets-c_string room file whole in
    let (hash, announced, digested, behind, fits, clean) =
      read_record-Sound frame_limit (parse_header (c_string line)) body r rest reads in
    let start = canonical (length r) hash in
    let header : line ≡ start ++ b' ' ∷ (digest start ++ b'\n' ∷ []) =
      sym text ∙ parse_header-Sound (c_string line) (length r) hash announced in
    let printed =
      subst
        (λ x.
          line ≡ canonical (length r) x ++ b' ' ∷ (digest (canonical (length r) x) ++ b'\n' ∷ []))
        digested header in
    (
      sym (fgets-append room file)
          ∙ ap₂ ◌++◌ printed behind
          ∙ joined (canonical (length r) (digest r)) (digest (canonical (length r) (digest r))) r
              rest,
      fits,
      clean,
    )

-- A frame is read only where one stands: the bytes of the file are those that an append of the record
-- writes, its size and both digests included, and what follows is left.
pub read_frame-Sound :
    (frame_limit : ℕ) (file r rest : Bytes)
    → read_frame frame_limit file ≡ frame r rest
    → (file ≡ frame_of r ++ rest) × (length r ≤ frame_limit) × (has_byte 0 r ≡ false)
unfolding read_frame
read_frame-Sound frame_limit [] r rest e = cc
read_frame-Sound frame_limit (ch ∷ s) r rest e = read_line-Sound frame_limit 223 (ch ∷ s) r rest e

-- ===== src/Wal.antt =====
-- The write-ahead log: src/wal.c, with the append of src/stream.c as its effect on the file. A file is
-- the list of its bytes. What the disk does to a write or a truncation is an argument; reads succeed,
-- and so do the allocations.
use asterism_asngn.Common.{
  ℕ, zero, suc, ◌+◌, ◌-◌, ◌*◌, ◌/◌, ◌%◌, ◌≡◌, Bool, true, false, not, ◌&&◌, ◌||◌, Option, none,
  some, List, [], ◌∷◌, ◌++◌, ltb, within, ◌==◌, if◌then◌else◌, Bytes, bytes_eq, has_byte, length,
  take, drop, get_or,
}
use asterism_asngn.Common.Errors.{AsngnErr, parse, limit, invalid, io}
use asterism_asngn.Common.Decimal.{decimal}
use asterism_asngn.Sha256.{sha256, sha256_hex}
pub mod Decimal
pub mod Header
pub mod Frames
pub mod Replayed
pub mod Crash
pub mod Sound

-- `WAL_FRAME_MAX` and `WAL_LOG_MAX`.
abbrev pub frame_max : ℕ
frame_max = 16 * 1024 * 1024

abbrev pub log_max : ℕ
log_max = 256 * 1024 * 1024

-- `digest`.
pub digest : Bytes → Bytes
digest s = sha256_hex (sha256 s) 32

-- "// asngn-wal-v2 ".
abbrev pub magic : Bytes
magic =
    b'/' ∷ b'/' ∷ b' ' ∷ b'a' ∷ b's' ∷ b'n' ∷ b'g' ∷ b'n' ∷ b'-' ∷ b'w' ∷ b'a' ∷ b'l' ∷ b'-' ∷ b'v'
    ∷ b'2' ∷ b' ' ∷ []

-- The start of a header, over which its own digest is taken.
unfoldable pub canonical : ℕ → Bytes → Bytes
canonical n hash = magic ++ (decimal n ++ b' ' ∷ hash)

-- The bytes that `asngn_wal_append` writes.
unfoldable pub frame_of : Bytes → Bytes
frame_of r =
    let start = canonical (length r) (digest r) in
    (start ++ b' ' ∷ digest start) ++ b'\n' ∷ (r ++ b'\n' ∷ [])

-- What the disk did with a write: all of it, or the first `reached` bytes and an error.
pub data Written : Type 0 where
  durable : Written
  failed : ℕ → AsngnErr → Written

unfoldable pub write_bytes : Bytes → Bytes → Written → Bytes × Option AsngnErr
write_bytes file text durable = (file ++ text, none)
write_bytes file text (failed reached e) = (file ++ take reached text, some e)

-- `asngn_wal_append`.
unfoldable pub wal_append : Bytes → Bytes → Written → Bytes × Option AsngnErr
wal_append file r wrote =
    if length r == 0 || ltb frame_max (length r)
    then (file, some limit)
    else if ltb (log_max - length r - 256) (length file)
    then (file, some limit)
    else write_bytes file (frame_of r) wrote

-- `fgets`, for `n` bytes at most: the line, what is behind it, and whether the end was met.
unfoldable pub fgets : ℕ → Bytes → Bytes × Bytes × Bool
fgets zero s = ([], s, false)
fgets (suc n) [] = ([], [], true)
fgets (suc n) (ch ∷ s) =
    let (line, rest, eof) = fgets n s in
    if ch == b'\n' then (ch ∷ [], s, false) else (ch ∷ line, rest, eof)

-- A C string: the bytes in front of the NUL.
unfoldable pub c_string : Bytes → Bytes
c_string [] = []
c_string (ch ∷ s) = let rest = c_string s in if ch == 0 then [] else ch ∷ rest

-- `strtoull` on digits; a value out of its range is above `WAL_FRAME_MAX` as well.
unfoldable pub read_digits : ℕ → Bytes → ℕ × Bytes
read_digits v [] = (v, [])
read_digits v (ch ∷ s) =
    let rest = read_digits (v * 10 + (ch - b'0')) s in
    if within b'0' b'9' ch then rest else (v, ch ∷ s)

-- The checks of a header's digest, with `end` behind the digits.
unfoldable pub check_header : Bytes → ℕ → Bytes → Bytes → Option (ℕ × Bytes)
check_header header n expected end =
    let start = canonical n expected in
    if not (bytes_eq (take (length start) header) start)
      || not (get_or header (length start) 0 == b' ')
      || not (bytes_eq (take 64 (drop 66 end)) (digest start))
    then none
    else some (n, expected)

unfoldable pub header_size : Bytes → ℕ × Bytes → Option (ℕ × Bytes)
header_size header (n, end) =
    if n == 0
      || ltb frame_max n
      || not (length end == 131)
      || not (get_or end 0 0 == b' ')
      || not (get_or end 65 0 == b' ')
      || not (get_or end 130 0 == b'\n')
    then none
    else check_header header n (take 64 (drop 1 end)) end

-- The size and the digest that a header announces; none is a parse error.
unfoldable pub parse_header : Bytes → Option (ℕ × Bytes)
parse_header header =
    if not (bytes_eq (take 16 header) magic) || not (within b'0' b'9' (get_or header 16 0))
    then none
    else header_size header (read_digits 0 (drop 16 header))

-- A round of the loop of `scan`: the end, an incomplete frame, an error, or a record with the file
-- behind it.
pub data Read : Type 0 where
  eof : Read
  torn : Read
  bad : AsngnErr → Read
  frame : Bytes → Bytes → Read

unfoldable pub read_end : Bytes → Bytes → Bytes → Read
read_end expected r [] = torn
read_end expected r (ch ∷ rest) =
    if not (ch == b'\n')
    then bad parse
    else if not (bytes_eq expected (digest r)) || has_byte 0 r
    then bad parse
    else frame r rest

unfoldable pub read_record : ℕ → Option (ℕ × Bytes) → Bytes → Read
read_record frame_limit none body = bad parse
read_record frame_limit (some (n, expected)) body =
    if ltb frame_limit n
    then bad limit
    else if ltb (length body) n
    then torn
    else read_end expected (take n body) (drop n body)

unfoldable pub read_line : ℕ → Bytes × Bytes × Bool → Read
read_line frame_limit (line, rest, at_end) =
    let header = c_string line in
    if not (has_byte b'\n' header)
    then (if at_end then torn else bad parse)
    else read_record frame_limit (parse_header header) rest

unfoldable pub read_frame : ℕ → Bytes → Read
read_frame frame_limit [] = eof
read_frame frame_limit (ch ∷ s) = read_line frame_limit (fgets 223 (ch ∷ s))

-- What came of cutting a torn tail off: the file is cut and on disk, it could not be cut, or it is cut
-- and could not be flushed.
pub data Repair : Type 0 where
  mended : Repair
  uncut : AsngnErr → Repair
  unsynced : AsngnErr → Repair

module _ {S : Type 0} (record_fn : S → Bytes → S × Option AsngnErr) where
  -- The state of the scan as it ends: `good` bytes were whole frames.
  pub record Scan : Type 0 where
    pub state : S
    pub code : Option AsngnErr
    pub good : ℕ
    pub is_torn : Bool

  abbrev pub ended : S → ℕ → Scan
  ended s good = record { state = s; code = none; good = good; is_torn = false }

  abbrev pub cut_short : S → ℕ → Scan
  cut_short s good = record { state = s; code = none; good = good; is_torn = true }

  abbrev pub refused : S → ℕ → AsngnErr → Scan
  refused s good e = record { state = s; code = some e; good = good; is_torn = false }

  -- A record that the callback refuses ends the scan.
  unfoldable pub scan_next : S × Option AsngnErr → ℕ → (S → Scan) → Scan
  scan_next (s, some e) good later = refused s good e
  scan_next (s, none) good later = later s

  -- The loop of `scan`, on fuel: a frame has a byte at least.
  unfoldable pub scan_loop : ℕ → ℕ → S → ℕ → Bytes → Scan
  unfolding read_frame scan_next
  scan_loop zero frame_limit s good file = ended s good
  scan_loop (suc fuel) frame_limit s good file = elim (read_frame frame_limit file) [
    | eof ↦ ended s good
    | torn ↦ cut_short s good
    | bad e ↦ refused s good e
    | frame r rest ↦
        scan_next (record_fn s r) good
          (λ s'. scan_loop fuel frame_limit s' (good + (length file - length rest)) rest)
  ]

  -- The state, the file and the code behind a scan.
  abbrev pub Scanned : Type 0
  Scanned = S × Bytes × Option AsngnErr

  unfoldable pub repair_file : S → Bytes → ℕ → Repair → Scanned
  repair_file s file good mended = (s, take good file, none)
  repair_file s file good (uncut e) = (s, file, some e)
  repair_file s file good (unsynced e) = (s, take good file, some e)

  unfoldable pub finish_torn : Scan → Bytes → Bool → Repair → Scanned
  unfolding repair_file
  finish_torn r file repair repaired =
      if not r.is_torn
      then (r.state, file, none)
      else if not repair
      then (r.state, file, some parse)
      else repair_file r.state file r.good repaired

  unfoldable pub finish_scan : Scan → Option AsngnErr → Bytes → Bool → Repair → Scanned
  unfolding finish_torn
  finish_scan r (some e) file repair repaired = (r.state, file, some e)
  finish_scan r none file repair repaired = finish_torn r file repair repaired

  -- `scan` on a file that is there.
  unfoldable pub scan : ℕ → S → Bytes → Bool → Repair → Scanned
  unfolding scan_loop finish_scan
  scan frame_limit s file repair repaired =
      let r = scan_loop (suc (length file)) frame_limit s 0 file in
      if frame_limit == 0 || ltb frame_max frame_limit
      then (s, file, some invalid)
      else if ltb log_max (length file)
      then (s, file, some limit)
      else finish_scan r r.code file repair repaired

  -- `asngn_wal_visit` and `asngn_wal_inspect`.
  unfoldable pub wal_visit : ℕ → S → Bytes → Repair → Scanned
  unfolding scan
  wal_visit frame_limit s file repaired = scan frame_limit s file true repaired

  unfoldable pub wal_inspect : ℕ → S → Bytes → Scanned
  unfolding scan
  wal_inspect frame_limit s file = scan frame_limit s file false mended

-- ===== src/Examples/Wal.antt =====
-- Examples on the log of src/wal.c.
use asterism_asngn.Common.{
  ◌≤◌, ◌≡◌, refl, false, Option, none, some, List, [], ◌∷◌, ◌++◌, ltb, if◌then◌else◌, Bytes, take,
  length, length-append, length-take, arith, has_byte,
}
use asterism_asngn.Common.Errors.{AsngnErr, parse, io}
use asterism_asngn.Common.Decimal.{digits}
use asterism_asngn.Wal.{
  read_frame, frame, frame_of, mended, failed, wal_visit, wal_inspect, wal_append, fgets,
}
use asterism_asngn.Wal.Frames.{length-frame_of, read_frame-frame_of}
use asterism_asngn.Wal.Sound.{read_frame-Sound}
use asterism_asngn.Wal.Replayed.{log, applied, applied_next}
use asterism_asngn.Wal.Crash.{wal_visit-log, wal_inspect-torn, wal_visit-wal_append}

-- A callback that keeps what it is given.
abbrev gather : List Bytes → Bytes → List Bytes × Option AsngnErr
gather s r = (s ++ r ∷ [], none)

abbrev one : Bytes
one = b'h' ∷ b'i' ∷ []

abbrev two : Bytes
two = b'{' ∷ b'\n' ∷ b'}' ∷ []

abbrev half : Bytes
half = take 2 (frame_of one)

two_fit : length (log (one ∷ two ∷ [])) ≤ 400
unfolding log
two_fit = omega (
  arith,
  length-append (frame_of one) (frame_of two ++ []),
  length-append (frame_of two) [],
  length-frame_of one,
  length-frame_of two,
)

one_fits : length (log (two ∷ [])) ≤ 200
unfolding log
one_fits = omega (arith, length-append (frame_of two) [], length-frame_of two)

digits-1024 : digits 20 1024 ≡ b'1' ∷ b'0' ∷ b'2' ∷ b'4' ∷ []
unfolding digits
digits-1024 = refl

first_line : fgets 223 (one ++ b'\n' ∷ two) ≡ (one ++ b'\n' ∷ [], two, false)
unfolding fgets
first_line = refl

wal_visit-log_example : wal_visit gather 64 [] (log (one ∷ two ∷ [])) mended ≡ (
  (applied gather [] (one ∷ two ∷ [])).0,
  log (one ∷ two ∷ []),
  (applied gather [] (one ∷ two ∷ [])).1,
)
wal_visit-log_example =
    wal_visit-log gather 64 [] (one ∷ two ∷ []) mended (omega arith)
      ((omega arith, omega arith, refl), ((omega arith, omega arith, refl), tt))
      (omega (arith, two_fit))

clean_two : (applied gather [] (two ∷ [])).1 ≡ none
unfolding applied applied_next
clean_two = refl

wal_inspect-torn_example :
    wal_inspect gather 64 [] (log (two ∷ []) ++ take 2 (frame_of one))
    ≡ ((applied gather [] (two ∷ [])).0, log (two ∷ []) ++ take 2 (frame_of one), some parse)
wal_inspect-torn_example =
    wal_inspect-torn gather 64 [] (two ∷ []) one 2 (omega arith)
      ((omega arith, omega arith, refl), tt) (omega arith, omega arith, refl)
      (omega (arith, length-append (log (two ∷ [])) half, length-take 2 (frame_of one), one_fits))
      clean_two (omega arith) (omega (arith, length-frame_of one))

wal_visit-wal_append_example :
    wal_visit gather 64 [] (wal_append (log (two ∷ [])) one (failed 2 io)).0 mended ≡ (
      if ltb 2 (length (frame_of one))
      then ((applied gather [] (two ∷ [])).0, log (two ∷ []), none)
      else (
        (applied gather [] (two ∷ one ∷ [])).0,
        log (two ∷ one ∷ []),
        (applied gather [] (two ∷ one ∷ [])).1,
      ))
wal_visit-wal_append_example =
    wal_visit-wal_append gather 64 [] (two ∷ []) one 2 io (omega arith)
      ((omega arith, omega arith, refl), tt) (omega arith, omega arith, refl)
      (omega (arith, one_fits)) clean_two

reads_one : read_frame 64 (frame_of one ++ two) ≡ frame one two
reads_one = read_frame-frame_of 64 one two (omega arith) (omega arith, omega arith, refl)

read_frame-Sound_example :
    (frame_of one ++ two ≡ frame_of one ++ two) × (length one ≤ 64) × (has_byte 0 one ≡ false)
read_frame-Sound_example = read_frame-Sound 64 (frame_of one ++ two) one two reads_one

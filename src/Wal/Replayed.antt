-- ===== src/Wal/Replayed.antt =====
-- Proofs on the loop of `scan` of src/wal.c over the frames of a whole log.
use asterism_asngn.Common.{
  ℕ, zero, suc, ◌+◌, ◌-◌, ◌<◌, ◌≡◌, refl, sym, ◌∙◌, ap, Bool, Option, none, some, List, [], ◌∷◌,
  ◌++◌, append_assoc, append-nil, Bytes, length, length-append, All, arith,
}
use asterism_asngn.Common.Errors.{AsngnErr}
use asterism_asngn.Wal.{
  frame_of, frame, read_frame, Repair, Scan, scan_next, scan_loop, finish_scan,
}
use asterism_asngn.Wal.Frames.{IsLimit, IsRecord, length-frame_of, read_frame-frame_of}

-- A log: the frames of its records.
unfoldable pub log : List Bytes → Bytes
log [] = []
log (r ∷ rs) = frame_of r ++ log rs

pub log-append : (rs : List Bytes) (r : Bytes) → log (rs ++ r ∷ []) ≡ log rs ++ frame_of r
unfolding log
log-append [] r = append-nil (frame_of r)
log-append (x ∷ rs) r =
    ap (◌++◌ (frame_of x)) (log-append rs r) ∙ sym (append_assoc (frame_of x) (log rs) (frame_of r))

module _ {S : Type 0} (record_fn : S → Bytes → S × Option AsngnErr) where
  -- The records, given to the callback one after the other, up to the first that it refuses.
  unfoldable pub applied_next :
      S × Option AsngnErr → (S → S × Option AsngnErr) → S × Option AsngnErr
  applied_next (s, some e) later = (s, some e)
  applied_next (s, none) later = later s

  unfoldable pub applied : S → List Bytes → S × Option AsngnErr
  applied s [] = (s, none)
  applied s (r ∷ rs) = applied_next (record_fn s r) (λ s'. applied s' rs)

  -- What a scan comes to on the frames of these records, with `close` at their end.
  unfoldable pub scanned : (S → ℕ → Scan record_fn) → S → ℕ → List Bytes → Scan record_fn
  scanned close s good [] = close s good
  scanned close s good (r ∷ rs) =
      scan_next record_fn (record_fn s r) good
        (λ s'. scanned close s' (good + length (frame_of r)) rs)

  scan_next-same :
      (x : S × Option AsngnErr) (good : ℕ) (f g : S → Scan record_fn)
      → ((s : S) → f s ≡ g s)
      → scan_next record_fn x good f ≡ scan_next record_fn x good g
  unfolding scan_next
  scan_next-same (s, some e) good f g same = refl
  scan_next-same (s, none) good f g same = same s

  scan_loop-frame :
      (fuel frame_limit : ℕ) (s : S) (good : ℕ) (file r rest : Bytes)
      → read_frame frame_limit file ≡ frame r rest
      → scan_loop record_fn (suc fuel) frame_limit s good file
        ≡ scan_next record_fn (record_fn s r) good (λ s'.
          scan_loop record_fn fuel frame_limit s' (good + (length file - length rest)) rest)
  unfolding scan_loop
  scan_loop-frame fuel frame_limit s good file r rest reads = rw (scan_loop, reads) refl

  module _ (frame_limit : ℕ) (ok : IsLimit frame_limit) (tail : Bytes)
      (close : S → ℕ → Scan record_fn)
      (closes : (fuel : ℕ) (s : S) (good : ℕ)
        → scan_loop record_fn (suc fuel) frame_limit s good tail ≡ close s good) where
    pub scan_loop-log :
        (rs : List Bytes) (fuel : ℕ) (s : S) (good : ℕ)
        → All (IsRecord frame_limit) rs
        → length (log rs ++ tail) < fuel
        → scan_loop record_fn fuel frame_limit s good (log rs ++ tail) ≡ scanned close s good rs
    unfolding log scanned scan_loop
    scan_loop-log rs zero s good h room = absurd (omega arith)
    scan_loop-log [] (suc fuel) s good h room = closes fuel s good
    scan_loop-log (r ∷ rs) (suc fuel) s good h room =
        let rest = log rs ++ tail in
        let split = append_assoc (frame_of r) (log rs) tail in
        let reads : read_frame frame_limit ((frame_of r ++ log rs) ++ tail) ≡ frame r rest =
          ap (read_frame frame_limit) split ∙ read_frame-frame_of frame_limit r rest ok h.0 in
        let size : length ((frame_of r ++ log rs) ++ tail) ≡ length (frame_of r) + length rest =
          ap length split ∙ length-append (frame_of r) rest in
        let room' : length rest < fuel = omega (arith, size, length-frame_of r) in
        let moved : length ((frame_of r ++ log rs) ++ tail) - length rest ≡ length (frame_of r) =
          omega (arith, size) in
        scan_loop-frame fuel frame_limit s good ((frame_of r ++ log rs) ++ tail) r rest reads
        ∙ scan_next-same (record_fn s r) good _ _ (λ s'.
          ap (λ n. scan_loop record_fn fuel frame_limit s' (good + n) rest) moved
          ∙ scan_loop-log rs fuel s' (good + length (frame_of r)) h.1 room')

  -- Where the callback takes every record, the scan gets to the end of the frames.
  scanned-applied :
      (close : S → ℕ → Scan record_fn) (s : S) (good : ℕ) (rs : List Bytes)
      → (applied s rs).1 ≡ none
      → scanned close s good rs ≡ close (applied s rs).0 (good + length (log rs))
  unfolding scanned applied log scan_next applied_next
  scanned-applied close s good [] h = ap (close s) (omega arith)
  scanned-applied close s good (r ∷ rs) h =
      next (record_fn s r) (λ s'. scanned-applied close s' (good + length (frame_of r)) rs) h
    where
      next :
          (x : S × Option AsngnErr)
          → ((s' : S)
              → (applied s' rs).1 ≡ none
              → scanned close s' (good + length (frame_of r)) rs
                ≡ close (applied s' rs).0 (good + length (frame_of r) + length (log rs)))
          → (applied_next x (λ s'. applied s' rs)).1 ≡ none
          → scan_next record_fn x good (λ s'. scanned close s' (good + length (frame_of r)) rs)
            ≡ close (applied_next x (λ s'. applied s' rs)).0 (good + length (frame_of r ++ log rs))
      next (s', some e) again k = cc
      next (s', none) again k =
          again s' k
          ∙ ap (close (applied s' rs).0) (omega (arith, length-append (frame_of r) (log rs)))

  -- Where the callback refuses a record, the scan ends with its error.
  scanned-refused :
      (close : S → ℕ → Scan record_fn) (s : S) (good : ℕ) (rs : List Bytes) (e : AsngnErr)
      → (applied s rs).1 ≡ some e
      → ((scanned close s good rs).state ≡ (applied s rs).0)
        × ((scanned close s good rs).code ≡ some e)
  unfolding scanned applied scan_next applied_next
  scanned-refused close s good [] e h = cc
  scanned-refused close s good (r ∷ rs) e h =
      next (record_fn s r) (λ s'. scanned-refused close s' (good + length (frame_of r)) rs e) h
    where
      next :
          (x : S × Option AsngnErr)
          → ((s' : S)
              → (applied s' rs).1 ≡ some e
              → ((scanned close s' (good + length (frame_of r)) rs).state ≡ (applied s' rs).0)
                × ((scanned close s' (good + length (frame_of r)) rs).code ≡ some e))
          → (applied_next x (λ s'. applied s' rs)).1 ≡ some e
          → ((scan_next record_fn x good
                (λ s'. scanned close s' (good + length (frame_of r)) rs)).state
              ≡ (applied_next x (λ s'. applied s' rs)).0)
            × ((scan_next record_fn x good
                  (λ s'. scanned close s' (good + length (frame_of r)) rs)).code
                ≡ some e)
      next (s', some e') again k = (refl, k)
      next (s', none) again k = again s' k

  -- The end of a scan whose callback refused a record, and of one that read all records.
  pub finish_refused :
      (close : S → ℕ → Scan record_fn) (s : S) (rs : List Bytes) (e : AsngnErr) (file : Bytes)
      (repair : Bool) (repaired : Repair)
      → (applied s rs).1 ≡ some e
      → (let r = scanned close s 0 rs in finish_scan record_fn r r.code file repair repaired)
        ≡ ((applied s rs).0, file, (applied s rs).1)
  unfolding finish_scan
  finish_refused close s rs e file repair repaired h =
      let r = scanned close s 0 rs in
      let (state, code) = scanned-refused close s 0 rs e h in
      ap (λ c. finish_scan record_fn r c file repair repaired) code
      ∙ ap (λ (x : S). (x, file, some e)) state
      ∙ ap (λ (c : Option AsngnErr). ((applied s rs).0, file, c)) (sym h)

  pub finish_applied :
      (close : S → ℕ → Scan record_fn) (s : S) (rs : List Bytes) (file : Bytes) (repair : Bool)
      (repaired : Repair)
      → (applied s rs).1 ≡ none
      → (let r = scanned close s 0 rs in finish_scan record_fn r r.code file repair repaired) ≡ (
          let r = close (applied s rs).0 (length (log rs)) in
          finish_scan record_fn r r.code file repair repaired)
  finish_applied close s rs file repair repaired h =
      ap (λ (r : Scan record_fn). finish_scan record_fn r r.code file repair repaired)
        (scanned-applied close s 0 rs h ∙ ap (close (applied s rs).0) (omega arith))

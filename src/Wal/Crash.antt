-- ===== src/Wal/Crash.antt =====
-- Proofs on `scan` and `asngn_wal_append` of src/wal.c, for a whole log and for one that a crash cut off
-- inside a frame.
use asterism_asngn.Common.{
  ℕ, zero, suc, ◌+◌, ◌-◌, ◌≤◌, ◌<◌, ◌≡◌, refl, sym, ◌∙◌, ap, Bool, true, false, ◌==◌, Option, none,
  some, List, [], ◌∷◌, ◌++◌, append-nil, ltb, if◌then◌else◌, if_true, if_false, Bytes, take, length,
  length-append, All, All-append, arith, Bool-cases, inl, inr, take-append, take-ge, or_false,
  Option-cases, length-take, ltb→lt,
}
use asterism_asngn.Common.Errors.{AsngnErr, parse}
use asterism_asngn.Wal.{
  frame_max, log_max, frame_of, read_frame, torn, Repair, mended, Scan, ended, cut_short, scan_loop,
  repair_file, finish_torn, finish_scan, scan, wal_visit, wal_inspect, Written, durable, failed,
  write_bytes, wal_append,
}
use asterism_asngn.Wal.Frames.{IsLimit, IsRecord, length-frame_of, read_frame-torn}
use asterism_asngn.Wal.Replayed.{
  log, log-append, applied, scanned, scan_loop-log, finish_refused, finish_applied,
}

module _ {S : Type 0} (record_fn : S → Bytes → S × Option AsngnErr) where
  closes_eof :
      (frame_limit fuel : ℕ) (s : S) (good : ℕ)
      → scan_loop record_fn (suc fuel) frame_limit s good [] ≡ ended record_fn s good
  unfolding scan_loop read_frame
  closes_eof frame_limit fuel s good = refl

  scan_loop-torn :
      (fuel frame_limit : ℕ) (s : S) (good : ℕ) (file : Bytes)
      → read_frame frame_limit file ≡ torn
      → scan_loop record_fn (suc fuel) frame_limit s good file ≡ cut_short record_fn s good
  unfolding scan_loop
  scan_loop-torn fuel frame_limit s good file reads = rw (scan_loop, reads) refl

  scan-limits :
      (frame_limit : ℕ) (s : S) (file : Bytes) (repair : Bool) (repaired : Repair)
      → IsLimit frame_limit
      → length file ≤ log_max
      → scan record_fn frame_limit s file repair repaired ≡ (
          let r = scan_loop record_fn (suc (length file)) frame_limit s 0 file in
          finish_scan record_fn r r.code file repair repaired)
  unfolding scan
  scan-limits frame_limit s file repair repaired ok room =
      let some_limit : (frame_limit == 0) ≡ false = ground (arith, ok) in
      let in_range : ltb frame_max frame_limit ≡ false = ground (arith, ok) in
      let short : ltb log_max (length file) ≡ false = ground arith in
      if_false _ _ (or_false some_limit in_range) ∙ if_false _ _ short

  -- A scan of a log of whole frames hands the callback each record once, in the order of the appends,
  -- up to the first that it refuses; its error is the scan's, and the file is left as it is.
  pub wal_visit-log :
      (frame_limit : ℕ) (s : S) (rs : List Bytes) (repaired : Repair)
      → IsLimit frame_limit
      → All (IsRecord frame_limit) rs
      → length (log rs) ≤ log_max
      → wal_visit record_fn frame_limit s (log rs) repaired
        ≡ ((applied record_fn s rs).0, log rs, (applied record_fn s rs).1)
  unfolding wal_visit finish_scan finish_torn
  wal_visit-log frame_limit s rs repaired ok h room =
      let loop : scan_loop record_fn (suc (length (log rs))) frame_limit s 0 (log rs)
          ≡ scanned record_fn (ended record_fn) s 0 rs =
        ap (scan_loop record_fn (suc (length (log rs))) frame_limit s 0) (sym (append-nil (log rs)))
        ∙ scan_loop-log record_fn frame_limit ok [] (ended record_fn) (closes_eof frame_limit) rs
            (suc (length (log rs))) s 0 h (omega (arith, length-append (log rs) [])) in
      scan-limits frame_limit s (log rs) true repaired ok room
      ∙ ap (λ (r : Scan record_fn). finish_scan record_fn r r.code (log rs) true repaired) loop
      ∙ elim (Option-cases (applied record_fn s rs).1) [
        | inl clean ↦
            finish_applied record_fn (ended record_fn) s rs (log rs) true repaired clean
            ∙ ap (λ (c : Option AsngnErr). ((applied record_fn s rs).0, log rs, c)) (sym clean)
        | inr (e, refusal) ↦
            finish_refused record_fn (ended record_fn) s rs e (log rs) true repaired refusal
      ]

  -- Whole frames with a part of one more frame behind them, for a callback that takes every record.
  module _ (frame_limit : ℕ) (s : S) (rs : List Bytes) (r : Bytes) (k : ℕ)
      (ok : IsLimit frame_limit) (h : All (IsRecord frame_limit) rs) (hr : IsRecord frame_limit r)
      (room : length (log rs ++ take k (frame_of r)) ≤ log_max)
      (clean : (applied record_fn s rs).1 ≡ none) (pos : 0 < k)
      (cut : k < length (frame_of r)) where
    scan-torn :
        (repair : Bool) (repaired : Repair)
        → scan record_fn frame_limit s (log rs ++ take k (frame_of r)) repair repaired
          ≡ finish_torn record_fn
              (cut_short record_fn (applied record_fn s rs).0 (length (log rs)))
              (log rs ++ take k (frame_of r))
              repair
              repaired
    unfolding finish_scan
    scan-torn repair repaired =
        let tail = take k (frame_of r) in
        let file = log rs ++ tail in
        let tears = read_frame-torn frame_limit r k ok hr.0 hr.1 pos cut in
        scan-limits frame_limit s file repair repaired ok room
        ∙ ap (λ (x : Scan record_fn). finish_scan record_fn x x.code file repair repaired)
            (scan_loop-log record_fn frame_limit ok tail (cut_short record_fn)
              (λ fuel s good. scan_loop-torn fuel frame_limit s good tail tears) rs
              (suc (length file)) s 0 h (omega arith))
        ∙ finish_applied record_fn (cut_short record_fn) s rs file repair repaired clean

    -- Inspecting a log of whole frames with a part of one more frame behind them, where the frames
    -- and the file keep to the size limits and the callback takes every whole record, hands on those
    -- records, is a parse error, and leaves the file as it is.
    pub wal_inspect-torn :
        wal_inspect record_fn frame_limit s (log rs ++ take k (frame_of r))
        ≡ ((applied record_fn s rs).0, log rs ++ take k (frame_of r), some parse)
    unfolding wal_inspect finish_torn
    wal_inspect-torn = scan-torn false mended

    -- Visiting it cuts the file back to the whole frames.
    wal_visit-torn :
        wal_visit record_fn frame_limit s (log rs ++ take k (frame_of r)) mended
        ≡ ((applied record_fn s rs).0, log rs, none)
    unfolding wal_visit finish_torn repair_file
    wal_visit-torn =
        scan-torn true mended
        ∙ ap (λ (file : Bytes). ((applied record_fn s rs).0, file, none))
            (take-append (log rs) (take k (frame_of r)))

appends :
    (rs : List Bytes) (r : Bytes) (wrote : Written)
    → 0 < length r
    → length r ≤ frame_max
    → length (log rs) + length r + 256 ≤ log_max
    → wal_append (log rs) r wrote ≡ write_bytes (log rs) (frame_of r) wrote
unfolding wal_append
appends rs r wrote pos fits room =
    let some_byte : (length r == 0) ≡ false = ground arith in
    let in_range : ltb frame_max (length r) ≡ false = ground arith in
    let short : ltb (log_max - length r - 256) (length (log rs)) ≡ false = ground arith in
    if_false _ _ (or_false some_byte in_range) ∙ if_false _ _ short

-- An append that has room adds its record to the log.
pub wal_append-log :
    (rs : List Bytes) (r : Bytes)
    → 0 < length r
    → length r ≤ frame_max
    → length (log rs) + length r + 256 ≤ log_max
    → wal_append (log rs) r durable ≡ (log (rs ++ r ∷ []), none)
unfolding wal_append write_bytes
wal_append-log rs r pos fits room =
    appends rs r durable pos fits room ∙ ap (λ file. (file, none)) (sym (log-append rs r))

module _ {S : Type 0} (record_fn : S → Bytes → S × Option AsngnErr) where
  -- An append that failed after `reached` bytes, and the visit behind it: where the frame is not whole,
  -- the visit leaves the log without the record and hands on the records in front of it; where it is
  -- whole, the record is in the log.
  pub wal_visit-wal_append :
      (frame_limit : ℕ) (s : S) (rs : List Bytes) (r : Bytes) (reached : ℕ) (e : AsngnErr)
      → IsLimit frame_limit
      → All (IsRecord frame_limit) rs
      → IsRecord frame_limit r
      → length (log rs) + length r + 256 ≤ log_max
      → (applied record_fn s rs).1 ≡ none
      → wal_visit record_fn frame_limit s (wal_append (log rs) r (failed reached e)).0 mended ≡ (
          if ltb reached (length (frame_of r))
          then ((applied record_fn s rs).0, log rs, none)
          else (
            (applied record_fn s (rs ++ r ∷ [])).0,
            log (rs ++ r ∷ []),
            (applied record_fn s (rs ++ r ∷ [])).1,
          ))
  unfolding wal_append write_bytes
  wal_visit-wal_append frame_limit s rs r reached e ok h hr room clean =
      let file =
        ap (λ (x : Bytes × Option AsngnErr). wal_visit record_fn frame_limit s x.0 mended)
          (appends rs r (failed reached e) hr.0 (omega (arith, hr.1, ok.1)) room) in
      let fits : length (log rs ++ frame_of r) ≤ log_max =
        omega (arith, length-append (log rs) (frame_of r), length-frame_of r) in
      file ∙ elim (Bool-cases (ltb reached (length (frame_of r)))) [
        | inl cut ↦
            short reached cut (
              omega (
                arith,
                length-append (log rs) (take reached (frame_of r)),
                length-take reached (frame_of r),
                length-frame_of r,
              ))
            ∙ sym (if_true _ _ cut)
        | inr whole ↦
            let rs' = rs ++ r ∷ [] in
            let full : log rs ++ take reached (frame_of r) ≡ log rs' =
              ap (◌++◌ (log rs)) (take-ge reached (frame_of r) (ground arith))
              ∙ sym (log-append rs r) in
            ap (λ file. wal_visit record_fn frame_limit s file mended) full
            ∙ wal_visit-log record_fn frame_limit s rs' mended ok
                (All-append _ rs (r ∷ []) h (hr, tt)) (omega (arith, ap length (log-append rs r)))
            ∙ sym (if_false _ _ whole)
      ]
    where
      short :
          (k : ℕ)
          → ltb k (length (frame_of r)) ≡ true
          → length (log rs ++ take k (frame_of r)) ≤ log_max
          → wal_visit record_fn frame_limit s (log rs ++ take k (frame_of r)) mended
            ≡ ((applied record_fn s rs).0, log rs, none)
      short zero cut fits =
          ap (λ file. wal_visit record_fn frame_limit s file mended) (append-nil (log rs))
          ∙ wal_visit-log record_fn frame_limit s rs mended ok h (omega arith)
          ∙ ap (λ (c : Option AsngnErr). ((applied record_fn s rs).0, log rs, c)) clean
      short (suc k) cut fits =
          wal_visit-torn record_fn frame_limit s rs r (suc k) ok h hr fits clean (omega arith)
            (ltb→lt _ _ cut)

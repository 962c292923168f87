-- ===== src/Stream/Whole.antt =====
-- Proofs on `asngn_stream_append` of src/stream.c: only the end of a file can be a part of a line.
use asterism_asngn.Common.{
  ℕ, ◌≡◌, ◌⊎◌, refl, sym, ◌∙◌, ap, inl, inr, false, not, ◌&&◌, Option, none, some, List, [], ◌∷◌,
  ◌++◌, Bytes, take, length, pick, subst, take-length, append-nil, append_assoc,
}
use asterism_asngn.Common.Errors.{AsngnErr, io}
use asterism_asngn.Stream.{Stream, Disk, text_of, roll_back, finish, write_line, stream_append}

abbrev Done : Type 0
Done = Stream × Option AsngnErr

-- The line is there; or it is an error, and the file is as it was; or it is an error, a part of the line
-- is there, and the stream is closed.
abbrev IsWhole : Stream → Bytes → Done → Type 0
IsWhole st text d =
    ((d.1 ≡ none) × (d.0.file ≡ st.file ++ text))
    ⊎ (((d.1 ≡ some io) × (d.0.file ≡ st.file))
        ⊎ ((d.1 ≡ some io) × (d.0.is_open ≡ false) × (k : ℕ) × (d.0.file ≡ st.file ++ take k text)))

write_line-IsWhole :
    (st : Stream) (text : Bytes) (cut : Option ℕ) (disk : Disk)
    → IsWhole st text (write_line st text cut disk)
unfolding write_line roll_back finish
write_line-IsWhole st text none disk =
    pick (IsWhole st text) (st.sync && not disk.syncs) _ _
      (inr (inr (refl, refl, length text, ap (λ t. st.file ++ t) (sym (take-length text)))))
      (inl (refl, refl))
write_line-IsWhole st text (some reached) disk =
    pick (λ (t : Stream). IsWhole st text (t, some io)) (disk.seeks && disk.truncates) _ _
      (inr (inl (refl, refl))) (inr (inr (refl, refl, reached, refl)))

stream_append-IsWhole :
    (st : Stream) (line : Bytes) (disk : Disk)
    → IsWhole st (text_of line) (stream_append st line disk)
unfolding stream_append
stream_append-IsWhole st line disk =
    pick (IsWhole st (text_of line)) (not st.is_open) (st, some io) _ (inr (inl (refl, refl)))
      (write_line-IsWhole st (text_of line) disk.cut disk)

stream_append-closed :
    (st : Stream) (line : Bytes) (disk : Disk)
    → st.is_open ≡ false
    → stream_append st line disk ≡ (st, some io)
unfolding stream_append
stream_append-closed st line disk h = rw h refl

-- The bytes of lines one behind the other.
abbrev pub lines : List Bytes → Bytes
lines [] = []
lines (line ∷ later) = text_of line ++ lines later

abbrev keep : Option AsngnErr → Bytes → List Bytes → List Bytes
keep none line later = line ∷ later
keep (some e) line later = later

-- A run of appends: the stream behind it, and the lines whose append returned `ASNGN_OK`.
unfoldable pub append_all : Stream → List (Bytes × Disk) → Stream × List Bytes
append_all st [] = (st, [])
append_all st ((line, disk) ∷ calls) =
    let (after, e) = stream_append st line disk in
    let (last, later) = append_all after calls in (last, keep e line later)

append_all-closed :
    (st : Stream) (calls : List (Bytes × Disk))
    → st.is_open ≡ false
    → append_all st calls ≡ (st, [])
unfolding append_all
append_all-closed st [] h = refl
append_all-closed st ((line, disk) ∷ calls) h =
    rw (stream_append-closed st line disk h, append_all-closed st calls h) refl

-- Some bytes at the front of a line that was to be appended.
abbrev pub IsPart : List (Bytes × Disk) → Bytes → Type 0
IsPart [] tail = ⊥
IsPart ((line, disk) ∷ calls) tail = ((k : ℕ) × (tail ≡ take k (text_of line))) ⊎ IsPart calls tail

abbrev pub IsUnburied : Stream → List (Bytes × Disk) → Stream × List Bytes → Type 0
IsUnburied st calls (last, written) =
    (tail : Bytes) × (last.file ≡ st.file ++ (lines written ++ tail))
    × ((tail ≡ []) ⊎ ((last.is_open ≡ false) × IsPart calls tail))

later-IsPart :
    (line : Bytes) (disk : Disk) (calls : List (Bytes × Disk)) (last : Stream) {tail : Bytes}
    → (tail ≡ []) ⊎ ((last.is_open ≡ false) × IsPart calls tail)
    → (tail ≡ []) ⊎ ((last.is_open ≡ false) × IsPart ((line, disk) ∷ calls) tail)
later-IsPart line disk calls last (inl none_left) = inl none_left
later-IsPart line disk calls last (inr (closed, part)) = inr (closed, inr part)

append_to-IsUnburied :
    (st : Stream) (line : Bytes) (disk : Disk) (calls : List (Bytes × Disk)) (d : Done)
    → IsWhole st (text_of line) d
    → IsUnburied d.0 calls (append_all d.0 calls)
    → (let (last, later) = append_all d.0 calls in
        IsUnburied st ((line, disk) ∷ calls) (last, keep d.1 line later))
append_to-IsUnburied st line disk calls (after, none) (inl (e, grown)) (tail, found, ends) =
    let later = (append_all after calls).1 in
    (
      tail,
      found
          ∙ ap (λ f. f ++ (lines later ++ tail)) grown
          ∙ append_assoc st.file (text_of line) (lines later ++ tail)
          ∙ ap (λ f. st.file ++ f) (sym (append_assoc (text_of line) (lines later) tail)),
      later-IsPart line disk calls (append_all after calls).0 ends,
    )
append_to-IsUnburied st line disk calls (after, some c) (inl (e, grown)) h = cc
append_to-IsUnburied st line disk calls (after, none) (inr (inl (e, same))) h = cc
append_to-IsUnburied st line disk calls (after, some c) (inr (inl (e, same))) (tail, found, ends) =
    let later = (append_all after calls).1 in
    (
      tail,
      found ∙ ap (λ f. f ++ (lines later ++ tail)) same,
      later-IsPart line disk calls (append_all after calls).0 ends,
    )
append_to-IsUnburied st line disk calls (after, none) (inr (inr (e, closed, k, torn))) h = cc
append_to-IsUnburied st line disk calls (after, some c) (inr (inr (e, closed, k, torn))) h =
    let stays = append_all-closed after calls closed in
    subst (λ (r : Stream × List Bytes). IsUnburied st ((line, disk) ∷ calls) r) (sym stays)
      (take k (text_of line), torn, inr (closed, inl (k, refl)))

-- After any run of appends to a stream, whatever the file system does, the file holds what it held and
-- then, in their order, exactly the lines whose append succeeded, each with its newline; behind them
-- may stand the front of one more of the lines, but then the stream is closed, so that no later line
-- buries it.
pub append_all-IsUnburied :
    (st : Stream) (calls : List (Bytes × Disk)) → IsUnburied st calls (append_all st calls)
unfolding append_all
append_all-IsUnburied st [] = ([], sym (append-nil st.file), inl refl)
append_all-IsUnburied st ((line, disk) ∷ calls) =
    let d = stream_append st line disk in
    append_to-IsUnburied st line disk calls d (stream_append-IsWhole st line disk)
      (append_all-IsUnburied d.0 calls)

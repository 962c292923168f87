-- ===== src/Stream.antt =====
-- A journal's file: `asngn_stream_append` of src/stream.c. `Disk` says what the file system does; the
-- injected faults of the tests are some of its cases.
use asterism_asngn.Common.{
  ℕ, Bool, true, false, not, ◌&&◌, Option, none, some, [], ◌∷◌, ◌++◌, ◌==◌, if◌then◌else◌, Bytes,
  take,
}
use asterism_asngn.Common.Errors.{AsngnErr, io}
pub mod Whole

-- `asngn_stream` with the bytes of its file; `is_open` says that `fp` is not NULL.
pub record Stream : Type 0 where
  pub is_open : Bool
  pub sync : Bool
  pub file : Bytes

-- `seeks`: the end of the file is found. `cut` is none where all was written and flushed, or else how
-- many bytes had reached the file when it was closed. `truncates`, `reopens` and `syncs`: that call
-- succeeds.
pub record Disk : Type 0 where
  pub seeks : Bool
  pub cut : Option ℕ
  pub truncates : Bool
  pub reopens : Bool
  pub syncs : Bool

-- `len > 0 && line[len - 1] == '\n'`.
unfoldable pub ends_line : Bytes → Bool
ends_line [] = false
ends_line (ch ∷ []) = ch == b'\n'
ends_line (ch ∷ next ∷ line) = ends_line (next ∷ line)

-- The bytes of a line, with the newline that it may lack.
unfoldable pub text_of : Bytes → Bytes
unfolding ends_line
text_of line = if ends_line line then line else line ++ b'\n' ∷ []

-- A failed write: the file is cut back, or it is left as it is and closed.
unfoldable pub roll_back : Stream → Bytes → ℕ → Disk → Stream
roll_back st text reached disk =
    if disk.seeks && disk.truncates
    then record st { is_open = disk.reopens }
    else record st { is_open = false; file = st.file ++ take reached text }

-- Past the write and the flush.
unfoldable pub finish : Stream → Bytes → Disk → Stream × Option AsngnErr
finish st text disk =
    if st.sync && not disk.syncs
    then (record st { is_open = false; file = st.file ++ text }, some io)
    else (record st { file = st.file ++ text }, none)

unfoldable pub write_line : Stream → Bytes → Option ℕ → Disk → Stream × Option AsngnErr
unfolding roll_back finish
write_line st text none disk = finish st text disk
write_line st text (some reached) disk = (roll_back st text reached disk, some io)

-- `asngn_stream_append`.
unfoldable pub stream_append : Stream → Bytes → Disk → Stream × Option AsngnErr
unfolding write_line text_of
stream_append st line disk =
    if not st.is_open then (st, some io) else write_line st (text_of line) disk.cut disk

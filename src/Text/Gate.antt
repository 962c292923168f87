-- ===== src/Text/Gate.antt =====
-- src/safety.c, `asngn_gate_input`: the input gate in front of a turn.
pub mod Sanitized
use asterism_asngn.Common.{
  ℕ, ◌*◌, Bool, true, false, not, ◌&&◌, ◌||◌, List, [], ◌∷◌, ltb, ◌==◌, if◌then◌else◌, Bytes, take,
  all,
}
use asterism_asngn.Text.Utf8.{utf8_valid, utf8_invalid_offset}
use asterism_asngn.Text.Strip.{strip_controls}

-- `ASNGN_INPUT_MAX`.
abbrev pub input_max : ℕ
input_max = 64 * 1024

-- The reasons that `asngn_seterr` records; the code of each is `ASNGN_ERR_INVALID`.
pub data GateError : Type 0 where
  empty_message : GateError
  too_long : ℕ → GateError
  not_utf8 : ℕ → GateError
  empty_after_stripping : GateError

-- `ok` is `ASNGN_OK`; the buffer and `*len` are what the caller sees in both cases.
pub data Gated : Type 0 where
  accepted : Bytes → ℕ → Gated
  rejected : GateError → Bytes → ℕ → Gated

unfoldable pub is_blank : ℕ → Bool
is_blank ch = ch == b' ' || ch == b'\t' || ch == b'\n'

-- The check behind the sanitizing, on the buffer and the new length.
unfoldable pub gate_stripped : Bytes × ℕ → Gated
gate_stripped (s, w) =
    if all is_blank (take w s) then rejected empty_after_stripping s w else accepted s w

-- `text` is never NULL here: the callers own the buffer.
unfoldable pub gate_input : Bytes → ℕ → Gated
unfolding gate_stripped
gate_input text len =
    if len == 0
    then rejected empty_message text len
    else if ltb input_max len
    then rejected (too_long len) text len
    else if not (utf8_valid (take len text))
    then rejected (not_utf8 (utf8_invalid_offset (take len text))) text len
    else gate_stripped (strip_controls text len)

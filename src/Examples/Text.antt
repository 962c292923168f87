-- ===== src/Examples/Text.antt =====
-- Messages, names and texts at the input gate: src/safety.c and src/util.c.
use asterism_asngn.Common.{◌≡◌, ◌↔◌, refl, true, false, [], ◌∷◌, ◌≤◌, arith, Bytes, length, take}
use asterism_asngn.Text.Utf8.{
  utf8_valid, utf8_invalid_offset, utf8_sequence, lead_length, bad_sequence,
}
use asterism_asngn.Text.Utf8.Validity.{IsUtf8, utf8_valid_iff}
use asterism_asngn.Text.Strip.{strip_controls, clean, strip_controls-clean}
use asterism_asngn.Text.Gate.{gate_input}
use asterism_asngn.Text.Gate.Sanitized.{
  Accepted, Acceptable, Sanitized, gate_input_iff, gate_input-Sanitized,
}
use asterism_asngn.Text.Sentence.{is_boundary, sentence_trim}
use asterism_asngn.Text.Sentence.Whole.{sentence_trim-utf8_valid}

-- "a", U+20AC, a bell.
abbrev message : Bytes
message = 0x61 ∷ 0xE2 ∷ 0x82 ∷ 0xAC ∷ 0x07 ∷ []

-- An overlong form behind "a".
abbrev overlong : Bytes
overlong = 0x61 ∷ 0xC0 ∷ 0x80 ∷ []

-- "a. b".
abbrev prose : Bytes
prose = 0x61 ∷ 0x2E ∷ 0x20 ∷ 0x62 ∷ []

-- "job-1".
abbrev name : Bytes
name = 0x6A ∷ 0x6F ∷ 0x62 ∷ 0x2D ∷ 0x31 ∷ []

overlong_refused : utf8_valid overlong ≡ false
unfolding utf8_valid utf8_sequence
overlong_refused = refl

overlong_offset : utf8_invalid_offset overlong ≡ 1
unfolding utf8_invalid_offset lead_length bad_sequence utf8_valid utf8_sequence
overlong_offset = refl

prose_cut : sentence_trim prose 4 ≡ 2
unfolding sentence_trim is_boundary
prose_cut = refl

utf8_valid_iff_example : (utf8_valid message ≡ true) ↔ IsUtf8 message
utf8_valid_iff_example = utf8_valid_iff message (omega arith)

strip_controls-clean_example :
    let (s', w) = strip_controls message 5 in
    (take w s' ≡ clean (take 5 message)) × (w ≤ 5) × (length s' ≡ length message)
strip_controls-clean_example = strip_controls-clean message 5 (omega arith)

gate_input_iff_example : Accepted (gate_input message 5) ↔ Acceptable message 5
gate_input_iff_example = gate_input_iff message 5 (omega arith)

gate_input-Sanitized_example : Sanitized message 5 (gate_input message 5)
gate_input-Sanitized_example = gate_input-Sanitized message 5 (omega arith) (omega arith)

sentence_trim-utf8_valid_example :
    utf8_valid (take (sentence_trim prose (length prose)) prose) ≡ true
unfolding utf8_valid utf8_sequence
sentence_trim-utf8_valid_example = sentence_trim-utf8_valid prose (omega arith) refl

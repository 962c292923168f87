-- ===== src/Examples/Redact.antt =====
-- Examples on the secret scanner of src/redact.c.
use asterism_asngn.Common.{
  ◌≡◌, ◌≤◌, refl, Bool, true, none, some, [], ◌∷◌, ◌++◌, Bytes, length, drop, arith,
}
use asterism_asngn.Redact.Patterns.{Match, whole, match_structural}
use asterism_asngn.Redact.Scan.{
  Span, span, structural_loop, last_of, find_masks, sort_spans, masked_bytes, out_len, write_out,
}
use asterism_asngn.Redact.Ordered.{Ordered, single_pass, find_masks-Ordered}
use asterism_asngn.Redact.Sized.{write_out-out_len}
use asterism_asngn.Redact.Covered.{Covered, structural_loop-Covered}

-- "AKIA" and sixteen more.
abbrev key : Bytes
key =
    b'A' ∷ b'K' ∷ b'I' ∷ b'A' ∷ b'0' ∷ b'1' ∷ b'2' ∷ b'3' ∷ b'4' ∷ b'5' ∷ b'6' ∷ b'7' ∷ b'8' ∷ b'9'
    ∷ b'Z' ∷ b'Y' ∷ b'X' ∷ b'W' ∷ b'V' ∷ b'U' ∷ []

-- "my AKIA...; token=hunter22"
abbrev line : Bytes
line =
    b'm'
    ∷ b'y'
    ∷ b' '
    ∷ (key
        ++ b';' ∷ b' ' ∷ b't' ∷ b'o' ∷ b'k' ∷ b'e' ∷ b'n' ∷ b'=' ∷ b'h' ∷ b'u' ∷ b'n' ∷ b't' ∷ b'e'
          ∷ b'r' ∷ b'2' ∷ b'2' ∷ [])

abbrev random : Bool → Bytes → Bool
random hex run = true

sorted_masks : sort_spans (find_masks random line) ≡ span 3 23 ∷ span 31 39 ∷ []
unfolding sort_spans find_masks structural_loop match_structural
    asterism_asngn.Redact.Patterns.longest asterism_asngn.Redact.Patterns.longer
    asterism_asngn.Redact.Patterns.m_aws asterism_asngn.Redact.Patterns.m_gcp
    asterism_asngn.Redact.Patterns.m_github asterism_asngn.Redact.Patterns.m_openai
    asterism_asngn.Redact.Patterns.m_pem asterism_asngn.Redact.Patterns.m_auth
    asterism_asngn.Redact.Patterns.m_kv asterism_asngn.Redact.Patterns.kv_loop
    asterism_asngn.Redact.Patterns.kv_one asterism_asngn.Redact.Patterns.run_length
    asterism_asngn.Redact.Patterns.masked_run asterism_asngn.Redact.Patterns.first_word
    asterism_asngn.Redact.Patterns.memfind asterism_asngn.Redact.Patterns.pem_alg
    asterism_asngn.Redact.Patterns.pem_block asterism_asngn.Redact.Patterns.pem_found
    asterism_asngn.Redact.Scan.insert_span asterism_asngn.Redact.Scan.scan_gaps
    asterism_asngn.Redact.Scan.entropy_loop asterism_asngn.Redact.Scan.run_is_secret
    asterism_asngn.Redact.Scan.scan_entropy
sorted_masks = refl

find_masks-Ordered_example :
    (sort_spans (find_masks random line)
      ≡ single_pass random line 0 (structural_loop (length line) none 0 line))
    × Ordered 0 (length line) (sort_spans (find_masks random line))
find_masks-Ordered_example = find_masks-Ordered random line

write_out-out_len_example :
    (length (write_out line 0 (sort_spans (find_masks random line)))
      ≡ out_len line (sort_spans (find_masks random line)))
    × (masked_bytes (sort_spans (find_masks random line)) ≤ length line)
write_out-out_len_example = write_out-out_len random line

key_matches : match_structural (last_of 3 line) (drop 3 line) ≡ some (whole 20)
unfolding match_structural asterism_asngn.Redact.Patterns.longest
    asterism_asngn.Redact.Patterns.longer asterism_asngn.Redact.Patterns.m_aws
    asterism_asngn.Redact.Patterns.m_gcp asterism_asngn.Redact.Patterns.m_github
    asterism_asngn.Redact.Patterns.m_openai asterism_asngn.Redact.Patterns.m_pem
    asterism_asngn.Redact.Patterns.m_auth asterism_asngn.Redact.Patterns.m_kv
    asterism_asngn.Redact.Patterns.kv_loop asterism_asngn.Redact.Patterns.kv_one
key_matches = refl

structural_loop-Covered_example : Covered 3 (structural_loop (length line) none 0 line)
structural_loop-Covered_example =
    structural_loop-Covered line 3 (whole 20) (omega arith) key_matches

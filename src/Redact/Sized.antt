-- ===== src/Redact/Sized.antt =====
-- Proofs on the copy at the end of `asngn_redact` of src/redact.c.
use asterism_asngn.Common.{
  ℕ, ◌+◌, ◌-◌, ◌*◌, ◌≤◌, ◌≡◌, arith, Bool, List, [], ◌∷◌, ◌++◌, Bytes, length, length-append,
  length-drop, length-take, take, drop,
}
use asterism_asngn.Sha256.{sha256, sha256_hex}
use asterism_asngn.Sha256.Digest.{length-hex}
use asterism_asngn.Redact.Scan.{
  Span, find_masks, sort_spans, masked_bytes, count, out_len, marker, write_out,
}
use asterism_asngn.Redact.Ordered.{Ordered, Ordered-le, find_masks-Ordered}

length-marker : (secret : Bytes) → length (marker secret) ≡ 21
unfolding marker
length-marker secret = omega (
  arith,
  length-append (sha256_hex (sha256 secret) 4) (0xc2 ∷ 0xbb ∷ []),
  length-hex secret 4 (omega arith),
)

-- What is copied from a position on, and what the masks of it hold.
length-write_out :
    (text : Bytes) (at : ℕ) (masks : List Span)
    → Ordered at (length text) masks
    → (length (write_out text at masks) + masked_bytes masks ≡ length text - at + count masks * 21)
      × (masked_bytes masks ≤ length text - at)
unfolding write_out masked_bytes
length-write_out text at [] o = omega (arith, length-drop at text)
length-write_out text at (m ∷ masks) o =
    let plain = take (m.start - at) (drop at text) in
    let secret = take (m.end - m.start) (drop m.start text) in
    omega (
      arith,
      o.0,
      o.1,
      Ordered-le m.end (length text) masks o.2,
      length-append plain (marker secret ++ write_out text m.end masks),
      length-append (marker secret) (write_out text m.end masks),
      length-marker secret,
      length-take (m.start - at) (drop at text),
      length-drop at text,
      length-write_out text m.end masks o.2,
    )

-- The copy fills the block that was allocated for it exactly: it writes as many bytes as the masks
-- announce, a marker of 21 bytes in the place of each, and the size is computed without running below 0.
pub write_out-out_len :
    (is_random : Bool → Bytes → Bool) (text : Bytes)
    → (let masks = sort_spans (find_masks is_random text) in
        (length (write_out text 0 masks) ≡ out_len text masks) × (masked_bytes masks ≤ length text))
unfolding out_len
write_out-out_len is_random text =
    let masks = sort_spans (find_masks is_random text) in
    let (size, fits) = length-write_out text 0 masks (find_masks-Ordered is_random text).1 in
    omega (arith, size, fits)

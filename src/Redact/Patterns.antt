-- ===== src/Redact/Patterns.antt =====
-- The character classes and the structural matchers of src/redact.c. A matcher reads the text from its
-- position on, of which `len - i` is the length; none is a return of 0.
use asterism_asngn.Common.{
  ℕ, suc, ◌+◌, Bool, true, false, not, ◌&&◌, ◌||◌, Option, none, some, List, [], ◌∷◌, ◌++◌, ltb,
  within, ◌==◌, if◌then◌else◌, Bytes, all, length, take, drop, get_or,
}
use asterism_asngn.Common.Maybe.{◌>>=◌}

abbrev pub cls_upnum : ℕ → Bool
cls_upnum ch = within b'A' b'Z' ch || within b'0' b'9' ch

abbrev pub cls_alnum : ℕ → Bool
cls_alnum ch = within b'A' b'Z' ch || within b'a' b'z' ch || within b'0' b'9' ch

abbrev pub cls_b64url : ℕ → Bool
cls_b64url ch = cls_alnum ch || ch == b'_' || ch == b'-'

abbrev pub cls_auth : ℕ → Bool
cls_auth ch =
    cls_alnum ch
    || ch == b'.'
    || ch == b'_'
    || ch == b'~'
    || ch == b'+'
    || ch == b'/'
    || ch == b'='
    || ch == b'-'

abbrev pub cls_entropy : ℕ → Bool
cls_entropy ch = cls_alnum ch || ch == b'+' || ch == b'/' || ch == b'=' || ch == b'_' || ch == b'-'

abbrev pub cls_value : ℕ → Bool
cls_value ch = ltb 0x20 ch && not (ch == b'"') && not (ch == 0x27)

abbrev pub rd_lower : ℕ → ℕ
rd_lower ch = if within b'A' b'Z' ch then ch + 32 else ch

-- `memcmp` of the text with a literal that must fit in it.
abbrev pub prefix : Bytes → Bytes → Bool
prefix [] s = true
prefix (p ∷ ps) [] = false
prefix (p ∷ ps) (ch ∷ s) = ch == p && prefix ps s

abbrev pub ci_prefix : Bytes → Bytes → Bool
ci_prefix [] s = true
ci_prefix (p ∷ ps) [] = false
ci_prefix (p ∷ ps) (ch ∷ s) = rd_lower ch == p && ci_prefix ps s

-- `rd_memfind`: where the needle starts.
unfoldable pub memfind : Bytes → Bytes → Option ℕ
memfind needle [] = none
memfind needle (ch ∷ s) =
    let later = memfind needle s >>= λ k. some (suc k) in
    if prefix needle (ch ∷ s) then some 0 else later

-- The loops that count the characters of a class.
unfoldable pub run_length : (ℕ → Bool) → Bytes → ℕ
run_length cls [] = 0
run_length cls (ch ∷ s) = let later = run_length cls s in if cls ch then suc later else 0

-- The class of a character, where the text reaches that far.
abbrev pub has_class : (ℕ → Bool) → ℕ → Bytes → Bool
has_class cls k s = ltb k (length s) && cls (get_or s k 0)

-- What a matcher consumes, and the part of it that is masked.
pub record Match : Type 0 where
  pub total : ℕ
  pub off : ℕ
  pub size : ℕ

abbrev pub whole : ℕ → Match
whole n = record { total = n; off = 0; size = n }

-- `m_aws`.
unfoldable pub m_aws : Bytes → Option Match
m_aws s =
    if ltb (length s) 20 || not (prefix (b'A' ∷ b'K' ∷ b'I' ∷ b'A' ∷ []) s)
    then none
    else if not (all cls_upnum (take 16 (drop 4 s)))
    then none
    else if has_class cls_upnum 20 s
    then none
    else some (whole 20)

-- `m_gcp`.
unfoldable pub m_gcp : Bytes → Option Match
m_gcp s =
    if ltb (length s) 39 || not (prefix (b'A' ∷ b'I' ∷ b'z' ∷ b'a' ∷ []) s)
    then none
    else if not (all cls_b64url (take 35 (drop 4 s)))
    then none
    else if has_class cls_b64url 39 s
    then none
    else some (whole 39)

-- `gh` and one of `pousr`, then `_`.
abbrev pub is_github : Bytes → Bool
is_github s =
    let third = get_or s 2 0 in
    prefix (b'g' ∷ b'h' ∷ []) s
    && (third == b'p' || third == b'o' || third == b'u' || third == b's' || third == b'r')
    && get_or s 3 0 == b'_'

-- `m_github`.
unfoldable pub m_github : Bytes → Option Match
m_github s =
    let run = run_length cls_alnum (drop 4 s) in
    if ltb (length s) 4 || not (is_github s)
    then none
    else if ltb run 36
    then none
    else some (whole (4 + run))

-- `m_openai`.
unfoldable pub m_openai : Bytes → Option Match
m_openai s =
    let run = run_length cls_b64url (drop 3 s) in
    if ltb (length s) 3 || not (prefix (b's' ∷ b'k' ∷ b'-' ∷ []) s)
    then none
    else if ltb run 20
    then none
    else some (whole (3 + run))

-- "-----BEGIN ", "-----END " and "PRIVATE KEY-----".
abbrev pub dashes : Bytes
dashes = b'-' ∷ b'-' ∷ b'-' ∷ b'-' ∷ b'-' ∷ []

abbrev pub pem_begin : Bytes
pem_begin = dashes ++ b'B' ∷ b'E' ∷ b'G' ∷ b'I' ∷ b'N' ∷ b' ' ∷ []

abbrev pub pem_end : Bytes
pem_end = dashes ++ b'E' ∷ b'N' ∷ b'D' ∷ b' ' ∷ []

abbrev pub pem_tail : Bytes
pem_tail = b'P' ∷ b'R' ∷ b'I' ∷ b'V' ∷ b'A' ∷ b'T' ∷ b'E' ∷ b' ' ∷ b'K' ∷ b'E' ∷ b'Y' ∷ dashes

abbrev pub pem_algs : List Bytes
pem_algs =
    (b'R' ∷ b'S' ∷ b'A' ∷ b' ' ∷ [])
    ∷ (b'E' ∷ b'C' ∷ b' ' ∷ [])
    ∷ (b'O' ∷ b'P' ∷ b'E' ∷ b'N' ∷ b'S' ∷ b'S' ∷ b'H' ∷ b' ' ∷ [])
    ∷ (b'D' ∷ b'S' ∷ b'A' ∷ b' ' ∷ [])
    ∷ []
    ∷ []

-- The first algorithm that the header names.
unfoldable pub pem_alg : List Bytes → Bytes → Option Bytes
pem_alg [] s = none
pem_alg (alg ∷ algs) s =
    let later = pem_alg algs s in if prefix (alg ++ pem_tail) s then some alg else later

-- The block up to its END marker, or to the end of the text.
unfoldable pub pem_found : Bytes → ℕ → Option ℕ → Option Match
pem_found s to_marker none = some (whole (length s))
pem_found s to_marker (some k) = some (whole (to_marker + k))

-- The block of one algorithm; `hdr` is the length of its header.
unfoldable pub pem_block : Bytes → Bytes → Option Match
pem_block s alg =
    let hdr = length pem_begin + length (alg ++ pem_tail) in
    let needle = pem_end ++ (alg ++ pem_tail) in
    pem_found s (hdr + length needle) (memfind needle (drop hdr s))

-- `m_pem`.
unfoldable pub m_pem : Bytes → Option Match
m_pem s =
    if ltb (length s) (length pem_begin + length pem_tail) || not (prefix pem_begin s)
    then none
    else pem_alg pem_algs (drop (length pem_begin) s) >>= pem_block s

abbrev pub is_blank : ℕ → Bool
is_blank ch = ch == b' ' || ch == 9

-- "authorization:", "bearer", "basic" and "token".
abbrev pub auth_key : Bytes
auth_key =
    b'a' ∷ b'u' ∷ b't' ∷ b'h' ∷ b'o' ∷ b'r' ∷ b'i' ∷ b'z' ∷ b'a' ∷ b't' ∷ b'i' ∷ b'o' ∷ b'n' ∷ b':'
    ∷ []

abbrev pub auth_schemes : List Bytes
auth_schemes =
    (b'b' ∷ b'e' ∷ b'a' ∷ b'r' ∷ b'e' ∷ b'r' ∷ [])
    ∷ (b'b' ∷ b'a' ∷ b's' ∷ b'i' ∷ b'c' ∷ [])
    ∷ (b't' ∷ b'o' ∷ b'k' ∷ b'e' ∷ b'n' ∷ [])
    ∷ []

-- The length of the first word of a list that the text starts with.
unfoldable pub first_word : List Bytes → Bytes → Option ℕ
first_word [] s = none
first_word (w ∷ ws) s =
    let later = first_word ws s in if ci_prefix w s then some (length w) else later

-- The value that starts at `tok`: a run of a class, long enough.
unfoldable pub masked_run : (ℕ → Bool) → ℕ → ℕ → Bytes → Option Match
masked_run cls least tok s =
    let run = run_length cls (drop tok s) in
    if ltb run least then none else some (record { total = tok + run; off = tok; size = run })

-- `m_auth`.
unfoldable pub m_auth : Bytes → Option Match
m_auth s =
    let j = 14 + run_length is_blank (drop 14 s) in
    let later = first_word auth_schemes (drop j s) >>= λ n.
    let k = j + n in
    let tok = k + run_length is_blank (drop k s) in
    if not (has_class is_blank k s) then none else masked_run cls_auth 8 tok s in
    if not (ci_prefix auth_key s) then none else later

-- The keys of key=value pairs.
abbrev pub kv_keys : List Bytes
kv_keys =
    (b'c' ∷ b'l' ∷ b'i' ∷ b'e' ∷ b'n' ∷ b't' ∷ b'_' ∷ b's' ∷ b'e' ∷ b'c' ∷ b'r' ∷ b'e' ∷ b't' ∷ [])
    ∷ (b'a' ∷ b'c' ∷ b'c' ∷ b'e' ∷ b's' ∷ b's' ∷ b'_' ∷ b't' ∷ b'o' ∷ b'k' ∷ b'e' ∷ b'n' ∷ [])
    ∷ (b'p' ∷ b'r' ∷ b'i' ∷ b'v' ∷ b'a' ∷ b't' ∷ b'e' ∷ b'_' ∷ b'k' ∷ b'e' ∷ b'y' ∷ [])
    ∷ (b'a' ∷ b'u' ∷ b't' ∷ b'h' ∷ b'_' ∷ b't' ∷ b'o' ∷ b'k' ∷ b'e' ∷ b'n' ∷ [])
    ∷ (b'p' ∷ b'a' ∷ b's' ∷ b's' ∷ b'w' ∷ b'o' ∷ b'r' ∷ b'd' ∷ [])
    ∷ (b'a' ∷ b'p' ∷ b'i' ∷ b'_' ∷ b'k' ∷ b'e' ∷ b'y' ∷ [])
    ∷ (b'a' ∷ b'p' ∷ b'i' ∷ b'k' ∷ b'e' ∷ b'y' ∷ [])
    ∷ (b'p' ∷ b'a' ∷ b's' ∷ b's' ∷ b'w' ∷ b'd' ∷ [])
    ∷ (b's' ∷ b'e' ∷ b'c' ∷ b'r' ∷ b'e' ∷ b't' ∷ [])
    ∷ (b't' ∷ b'o' ∷ b'k' ∷ b'e' ∷ b'n' ∷ [])
    ∷ []

-- What one key of the loop of `m_kv` finds.
unfoldable pub kv_one : Bytes → Bytes → Option Match
kv_one key s =
    let j = length key + run_length is_blank (drop (length key) s) in
    let k = j + 1 + run_length is_blank (drop (j + 1) s) in
    let quoted = has_class (λ ch. ch == b'"' || ch == 0x27) k s in
    if not (ci_prefix key s)
    then none
    else if not (has_class (λ ch. ch == b'=' || ch == b':') j s)
    then none
    else masked_run cls_value 6 (if quoted then k + 1 else k) s

-- The longer of two matches, the earlier one where they are equal.
unfoldable pub longer : Option Match → Option Match → Option Match
longer none m = m
longer (some best) none = some best
longer (some best) (some m) = if ltb best.total m.total then some m else some best

unfoldable pub kv_loop : Option Match → List Bytes → Bytes → Option Match
kv_loop best [] s = best
kv_loop best (key ∷ keys) s = kv_loop (longer best (kv_one key s)) keys s

-- `m_kv`, behind the character `before`, if there is one.
unfoldable pub m_kv : Option ℕ → Bytes → Option Match
m_kv none s = kv_loop none kv_keys s
m_kv (some before) s = if cls_alnum before then none else kv_loop none kv_keys s

-- The loop of `match_structural` over the results of the matchers.
unfoldable pub longest : Option Match → List (Option Match) → Option Match
longest best [] = best
longest best (m ∷ ms) = longest (longer best m) ms

-- `match_structural`.
unfoldable pub match_structural : Option ℕ → Bytes → Option Match
match_structural before s =
    longest none
      (m_aws s ∷ m_gcp s ∷ m_github s ∷ m_openai s ∷ m_pem s ∷ m_auth s ∷ m_kv before s ∷ [])

-- ===== src/Redact/Fits.antt =====
-- Proofs on the matchers of src/redact.c.
use asterism_asngn.Common.{
  ℕ, suc, ◌+◌, ◌≤◌, ◌<◌, ◌≡◌, refl, subst, arith, Bool, true, false, not, ◌||◌, Option, none, some,
  List, [], ◌∷◌, ◌++◌, ltb, ◌==◌, if◌then◌else◌, pick, pick_on, Bytes, All, length, length-drop,
  drop, and_left, ltb→lt,
}
use asterism_asngn.Common.Maybe.{◌>>=◌, >>=-eq-some, some_eq}
use asterism_asngn.Redact.Patterns.{
  cls_auth, cls_value, cls_alnum, cls_b64url, prefix, ci_prefix, memfind, run_length, has_class,
  Match, whole, m_aws, m_gcp, m_github, m_openai, pem_begin, pem_tail, pem_end, pem_algs, pem_alg,
  pem_found, pem_block, m_pem, is_blank, auth_key, auth_schemes, first_word, masked_run, m_auth,
  kv_keys, kv_one, longer, kv_loop, m_kv, longest, match_structural,
}

-- A match consumes a byte at least and no more than there is, and masks a part of what it consumes.
unfoldable pub Fits : Bytes → Option Match → Type 0
Fits s none = Unit
Fits s (some m) = (0 < m.size) × (m.total ≤ length s) × (m.off + m.size ≤ m.total)

pub run_length-le : (cls : ℕ → Bool) (s : Bytes) → run_length cls s ≤ length s
unfolding run_length
run_length-le cls [] = omega arith
run_length-le cls (ch ∷ s) = ground (arith, run_length-le cls s)

-- A run behind a position in the text ends in the text.
run_ends :
    (cls : ℕ → Bool) (k : ℕ) (s : Bytes) → k ≤ length s → k + run_length cls (drop k s) ≤ length s
run_ends cls k s h = omega (arith, run_length-le cls (drop k s), length-drop k s)

prefix-length : (p s : Bytes) → prefix p s ≡ true → length p ≤ length s
prefix-length [] s h = omega arith
prefix-length (x ∷ p) [] h = ground arith
prefix-length (x ∷ p) (ch ∷ s) h = ground (arith, prefix-length p s)

ci_prefix-length : (p s : Bytes) → ci_prefix p s ≡ true → length p ≤ length s
ci_prefix-length [] s h = omega arith
ci_prefix-length (x ∷ p) [] h = ground arith
ci_prefix-length (x ∷ p) (ch ∷ s) h = ground (arith, ci_prefix-length p s)

Fits-none : (s : Bytes) → Fits s none
unfolding Fits
Fits-none s = tt

Fits-whole : (s : Bytes) (n : ℕ) → 0 < n → n ≤ length s → Fits s (some (whole n))
unfolding Fits
Fits-whole s n pos h = (pos, h, omega arith)

guarded :
    (s : Bytes) (b : Bool) (m : Option Match)
    → (b ≡ false → Fits s m)
    → Fits s (if b then none else m)
guarded s true m h = Fits-none s
guarded s false m h = h refl

unless :
    (s : Bytes) (b : Bool) (m : Option Match)
    → (b ≡ true → Fits s m)
    → Fits s (if not b then none else m)
unless s true m h = h refl
unless s false m h = Fits-none s

both_guarded :
    (s : Bytes) (b c : Bool) (m : Option Match)
    → (b ≡ false → c ≡ true → Fits s m)
    → Fits s (if b || not c then none else m)
both_guarded s true c m h = Fits-none s
both_guarded s false true m h = h refl refl
both_guarded s false false m h = Fits-none s

m_aws-Fits : (s : Bytes) → Fits s (m_aws s)
unfolding m_aws
m_aws-Fits s = both_guarded s (ltb (length s) 20) _ _ (λ long start.
    pick (Fits s) _ none _ (Fits-none s)
      (pick (Fits s) _ none _ (Fits-none s) (Fits-whole s 20 (omega arith) (ground (arith, long)))))

m_gcp-Fits : (s : Bytes) → Fits s (m_gcp s)
unfolding m_gcp
m_gcp-Fits s = both_guarded s (ltb (length s) 39) _ _ (λ long start.
    pick (Fits s) _ none _ (Fits-none s)
      (pick (Fits s) _ none _ (Fits-none s) (Fits-whole s 39 (omega arith) (ground (arith, long)))))

m_github-Fits : (s : Bytes) → Fits s (m_github s)
unfolding m_github
m_github-Fits s = both_guarded s (ltb (length s) 4) _ _ (λ long start.
    pick (Fits s) _ none _ (Fits-none s)
      (Fits-whole s _ (omega arith) (run_ends cls_alnum 4 s (ground (arith, long)))))

m_openai-Fits : (s : Bytes) → Fits s (m_openai s)
unfolding m_openai
m_openai-Fits s = both_guarded s (ltb (length s) 3) _ _ (λ long start.
    pick (Fits s) _ none _ (Fits-none s)
      (Fits-whole s _ (omega arith) (run_ends cls_b64url 3 s (ground (arith, long)))))

Fits-bind :
    {A : Type 0} (s : Bytes) (o : Option A) (f : A → Option Match)
    → ((a : A) → o ≡ some a → Fits s (f a))
    → Fits s (o >>= f)
Fits-bind s none f h = Fits-none s
Fits-bind s (some a) f h = h a refl

memfind-ends : (needle s : Bytes) (k : ℕ) → memfind needle s ≡ some k → k + length needle ≤ length s
unfolding memfind
memfind-ends needle [] k h = cc
memfind-ends needle (ch ∷ s) k h =
    pick_on (λ o. o ≡ some k → k + length needle ≤ suc (length s)) (prefix needle (ch ∷ s)) (some 0)
      _ (λ starts e. omega (arith, some_eq e, prefix-length needle (ch ∷ s) starts))
      (λ other e.
        let (k', found, next) = >>=-eq-some (memfind needle s) (λ k. some (suc k)) e in
        omega (arith, some_eq next, memfind-ends needle s k' found))
      h

pem_alg-prefix :
    (algs : List Bytes) (s alg : Bytes)
    → pem_alg algs s ≡ some alg
    → length (alg ++ pem_tail) ≤ length s
unfolding pem_alg
pem_alg-prefix [] s alg h = cc
pem_alg-prefix (a ∷ algs) s alg h =
    pick_on (λ o. o ≡ some alg → length (alg ++ pem_tail) ≤ length s) (prefix (a ++ pem_tail) s)
      (some a) _
      (λ starts e.
        subst (λ x. length (x ++ pem_tail) ≤ length s) (some_eq e)
          (prefix-length (a ++ pem_tail) s starts))
      (λ other e. pem_alg-prefix algs s alg e) h

pem_found-Fits :
    (s : Bytes) (to_marker : ℕ) (o : Option ℕ)
    → 0 < to_marker
    → 0 < length s
    → ((k : ℕ) → o ≡ some k → to_marker + k ≤ length s)
    → Fits s (pem_found s to_marker o)
unfolding pem_found
pem_found-Fits s to_marker none pos some_byte h = Fits-whole s (length s) some_byte (omega arith)
pem_found-Fits s to_marker (some k) pos some_byte h =
    Fits-whole s (to_marker + k) (omega arith) (h k refl)

pem_block-Fits :
    (s alg : Bytes) → 11 + length (alg ++ pem_tail) ≤ length s → Fits s (pem_block s alg)
unfolding pem_block
pem_block-Fits s alg fits =
    let hdr = 11 + length (alg ++ pem_tail) in
    let needle = pem_end ++ (alg ++ pem_tail) in
    pem_found-Fits s (hdr + length needle) (memfind needle (drop hdr s)) (omega arith) (omega arith)
      (λ k found. omega (arith, memfind-ends needle (drop hdr s) k found, length-drop hdr s))

m_pem-Fits : (s : Bytes) → Fits s (m_pem s)
unfolding m_pem
m_pem-Fits s = both_guarded s (ltb (length s) 27) _ _ (λ long start.
    let begins : prefix pem_begin s ≡ true = start in
    Fits-bind s (pem_alg pem_algs (drop 11 s)) (pem_block s) (λ alg named. pem_block-Fits s alg (
      omega (
        arith,
        length-drop 11 s,
        pem_alg-prefix pem_algs (drop 11 s) alg named,
        prefix-length pem_begin s begins,
      ))))

masked_run-Fits :
    (cls : ℕ → Bool) (least tok : ℕ) (s : Bytes)
    → 0 < least
    → tok ≤ length s
    → Fits s (masked_run cls least tok s)
unfolding masked_run Fits
masked_run-Fits cls least tok s pos h =
    guarded s (ltb (run_length cls (drop tok s)) least) _
      (λ long. (ground (arith, long), run_ends cls tok s h, omega arith))

has_class-lt : (cls : ℕ → Bool) (k : ℕ) (s : Bytes) → has_class cls k s ≡ true → k < length s
has_class-lt cls k s h = ltb→lt _ _ (and_left _ _ h)

m_auth-Fits : (s : Bytes) → Fits s (m_auth s)
unfolding m_auth
m_auth-Fits s =
    let j = 14 + run_length is_blank (drop 14 s) in
    unless s (ci_prefix auth_key s) _ (λ key.
      Fits-bind s (first_word auth_schemes (drop j s)) _ (λ n word.
        let k = j + n in
        unless s (has_class is_blank k s) _ (λ blank.
          masked_run-Fits cls_auth 8 (k + run_length is_blank (drop k s)) s (omega arith)
            (run_ends is_blank k s (omega (arith, has_class-lt is_blank k s blank))))))

kv_one-Fits : (key s : Bytes) → Fits s (kv_one key s)
unfolding kv_one
kv_one-Fits key s =
    let j = length key + run_length is_blank (drop (length key) s) in
    let k = j + 1 + run_length is_blank (drop (j + 1) s) in
    let is_quote = λ (ch : ℕ). ch == b'"' || ch == 0x27 in
    unless s (ci_prefix key s) _ (λ named.
      unless s (has_class (λ ch. ch == b'=' || ch == b':') j s) _ (λ assigned.
        let inside : j + 1 ≤ length s =
          omega (arith, has_class-lt (λ ch. ch == b'=' || ch == b':') j s assigned) in
        masked_run-Fits cls_value 6 (if has_class is_quote k s then k + 1 else k) s (omega arith) (
          pick_on (λ n. n ≤ length s) (has_class is_quote k s) (k + 1) k
            (λ quoted. omega (arith, has_class-lt is_quote k s quoted))
            (λ bare. run_ends is_blank (j + 1) s inside))))

longer-Fits : (s : Bytes) (best m : Option Match) → Fits s best → Fits s m → Fits s (longer best m)
unfolding longer
longer-Fits s none m hb hm = hm
longer-Fits s (some best) none hb hm = hb
longer-Fits s (some best) (some m) hb hm =
    pick (Fits s) (ltb best.total m.total) (some m) (some best) hm hb

kv_loop-Fits :
    (best : Option Match) (keys : List Bytes) (s : Bytes)
    → Fits s best
    → Fits s (kv_loop best keys s)
unfolding kv_loop
kv_loop-Fits best [] s h = h
kv_loop-Fits best (key ∷ keys) s h =
    kv_loop-Fits (longer best (kv_one key s)) keys s
      (longer-Fits s best (kv_one key s) h (kv_one-Fits key s))

m_kv-Fits : (before : Option ℕ) (s : Bytes) → Fits s (m_kv before s)
unfolding m_kv
m_kv-Fits none s = kv_loop-Fits none kv_keys s (Fits-none s)
m_kv-Fits (some before) s =
    guarded s (cls_alnum before) _ (λ start. kv_loop-Fits none kv_keys s (Fits-none s))

longest-Fits :
    (s : Bytes) (best : Option Match) (ms : List (Option Match))
    → Fits s best
    → All (Fits s) ms
    → Fits s (longest best ms)
unfolding longest
longest-Fits s best [] hb h = hb
longest-Fits s best (m ∷ ms) hb h =
    longest-Fits s (longer best m) ms (longer-Fits s best m hb h.0) h.1

-- Whatever a structural pattern matches lies in the text, and its mask in what it consumes.
pub match_structural-Fits : (before : Option ℕ) (s : Bytes) → Fits s (match_structural before s)
unfolding match_structural
match_structural-Fits before s = longest-Fits s none _ (Fits-none s) (
  m_aws-Fits s,
  (
    m_gcp-Fits s,
    (m_github-Fits s, (m_openai-Fits s, (m_pem-Fits s, (m_auth-Fits s, (m_kv-Fits before s, tt))))),
  ),
)

pub Fits-some :
    (s : Bytes) (m : Match)
    → Fits s (some m)
    → (0 < m.size) × (m.total ≤ length s) × (m.off + m.size ≤ m.total)
unfolding Fits
Fits-some s m h = h

pub run_length-first :
    (cls : ℕ → Bool) (ch : ℕ) (s : Bytes) → not (cls ch) ≡ false → 0 < run_length cls (ch ∷ s)
unfolding run_length
run_length-first cls ch s h = ground arith

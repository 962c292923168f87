-- ===== src/Sha256/Absorb.antt =====
-- Blocks hashed off the front of a byte sequence, and a round of `asngn_sha256_update` as such.
use asterism_asngn.Common.{
  ℕ, zero, suc, ◌-◌, ◌≤◌, ◌<◌, ◌≡◌, refl, ◌∙◌, sym, subst, ap, inl, inr, Bool, true, [], ◌∷◌, ◌++◌,
  append_assoc, arith, leb, le→leb, leb→le, leb-false, ◌==◌, ==_iff, ==-false, ◌&&◌, if◌then◌else◌,
  min, Bytes, length, length-append, length-take, length-drop, take, drop, take-append, drop-append,
  take-append-drop, Bool-cases,
}
use asterism_asngn.Sha256.{State, Ctx, transform, update_step}

-- The independent description: whole blocks are hashed off the front of the bytes, and those that
-- make no block stay. On fuel; a block has 64 bytes.
unfoldable pub absorb : ℕ → State → Bytes → State × Bytes
absorb zero st x = (st, x)
absorb (suc n) st x =
    let rest = absorb n (transform st (take 64 x)) (drop 64 x) in
    if leb 64 (length x) then rest else (st, x)

pub absorb-short : (n : ℕ) (st : State) (x : Bytes) → length x < 64 → absorb n st x ≡ (st, x)
unfolding absorb
absorb-short zero st x h = refl
absorb-short (suc n) st x h = ground arith

pub absorb_fuel :
    (n m : ℕ) (st : State) (x : Bytes) → length x ≤ n → length x ≤ m → absorb n st x ≡ absorb m st x
unfolding absorb
absorb_fuel zero m st x h k = sym (absorb-short m st x (omega arith))
absorb_fuel (suc n) zero st x h k = absorb-short (suc n) st x (omega arith)
absorb_fuel (suc n) (suc m) st x h k = elim (Bool-cases (leb 64 (length x))) [
  | inl whole ↦ rw whole (
      absorb_fuel n m (transform st (take 64 x)) (drop 64 x)
        (omega (arith, length-drop 64 x, leb→le 64 (length x) whole))
        (omega (arith, length-drop 64 x, leb→le 64 (length x) whole)))
  | inr short ↦ rw short
]

-- One block off the front.
absorb-block :
    (n : ℕ) (st : State) (block x : Bytes)
    → length block ≡ 64
    → absorb (suc n) st (block ++ x) ≡ absorb n (transform st block) x
unfolding absorb
absorb-block n st block x h =
    let t : take 64 (block ++ x) ≡ block =
      subst (λ k. take k (block ++ x) ≡ block) h (take-append block x) in
    let d : drop 64 (block ++ x) ≡ x =
      subst (λ k. drop k (block ++ x) ≡ x) h (drop-append block x) in
    let long : leb 64 (length (block ++ x)) ≡ true =
      le→leb 64 (length (block ++ x)) (omega (arith, length-append block x)) in
    rw (long, t, d)

pub absorb-length : (n : ℕ) (st : State) (x : Bytes) → length (absorb n st x).1 ≤ length x
unfolding absorb
absorb-length zero st x = omega arith
absorb-length (suc n) st x = elim (Bool-cases (leb 64 (length x))) [
  | inr short ↦ rw short (omega arith)
  | inl whole ↦
      rw whole
        (omega (arith, absorb-length n (transform st (take 64 x)) (drop 64 x), length-drop 64 x))
]

absorb-empty :
    (n : ℕ) (st : State) (x y : Bytes)
    → length x ≤ 0
    → ◌≡◌ {A = State × Bytes} (st, x ++ y) ((absorb n st x).0, (absorb n st x).1 ++ y)
absorb-empty n st x y h =
    ap (λ (r : State × Bytes). (r.0, r.1 ++ y)) (sym (absorb-short n st x (omega arith)))

-- Absorbing in two parts is absorbing the whole.
pub absorb-append :
    (n k : ℕ) (st : State) (x y : Bytes)
    → length x ≤ n
    → length (x ++ y) ≤ k
    → absorb k st (x ++ y) ≡ absorb k (absorb n st x).0 ((absorb n st x).1 ++ y)
unfolding absorb
absorb-append zero k st x y h m = refl
absorb-append (suc n) zero st x y h m =
    absorb-empty (suc n) st x y (omega (arith, length-append x y))
absorb-append (suc n) (suc k) st x y h m = elim (Bool-cases (leb 64 (length x))) [
  | inr short ↦
      ap (λ (r : State × Bytes). absorb (suc k) r.0 (r.1 ++ y))
        (sym (absorb-short (suc n) st x (leb-false 64 (length x) short)))
  | inl whole ↦
      let block = take 64 x in
      let rest = drop 64 x in
      let long = leb→le 64 (length x) whole in
      let size : length block ≡ 64 = omega (arith, length-take 64 x) in
      let split : x ++ y ≡ block ++ (rest ++ y) =
        ap (λ z. z ++ y) (sym (take-append-drop 64 x)) ∙ append_assoc block rest y in
      let short_n : length rest ≤ n = omega (arith, length-drop 64 x) in
      let short_k : length (rest ++ y) ≤ k =
        omega (arith, length-drop 64 x, length-append rest y, length-append x y) in
      let st' = transform st block in
      let later = absorb n st' rest in
      let fewer : length (later.1 ++ y) ≤ k =
        omega (arith, absorb-length n st' rest, length-append later.1 y, length-append rest y) in
      ap (absorb (suc k) st) split
      ∙ absorb-block k st block (rest ++ y) size
      ∙ absorb-append n k st' rest y short_n short_k
      ∙ absorb_fuel k (suc k) later.0 (later.1 ++ y) fewer (omega arith)
      ∙ rw whole
]

length-zero : (x : Bytes) → length x ≡ 0 → x ≡ []
length-zero [] h = refl
length-zero (b ∷ x) h = absurd (omega arith)

pub both_true : (a b : Bool) → (a && b) ≡ true → (a ≡ true) × (b ≡ true)
both_true a b h = ground arith

pub absorb_front :
    (n : ℕ) (st : State) (block x : Bytes)
    → length block ≡ 64
    → length (block ++ x) ≤ n
    → absorb n st (block ++ x) ≡ absorb n (transform st block) x
absorb_front zero st block x h k = absurd (omega (arith, length-append block x))
absorb_front (suc n) st block x h k =
    absorb-block n st block x h
    ∙ absorb_fuel n (suc n) (transform st block) x (omega (arith, length-append block x))
        (omega (arith, length-append block x))

-- One round of the loop consumes input, and hashes what the description hashes.
abbrev pub Rounds : Ctx → Bytes → Ctx × Bytes → Type 0
Rounds c p (c', rest) =
    (length c'.buffer < 64)
    × (length rest < length p)
    × (c'.bitlen ≡ c.bitlen)
    × ((n : ℕ)
        → length (c.buffer ++ p) ≤ n
        → absorb n c.state (c.buffer ++ p) ≡ absorb n c'.state (c'.buffer ++ rest))

-- The three branches of the round, with `space` the bytes that the buffer takes.
direct_block :
    (c : Ctx) (p : Bytes)
    → length c.buffer ≡ 0
    → 64 ≤ length p
    → Rounds c p (record c { state = transform c.state (take 64 p) }, drop 64 p)
direct_block c p h k =
    let none_held : c.buffer ≡ [] = length-zero c.buffer h in
    let size : length (take 64 p) ≡ 64 = omega (arith, length-take 64 p) in
    (
      omega arith,
      omega (arith, length-drop 64 p),
      refl,
      λ n fuel.
          let joined : c.buffer ++ p ≡ take 64 p ++ drop 64 p =
            ap (λ b. b ++ p) none_held ∙ sym (take-append-drop 64 p) in
          ap (absorb n c.state) joined
          ∙ absorb_front n c.state (take 64 p) (drop 64 p) size
              (subst (λ x. length x ≤ n) joined fuel)
          ∙ ap (λ b. absorb n (transform c.state (take 64 p)) (b ++ drop 64 p)) (sym none_held),
    )

module _ (c : Ctx) (p : Bytes) (space : ℕ) (consumes : 0 < space) (fits : space ≤ length p) where
  abbrev filled : Bytes
  filled = c.buffer ++ take space p

  joined : c.buffer ++ p ≡ filled ++ drop space p
  joined =
      ap (λ x. c.buffer ++ x) (sym (take-append-drop space p))
      ∙ sym (append_assoc c.buffer (take space p) (drop space p))

  full_buffer :
      length filled ≡ 64
      → Rounds c p (record c { state = transform c.state filled; buffer = [] }, drop space p)
  full_buffer size = (
    omega arith,
    omega (arith, length-drop space p),
    refl,
    λ n fuel.
        ap (absorb n c.state) joined
        ∙ absorb_front n c.state filled (drop space p) size (subst (λ x. length x ≤ n) joined fuel),
  )

  part_buffer : length filled < 64 → Rounds c p (record c { buffer = filled }, drop space p)
  part_buffer size =
      (size, omega (arith, length-drop space p), refl, λ n fuel. ap (absorb n c.state) joined)

pub update_step-Rounds :
    (c : Ctx) (p : Bytes) → length c.buffer < 64 → 0 < length p → Rounds c p (update_step c p)
unfolding update_step
update_step-Rounds c p h k = elim (Bool-cases (length c.buffer == 0 && leb 64 (length p))) [
  | inl direct ↦
      let (empty, long) = both_true (length c.buffer == 0) (leb 64 (length p)) direct in
      rw direct (direct_block c p ((==_iff _ _).0 empty) (leb→le 64 (length p) long))
  | inr through ↦
      let space = min (64 - length c.buffer) (length p) in
      let total = length-append c.buffer (take space p) in
      let taken = length-take space p in
      elim (Bool-cases (length (c.buffer ++ take space p) == 64)) [
        | inl full ↦
            rw (through, full)
              (full_buffer c p space (omega arith) (omega arith) ((==_iff _ _).0 full))
        | inr part ↦
            rw (through, part)
              (part_buffer c p space (omega arith) (omega arith)
                (omega (arith, ==-false (length (c.buffer ++ take space p)) 64 part)))
      ]
]

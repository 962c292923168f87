-- ===== src/Redact/Enough.antt =====
-- Proofs on the fuel of the entropy scan of src/redact.c.
use asterism_asngn.Common.{
  ℕ, zero, suc, ◌+◌, ◌≤◌, ◌≡◌, refl, ap, arith, Bool, not, ◌++◌, [], ◌∷◌, Bool-cases, inl, inr,
  Bytes, length, length-drop, drop,
}
use asterism_asngn.Redact.Patterns.{cls_entropy, run_length}
use asterism_asngn.Redact.Fits.{run_length-first}
use asterism_asngn.Redact.Scan.{entropy_mask, entropy_loop}

-- More fuel than there are bytes changes nothing.
pub entropy_loop-enough :
    (is_random : Bool → Bytes → Bool) (fuel more i : ℕ) (s : Bytes)
    → length s ≤ fuel
    → length s ≤ more
    → entropy_loop is_random fuel i s ≡ entropy_loop is_random more i s
unfolding entropy_loop
entropy_loop-enough is_random zero zero i s h k = refl
entropy_loop-enough is_random zero (suc more) i [] h k = refl
entropy_loop-enough is_random zero (suc more) i (ch ∷ s) h k = absurd (omega arith)
entropy_loop-enough is_random (suc fuel) zero i [] h k = refl
entropy_loop-enough is_random (suc fuel) zero i (ch ∷ s) h k = absurd (omega arith)
entropy_loop-enough is_random (suc fuel) (suc more) i [] h k = refl
entropy_loop-enough is_random (suc fuel) (suc more) i (ch ∷ s) h k =
    let run = run_length cls_entropy (ch ∷ s) in
    elim (Bool-cases (not (cls_entropy ch))) [
      | inl skip ↦
          rw skip (entropy_loop-enough is_random fuel more (suc i) s (omega arith) (omega arith))
      | inr inside ↦
          let first = run_length-first cls_entropy ch s inside in
          rw inside (
            ap (◌++◌ (entropy_mask is_random i run (ch ∷ s))) (
              entropy_loop-enough is_random fuel more (i + run) (drop run (ch ∷ s))
                (omega (arith, first, length-drop run (ch ∷ s)))
                (omega (arith, first, length-drop run (ch ∷ s)))))
    ]

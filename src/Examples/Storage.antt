-- ===== src/Examples/Storage.antt =====
-- Buffers and digests: src/util.c and src/sha256.c.
use asterism_asngn.Common.{ℕ, ◌%◌, ◌≤◌, ◌≡◌, true, [], ◌∷◌, length}
use asterism_asngn.Buffer.{init, append}
use asterism_asngn.Buffer.Growth.{Appends, init-IsValid, append-Appends}
use asterism_asngn.Sha256
use asterism_asngn.Sha256.{update, sha256, state_bytes}
use asterism_asngn.Sha256.Absorb.{absorb}
use asterism_asngn.Sha256.Digest.{padded, sha256-padded, length-sha256}

append-Appends_example :
    Appends init (0x61 ∷ 0x62 ∷ []) (append (λ n. true) init (0x61 ∷ 0x62 ∷ []))
append-Appends_example = append-Appends (λ n. true) init (0x61 ∷ 0x62 ∷ []) init-IsValid

sha256-padded_example :
    (k : ℕ) × (length (padded (0x61 ∷ []) k) % 64 ≡ 0)
    × ((n : ℕ)
        → length (padded (0x61 ∷ []) k) ≤ n
        → sha256 (0x61 ∷ []) ≡ state_bytes (absorb n Sha256.init.state (padded (0x61 ∷ []) k)).0)
sha256-padded_example = sha256-padded (0x61 ∷ [])

length-sha256_example : length (sha256 (0x61 ∷ [])) ≡ 32
length-sha256_example = length-sha256 (0x61 ∷ [])

-- ===== src/Examples/Uuid.antt =====
-- Identifiers: src/uuid.c.
use asterism_asngn.Common.{◌≡◌, refl, some, [], ◌∷◌, Bytes, arith}
use asterism_asngn.Common.Lists.{IsBytes}
use asterism_asngn.Uuid.{uuid_to_bytes, uuid_from_bytes}
use asterism_asngn.Uuid.Roundtrip.{uuid_to_bytes-uuid_from_bytes}

abbrev sixteen : Bytes
sixteen =
    0 ∷ 17 ∷ 34 ∷ 51 ∷ 68 ∷ 85 ∷ 102 ∷ 119 ∷ 136 ∷ 153 ∷ 170 ∷ 187 ∷ 204 ∷ 221 ∷ 238 ∷ 255 ∷ []

sixteen-IsBytes : IsBytes sixteen
sixteen-IsBytes = ground arith

uuid_to_bytes-uuid_from_bytes_example : uuid_to_bytes (uuid_from_bytes sixteen) ≡ some sixteen
uuid_to_bytes-uuid_from_bytes_example = uuid_to_bytes-uuid_from_bytes sixteen refl sixteen-IsBytes

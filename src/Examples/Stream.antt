-- ===== src/Examples/Stream.antt =====
-- Examples on the appends of src/stream.c.
use asterism_asngn.Common.{◌≡◌, refl, true, false, none, some, [], ◌∷◌, List, Bytes}
use asterism_asngn.Stream.{Stream, Disk, stream_append}
use asterism_asngn.Stream.Whole.{IsUnburied, append_all, append_all-IsUnburied}

abbrev journal : Stream
journal = record { is_open = true; sync = true; file = [] }

abbrev good : Disk
good = record { seeks = true; cut = none; truncates = true; reopens = true; syncs = true }

-- A short write that is cut back, and a full disk on which that fails.
abbrev short : Disk
short = record good { cut = some 1 }

abbrev full : Disk
full = record short { truncates = false }

abbrev calls : List (Bytes × Disk)
calls =
    (b'a' ∷ b'b' ∷ [], good)
    ∷ (b'c' ∷ b'd' ∷ [], short)
    ∷ (b'e' ∷ b'f' ∷ [], full)
    ∷ (b'g' ∷ [], good)
    ∷ []

left_over : (append_all journal calls).0.file ≡ b'a' ∷ b'b' ∷ b'\n' ∷ b'e' ∷ []
unfolding append_all stream_append asterism_asngn.Stream.write_line asterism_asngn.Stream.text_of
    asterism_asngn.Stream.ends_line asterism_asngn.Stream.roll_back asterism_asngn.Stream.finish
left_over = refl

append_all-IsUnburied_example : IsUnburied journal calls (append_all journal calls)
append_all-IsUnburied_example = append_all-IsUnburied journal calls

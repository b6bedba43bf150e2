-- ===== src/Tests/Exports.antt =====
-- Applications to a stream of one section header and a block that is cut off.
use wlanpi_utilization.Prelude.{ℕ, ◌≡◌, ◌≢◌, refl, List, [], ◌∷◌, ◌++◌}
use wlanpi_utilization.Pcapng.{returned, unfinished, iter_blocks}
use wlanpi_utilization.Pcapng.Lossless.{AreWhole, bytes_of, iter_blocks-bytes_of}

-- Version 1.0 in little-endian order, of no declared length.
abbrev section : List ℕ
section =
    10 ∷ 13 ∷ 13 ∷ 10 ∷ 28 ∷ 0 ∷ 0 ∷ 0 ∷ 77 ∷ 60 ∷ 43 ∷ 26 ∷ 1 ∷ 0 ∷ 0 ∷ 0 ∷ 255 ∷ 255 ∷ 255 ∷ 255
    ∷ 255 ∷ 255 ∷ 255 ∷ 255 ∷ 28 ∷ 0 ∷ 0 ∷ 0 ∷ []

abbrev stream : List ℕ
stream = section ++ 6 ∷ 0 ∷ 0 ∷ 0 ∷ 32 ∷ 0 ∷ 0 ∷ 0 ∷ []

section_is_read : (iter_blocks 4096 section).1 ≡ returned
unfolding iter_blocks
section_is_read = refl

one_block : bytes_of (iter_blocks 4096 stream).0 ≡ section
unfolding iter_blocks
one_block = refl

iter_blocks-bytes_of_example :
    ((iter_blocks 4096 stream).1 ≢ unfinished)
    × AreWhole 4096 0 (iter_blocks 4096 stream).0
    × ((rest : List ℕ) × (bytes_of (iter_blocks 4096 stream).0 ++ rest ≡ stream)
        × ((iter_blocks 4096 stream).1 ≡ returned → rest ≡ []))
iter_blocks-bytes_of_example = iter_blocks-bytes_of 4096 stream

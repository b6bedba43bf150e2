-- ===== src/Pcapng.antt =====
-- `iter_blocks` of beacon_live/pcapng.py, on a stream that is the list of its bytes: `_read_exact`
-- joins what short reads give, and raises where the stream ends first. The generator is the list of
-- the blocks that it yields and how it ends. The messages leave out the values that they quote.
pub mod Lossless
use wlanpi_utilization.Prelude.{
  ℕ, zero, suc, ◌+◌, ◌-◌, ◌*◌, ◌/◌, ◌%◌, ◌^◌, ltb, leb, ◌==◌, Bool, true, false, not, ◌&&◌, ◌||◌,
  Option, none, some, List, [], ◌∷◌, length, take, drop, String, Result, ok, value_error, ◌>>=◌,
  if◌then◌else◌,
}
use wlanpi_utilization.Ipc.Channel.{unpack}

pub data Endian : Type 0 where
  little big : Endian

pub record Block : Type 0 where
  pub kind : ℕ
  pub endian : Endian
  pub raw : List ℕ
  pub offset : ℕ

-- The unsigned numbers of two, four and eight bytes that `struct.unpack` reads.
unfoldable pub half : Endian → List ℕ → ℕ
half little (a ∷ b ∷ _) = b * 256 + a
half big (a ∷ b ∷ _) = a * 256 + b
half order _ = 0

unfoldable pub word : Endian → List ℕ → ℕ
unfolding unpack
word big bytes = unpack bytes
word little (a ∷ b ∷ c ∷ d ∷ _) = unpack (d ∷ c ∷ b ∷ a ∷ [])
word little _ = 0

unfoldable pub long : Endian → List ℕ → ℕ
unfolding word
long big bytes = word big bytes * 4294967296 + word big (drop 4 bytes)
long little bytes = word little (drop 4 bytes) * 4294967296 + word little bytes

-- `header[:4] == b"\x0a\x0d\x0d\x0a"`
unfoldable pub is_section : List ℕ → Bool
is_section (a ∷ b ∷ c ∷ d ∷ _) = a == 10 && b == 13 && c == 13 && d == 10
is_section _ = false

-- The order of bytes that a magic number shows.
unfoldable pub order_of : List ℕ → Option Endian
order_of (a ∷ b ∷ c ∷ d ∷ _) =
    if a == 77 && b == 60 && c == 43 && d == 26
    then some little
    else if a == 26 && b == 43 && c == 60 && d == 77
    then some big
    else none
order_of _ = none

-- `remaining not in (None, 0)`
abbrev pub is_unfinished : Option ℕ → Bool
is_unfinished none = false
is_unfinished (some n) = not (n == 0)

abbrev pub exceeds : ℕ → Option ℕ → Bool
exceeds size none = false
exceeds size (some n) = ltb n size

-- The order of bytes of the block: a section header's own, or that of its section.
unfoldable pub block_order : List ℕ → Option Endian → Option ℕ → Result Endian
unfolding is_section order_of
block_order bytes now remaining =
    if is_section bytes
    then (if is_unfinished remaining
        then value_error "Section header before declared section end"
        else if ltb (length bytes) 12
        then value_error "Truncated pcapng block"
        else elim (order_of (drop 8 bytes)) [
          | none ↦ value_error "Invalid pcapng byte-order magic"
          | some order ↦ ok order
        ])
    else elim now [
      | none ↦ value_error "Input must begin with a pcapng section header"
      | some order ↦ ok order
    ]

-- The checks of the length, and the whole block.
unfoldable pub read_block : ℕ → Bool → Option ℕ → Endian → ℕ → List ℕ → Result (List ℕ)
unfolding word
read_block max section remaining order size bytes =
    if ltb size (if section then 28 else 12) || not (size % 4 == 0) || ltb max size
    then value_error "Invalid/oversized pcapng block length"
    else if not section && exceeds size remaining
    then value_error "Block exceeds declared pcapng section length"
    else if ltb (length bytes) size
    then value_error "Truncated pcapng block"
    else if not (word order (drop (size - 4) (take size bytes)) == size)
    then value_error "Mismatched pcapng block lengths"
    else ok (take size bytes)

-- What is left of the section's declared length after the block. A declared length is signed, and -1
-- where there is none.
unfoldable pub left_of : Bool → Option ℕ → Endian → List ℕ → Result (Option ℕ)
unfolding half long
left_of false none order raw = ok none
left_of false (some n) order raw = ok (some (n - length raw))
left_of true remaining order raw =
    let declared = long order (drop 16 raw) in
    if not (half order (drop 12 raw) == 1 && half order (drop 14 raw) == 0)
    then value_error "Unsupported pcapng version"
    else if declared == 18446744073709551615
    then ok none
    else if leb 9223372036854775808 declared || not (declared % 4 == 0)
    then value_error "Invalid declared pcapng section length"
    else ok (some declared)

-- One round of the loop on bytes that are not at their end.
unfoldable pub next_block : ℕ → List ℕ → Option Endian → ℕ → Option ℕ → Result (Block × Option ℕ)
unfolding block_order read_block left_of
next_block max bytes now offset remaining =
    if ltb (length bytes) 8 then value_error "Truncated pcapng block" else do
      order ← block_order bytes now remaining
      raw ← read_block max (is_section bytes) remaining order (word order (drop 4 bytes)) bytes
      left ← left_of (is_section bytes) remaining order raw
      ok (record { kind = word order bytes; endian = order; raw = raw; offset = offset }, left)

-- How the iteration ends; it is `unfinished` only where the fuel was too little.
pub data Ending : Type 0 where
  returned : Ending
  raised : String → Ending
  unfinished : Ending

-- At the end of the stream.
unfoldable pub at_end : Option Endian → Option ℕ → Ending
at_end none remaining = raised "Missing pcapng section header"
at_end (some order) remaining =
    if is_unfinished remaining then raised "Truncated declared pcapng section" else returned

-- The loop; every block takes a byte at least, so the number of bytes is enough fuel.
unfoldable pub iter_from : ℕ → ℕ → List ℕ → Option Endian → ℕ → Option ℕ → List Block × Ending
unfolding next_block at_end
iter_from fuel max [] now offset remaining = ([], at_end now remaining)
iter_from zero max (b ∷ bytes) now offset remaining = ([], unfinished)
iter_from (suc fuel) max (b ∷ bytes) now offset remaining =
    elim (next_block max (b ∷ bytes) now offset remaining) [
      | value_error m ↦ ([], raised m)
      | ok next ↦
          let (block, left) = next in
          let size = length block.raw in
          let (blocks, ending) =
            iter_from fuel max (drop size (b ∷ bytes)) (some block.endian) (offset + size) left in
          (block ∷ blocks, ending)
    ]

unfoldable pub iter_blocks : ℕ → List ℕ → List Block × Ending
unfolding iter_from
iter_blocks max bytes =
    if ltb max 28
    then ([], raised "Block limit must be at least 28 bytes")
    else iter_from (length bytes) max bytes none 0 none

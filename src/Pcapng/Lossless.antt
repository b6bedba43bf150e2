-- ===== src/Pcapng/Lossless.antt =====
-- Nothing of a stream is lost or changed on the way through its blocks.
use mathlib.Core.Path.{subst}
use mathlib.Core.List.{append_assoc}
use wlanpi_utilization.Prelude.{
  ℕ, zero, suc, ◌+◌, ◌-◌, ◌%◌, ◌≤◌, ltb, ◌==◌, ◌≡◌, ◌≢◌, refl, sym, ap, ◌∙◌, inl, inr, Bool, true,
  false, not, ◌&&◌, ◌||◌, Option, none, some, List, [], ◌∷◌, ◌++◌, length, take, drop, length-take,
  length-drop, take-append-drop, String, Result, ok, value_error, bind-ok, ok_injective,
  Result-cases, Bool-cases, arith, if◌then◌else◌,
}
use wlanpi_utilization.Pcapng.{
  Endian, Block, word, is_section, exceeds, block_order, read_block, left_of, next_block, Ending,
  returned, unfinished, at_end, iter_from, iter_blocks,
}

-- A block that is whole: its length is bounded, a multiple of four, and repeated in its last word.
pub record IsWhole (max : ℕ) (b : Block) : Type 0 where
  pub at_least : 12 ≤ length b.raw
  pub at_most : length b.raw ≤ max
  pub aligned : length b.raw % 4 ≡ 0
  pub repeated : word b.endian (drop (length b.raw - 4) b.raw) ≡ length b.raw

-- The bytes of blocks, and the blocks that start at an offset and follow each other.
abbrev pub bytes_of : List Block → List ℕ
bytes_of [] = []
bytes_of (b ∷ bs) = b.raw ++ bytes_of bs

abbrev pub AreWhole : ℕ → ℕ → List Block → Type 0
AreWhole max offset [] = Unit
AreWhole max offset (b ∷ bs) =
    IsWhole max b × (b.offset ≡ offset) × AreWhole max (offset + length b.raw) bs

-- A check that did not raise.
passed :
    {A : Type 0} (c : Bool) (m : String) (x : Result A) {a : A}
    → (if c then value_error m else x) ≡ ok a
    → (c ≡ false) × (x ≡ ok a)
passed true m x e = absurd (cc)
passed false m x e = (refl, e)

least : (section : Bool) → 12 ≤ (if section then 28 else 12)
least true = omega arith
least false = omega arith

read_block-raw :
    (max : ℕ) (section : Bool) (remaining : Option ℕ) (order : Endian) (size : ℕ)
    (bytes raw : List ℕ)
    → read_block max section remaining order size bytes ≡ ok raw
    → (raw ≡ take size bytes)
      × (size ≤ length bytes)
      × (12 ≤ size)
      × (size ≤ max)
      × (size % 4 ≡ 0)
      × (word order (drop (size - 4) (take size bytes)) ≡ size)
unfolding read_block
read_block-raw max section remaining order size bytes raw e =
    let (a, e1) =
      passed (ltb size (if section then 28 else 12) || not (size % 4 == 0) || ltb max size)
        "Invalid/oversized pcapng block length" _ e in
    let (b, e2) =
      passed (not section && exceeds size remaining) "Block exceeds declared pcapng section length"
        _ e1 in
    let (c, e3) = passed (ltb (length bytes) size) "Truncated pcapng block" _ e2 in
    let (d, e4) =
      passed (not (word order (drop (size - 4) (take size bytes)) == size))
        "Mismatched pcapng block lengths" _ e3 in
    let bound = least section in
    (sym (ok_injective e4), ground arith, ground arith, ground arith, ground arith, ground arith)

-- What a round gives: a block that is whole, at its offset, and taken from the front of the bytes.
record IsNext (max : ℕ) (bytes : List ℕ) (offset : ℕ) (b : Block) : Type 0 where
  whole : IsWhole max b
  placed : b.offset ≡ offset
  front : b.raw ++ drop (length b.raw) bytes ≡ bytes

next_block-IsNext :
    (max : ℕ) (bytes : List ℕ) (now : Option Endian) (offset : ℕ) (remaining : Option ℕ) (b : Block)
    (left : Option ℕ)
    → next_block max bytes now offset remaining ≡ ok (b, left)
    → IsNext max bytes offset b
unfolding next_block
next_block-IsNext max bytes now offset remaining b left e =
    let (long, e1) = passed (ltb (length bytes) 8) "Truncated pcapng block" _ e in
    let (order, o, e2) = bind-ok (block_order bytes now remaining) _ e1 in
    let size = word order (drop 4 bytes) in
    let (raw, r, e3) =
      bind-ok (read_block max (is_section bytes) remaining order size bytes) _ e2 in
    let (left', l, e4) = bind-ok (left_of (is_section bytes) remaining order raw) _ e3 in
    let (taken, there, least, most, aligned, again) =
      read_block-raw max (is_section bytes) remaining order size bytes raw r in
    let same : length raw ≡ size = omega (arith, ap length taken, length-take size bytes, there) in
    let repeated : word order (drop (size - 4) raw) ≡ size =
      ap (λ x. word order (drop (size - 4) x)) taken ∙ again in
    let front : raw ++ drop size bytes ≡ bytes =
      ap (λ x. x ++ drop size bytes) taken ∙ take-append-drop size bytes in
    subst (IsNext max bytes offset) (ap (λ x. x.0) (ok_injective e4)) (record {
      whole = record {
        at_least = omega (arith, same, least);
        at_most = omega (arith, same, most);
        aligned = rw same aligned;
        repeated = rw same repeated;
      };
      placed = refl;
      front = rw same front;
    })

-- What an iteration from an offset gives.
record IsRead (max offset : ℕ) (bytes : List ℕ) (x : List Block × Ending) : Type 0 where
  finished : x.1 ≢ unfinished
  whole : AreWhole max offset x.0
  front : (rest : List ℕ) × (bytes_of x.0 ++ rest ≡ bytes) × (x.1 ≡ returned → rest ≡ [])

at_end-finished : (now : Option Endian) (remaining : Option ℕ) → at_end now remaining ≢ unfinished
unfolding at_end
at_end-finished none remaining e = absurd (cc)
at_end-finished (some order) none e = absurd (cc)
at_end-finished (some order) (some n) e = ground arith

-- A block in front of what is read after it.
one_more :
    (max offset : ℕ) (bytes : List ℕ) (b : Block) (x : List Block × Ending)
    → IsNext max bytes offset b
    → IsRead max (offset + length b.raw) (drop (length b.raw) bytes) x
    → IsRead max offset bytes (b ∷ x.0, x.1)
one_more max offset bytes b x n r =
    let (rest, e, f) = r.front in
    record {
      finished = r.finished;
      whole = (n.whole, n.placed, r.whole);
      front = (rest, append_assoc b.raw (bytes_of x.0) rest ∙ ap (◌++◌ b.raw) e ∙ n.front, f);
    }

iter_from-IsRead :
    (fuel max : ℕ) (bytes : List ℕ) (now : Option Endian) (offset : ℕ) (remaining : Option ℕ)
    → length bytes ≤ fuel
    → IsRead max offset bytes (iter_from fuel max bytes now offset remaining)
unfolding iter_from
iter_from-IsRead zero max [] now offset remaining h = record {
  finished = at_end-finished now remaining;
  whole = tt;
  front = ([], refl, λ e. refl);
}
iter_from-IsRead (suc fuel) max [] now offset remaining h = record {
  finished = at_end-finished now remaining;
  whole = tt;
  front = ([], refl, λ e. refl);
}
iter_from-IsRead zero max (b ∷ bytes) now offset remaining h = absurd (omega arith)
iter_from-IsRead (suc fuel) max (b ∷ bytes) now offset remaining h =
    elim (Result-cases (next_block max (b ∷ bytes) now offset remaining)) [
      | inl (m, e) ↦
          rw (iter_from, e)
            (record {
              finished = λ q. absurd (cc);
              whole = tt;
              front = (b ∷ bytes, refl, λ q. absurd (cc));
            })
      | inr ((block, left), e) ↦
          let next = next_block-IsNext max (b ∷ bytes) now offset remaining block left e in
          let fewer : length (drop (length block.raw) (b ∷ bytes)) ≤ fuel =
            omega (arith, length-drop (length block.raw) (b ∷ bytes), next.whole.at_least, h) in
          rw (iter_from, e)
            (one_more max offset (b ∷ bytes) block _ next (
              iter_from-IsRead fuel max (drop (length block.raw) (b ∷ bytes)) (some block.endian)
                (offset + length block.raw) left fewer))
    ]

-- The iteration always ends, by itself or with an error. The blocks that it yields are the front of
-- the stream, byte for byte, in their order and at their offsets, and the whole stream if it ends
-- without an error; each is within the limit, a multiple of four bytes long, at least twelve, and
-- repeats its length at its end.
pub iter_blocks-bytes_of :
    (max : ℕ) (bytes : List ℕ)
    → ((iter_blocks max bytes).1 ≢ unfinished)
      × AreWhole max 0 (iter_blocks max bytes).0
      × ((rest : List ℕ) × (bytes_of (iter_blocks max bytes).0 ++ rest ≡ bytes)
          × ((iter_blocks max bytes).1 ≡ returned → rest ≡ []))
unfolding iter_blocks
iter_blocks-bytes_of max bytes = elim (Bool-cases (ltb max 28)) [
  | inl c ↦ rw c (λ e. absurd (cc), tt, (bytes, refl, λ e. absurd (cc)))
  | inr c ↦
      let r = iter_from-IsRead (length bytes) max bytes none 0 none (omega arith) in
      rw c (r.finished, r.whole, r.front)
]

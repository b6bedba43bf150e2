-- ===== src/Ipc/Draining.antt =====
-- What `drain` takes from a part of the bytes of some messages.
use Prim.Native.Nat.{◌≤◌}
use mathlib.Core.List.{append-nil, append_assoc}
use wlanpi_utilization.Prelude.{
  ℕ, zero, suc, ◌+◌, ◌<◌, ◌≡◌, refl, sym, ap, ◌∙◌, inl, inr, true, false, List, [], ◌∷◌, ◌++◌,
  length, length-append, take, drop, ltb, ◌==◌, ◌||◌, ltb→lt, Bool-cases, ok, arith,
}
use wlanpi_utilization.Ipc.Wire.{Python, Fields, to_wire_fields}
use wlanpi_utilization.Ipc.Channel.{max_message_bytes, Json, unpack, framed, decode, drain}
use wlanpi_utilization.Ipc.Frames.{
  JsonLaws, Framed, no_frames, frame, IsFrame, encode-IsFrame, decode-payload, frame-length,
  frame-header, frame-payload, take-part, drop_whole, split_later,
}

module _ {P : Python} (J : Json P) (laws : JsonLaws J) where
  drain-frame :
      (message : Fields P) (bytes p : List ℕ) (fuel : ℕ) (got : List (Fields P))
      → IsFrame J laws message bytes
      → drain J (suc fuel) (bytes ++ p) got ≡ drain J fuel p (got ++ to_wire_fields message ∷ [])
  unfolding drain
  drain-frame message bytes p fuel got f =
      let size = length f.payload in
      let long : length (bytes ++ p) ≡ size + 4 + length p =
        omega (arith, length-append bytes p, frame-length J laws f) in
      let enough : ltb (length (bytes ++ p)) 4 ≡ false = ground arith in
      let fits : (size == 0 || ltb max_message_bytes size) ≡ false =
        ground (arith, f.small, f.some_byte) in
      let all_there : ltb (length (bytes ++ p)) (size + 4) ≡ false = ground arith in
      let read : decode J f.payload ≡ ok (to_wire_fields message) =
        decode-payload J laws message f.payload f.written in
      let gone : drop (size + 4) (bytes ++ p) ≡ p =
        ap (λ k. drop k (bytes ++ p)) (sym (frame-length J laws f)) ∙ drop_whole bytes p in
      rw
        (
          enough,
          frame-header J laws f p,
          fits,
          all_there,
          frame-payload J laws f p,
          read,
          frame-header J laws f p,
          gone,
        )
        refl

  drain-short :
      (message : Fields P) (bytes p rest later : List ℕ) (fuel : ℕ) (got : List (Fields P))
      → IsFrame J laws message bytes
      → p ++ rest ≡ bytes ++ later
      → length p < length bytes
      → drain J (suc fuel) p got ≡ (ok got, p)
  unfolding drain
  drain-short message bytes p rest later fuel got f e h = elim (Bool-cases (ltb (length p) 4)) [
    | inl c ↦ rw c refl
    | inr c ↦
        let size = length f.payload in
        let header : unpack (take 4 p) ≡ size =
          ap unpack (sym (take-part 4 p rest (ground arith)) ∙ ap (take 4) e)
          ∙ frame-header J laws f later in
        let fits : (size == 0 || ltb max_message_bytes size) ≡ false =
          ground (arith, f.small, f.some_byte) in
        let missing : ltb (length p) (size + 4) ≡ true = ground (arith, frame-length J laws f) in
        rw (c, header, fits, missing) refl
  ]

  -- What `drain` does with a first part `p` of the bytes of some messages.
  pub record Taken (ms : List (Fields P)) (p rest : List ℕ) (fuel : ℕ) (before : List (Fields P))
      : Type 0 where
    pub got : List (Fields P)
    pub left : List (Fields P)
    pub kept : List ℕ
    pub later : List ℕ
    pub ran : drain J fuel p before ≡ (ok (before ++ got), kept)
    pub split : ms ≡ got ++ left
    pub framed : Framed J left later
    pub joined : kept ++ rest ≡ later
    pub settled : rest ≡ [] → left ≡ []

  pub no_bytes : (ms : List (Fields P)) (bytes : List ℕ) → Framed J ms bytes → bytes ≡ [] → ms ≡ []
  no_bytes _ _ no_frames e = refl
  no_bytes _ _ (frame message bytes ms rest encoded framed) e =
      let f = encode-IsFrame J laws message bytes encoded in
      absurd (omega (arith, frame-length J laws f, length-append bytes rest, ap length e))

  append_empty : (xs ys : List ℕ) → xs ++ ys ≡ [] → xs ≡ []
  append_empty [] ys e = refl
  append_empty (x ∷ xs) ys e = absurd (cc)

  untouched :
      {ms : List (Fields P)} {bytes p rest : List ℕ} {fuel : ℕ} {before : List (Fields P)}
      → drain J fuel p before ≡ (ok before, p)
      → Framed J ms bytes
      → p ++ rest ≡ bytes
      → (rest ≡ [] → ms ≡ [])
      → Taken ms p rest fuel before
  untouched {ms} {bytes} {p} {rest} {fuel} {before} stays framed e settled = record {
    got = [];
    left = ms;
    kept = p;
    later = bytes;
    ran = rw (append-nil before) stays;
    split = refl;
    framed = framed;
    joined = e;
    settled = settled;
  }

  first_out :
      {message : Fields P} {ms : List (Fields P)} {bytes p rest : List ℕ} {fuel : ℕ}
      {before : List (Fields P)}
      → IsFrame J laws message bytes
      → Taken ms p rest fuel (before ++ to_wire_fields message ∷ [])
      → Taken (to_wire_fields message ∷ ms) (bytes ++ p) rest (suc fuel) before
  first_out {message} {ms} {bytes} {p} {rest} {fuel} {before} f t = record {
    got = to_wire_fields message ∷ t.got;
    left = t.left;
    kept = t.kept;
    later = t.later;
    ran =
        drain-frame message bytes p fuel before f
        ∙ t.ran
        ∙ ap (λ l. (ok l, t.kept)) (append_assoc before (to_wire_fields message ∷ []) t.got);
    split = ap (λ l. to_wire_fields message ∷ l) t.split;
    framed = t.framed;
    joined = t.joined;
    settled = t.settled;
  }

  pub drain-Taken :
      (ms : List (Fields P)) (bytes : List ℕ)
      → Framed J ms bytes
      → (p rest : List ℕ) (fuel : ℕ) (before : List (Fields P)) → p ++ rest ≡ bytes
      → length p ≤ fuel
      → Taken ms p rest fuel before
  unfolding drain
  drain-Taken ms bytes framed [] rest zero before e h =
      untouched refl framed e (λ r. no_bytes ms bytes framed (sym e ∙ r))
  drain-Taken ms bytes framed (x ∷ p) rest zero before e h = absurd (omega arith)
  drain-Taken _ _ no_frames p rest (suc fuel) before e h =
      let nil : p ≡ [] = append_empty p rest e in untouched (rw nil refl) no_frames e (λ r. refl)
  drain-Taken _ _ (frame message bytes ms more encoded framed) p rest (suc fuel) before e h =
      let f = encode-IsFrame J laws message bytes encoded in
      elim (Bool-cases (ltb (length p) (length bytes))) [
        | inl c ↦
            untouched (drain-short message bytes p rest more fuel before f e (ltb→lt _ _ c))
              (frame message bytes ms more encoded framed) e
              (λ r. absurd (
                omega (
                  arith,
                  ltb→lt _ _ c,
                  length-append p rest,
                  length-append bytes more,
                  ap length e,
                  ap length r,
                )))
        | inr c ↦
            let (p', q, r) = split_later bytes more p rest e (ground arith) in
            let shorter : length p' ≤ fuel =
              omega (
                arith,
                ap length q,
                length-append bytes p',
                frame-length J laws f,
                f.some_byte,
                h,
              ) in
            rw q (
              first_out f (
                drain-Taken ms more framed p' rest fuel (before ++ to_wire_fields message ∷ []) r
                  shorter))
      ]

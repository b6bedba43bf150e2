-- ===== src/Ipc/Frames.antt =====
-- The bytes of a sequence of messages.
use Prim.Native.Nat.{◌≤◌}
use mathlib.Core.List.{append_assoc}
use wlanpi_utilization.Prelude.{
  ℕ, zero, suc, ◌+◌, ◌<◌, ◌≡◌, ◌≢◌, refl, inl, inr, List, [], ◌∷◌, ◌++◌, length, take, drop, ltb,
  Bool-cases, ok, bind-ok, arith,
}
use wlanpi_utilization.Ipc.Wire.{Python, Value, object, Fields, to_wire, to_wire_fields}
use wlanpi_utilization.Ipc.Channel.{max_message_bytes, Json, pack, unpack, framed, encode, decode}

-- `loads` gives back the plain data that `dumps` wrote, and refuses the empty text. `dumps` is asked
-- only about what `to_wire` gives, which holds no tuple, no path and no member of an enumeration.
pub record JsonLaws {P : Python} (J : Json P) : Type 0 where
  pub loads-dumps :
      (v : Value P) (payload : List ℕ)
      → J.dumps (to_wire v) ≡ ok payload
      → J.loads payload ≡ ok (to_wire v)
  pub loads_of_nothing : (v : Value P) → J.loads [] ≢ ok v

unpack-pack : (n : ℕ) (rest : List ℕ) → n ≤ max_message_bytes → unpack (take 4 (pack n ++ rest)) ≡ n
unfolding unpack pack
unpack-pack n rest h = omega arith

module _ {ℓ} {A : Type ℓ} where
  pub take-part : (k : ℕ) (p rest : List A) → k ≤ length p → take k (p ++ rest) ≡ take k p
  take-part zero p rest h = refl
  take-part (suc k) [] rest h = absurd (omega arith)
  take-part (suc k) (x ∷ p) rest h = rw (take-part k p rest (omega arith)) refl

  pub take_whole : (xs ys : List A) → take (length xs) (xs ++ ys) ≡ xs
  take_whole [] ys = refl
  take_whole (x ∷ xs) ys = rw (take_whole xs ys) refl

  pub drop_whole : (xs ys : List A) → drop (length xs) (xs ++ ys) ≡ ys
  drop_whole [] ys = refl
  drop_whole (x ∷ xs) ys = drop_whole xs ys

  -- Of two ways to split a list, the one that splits later holds the other's first part.
  pub split_later :
      (xs ys p rest : List A)
      → p ++ rest ≡ xs ++ ys
      → length xs ≤ length p
      → (p' : List A) × (p ≡ xs ++ p') × (p' ++ rest ≡ ys)
  split_later [] ys p rest e h = (p, refl, e)
  split_later (x ∷ xs) ys [] rest e h = absurd (omega arith)
  split_later (x ∷ xs) ys (y ∷ p) rest e h =
      let same : y ≡ x = cc in
      let (p', q, r) = split_later xs ys p rest (cons_tail e) (omega arith) in (p', cc, r)
    where
      cons_tail : {a b : A} {us vs : List A} → a ∷ us ≡ b ∷ vs → us ≡ vs
      cons_tail e = cc

pub framed-shape :
    (payload bytes : List ℕ)
    → framed payload ≡ ok bytes
    → (length payload ≤ max_message_bytes) × (bytes ≡ pack (length payload) ++ payload)
unfolding framed
framed-shape payload bytes e = elim (Bool-cases (ltb max_message_bytes (length payload))) [
  | inl c ↦ absurd (cc)
  | inr c ↦
      let e' : ok (pack (length payload) ++ payload) ≡ ok bytes = rw c at e in (ground arith, cc)
]

module _ {P : Python} (J : Json P) where
  -- The bytes that are sent for a sequence of messages, each of which comes out as plain data.
  pub data Framed : List (Fields P) → List ℕ → Type 0 where
    no_frames : Framed [] []
    frame :
        (message : Fields P) (bytes : List ℕ) (ms : List (Fields P)) (rest : List ℕ)
        → encode J message ≡ ok bytes
        → Framed ms rest
        → Framed (to_wire_fields message ∷ ms) (bytes ++ rest)

  module _ (laws : JsonLaws J) where
    -- The parts of an encoded message.
    pub record IsFrame (message : Fields P) (bytes : List ℕ) : Type 0 where
      pub payload : List ℕ
      pub written : J.dumps (to_wire (object message)) ≡ ok payload
      pub shape : bytes ≡ pack (length payload) ++ payload
      pub small : length payload ≤ max_message_bytes
      pub some_byte : 0 < length payload

    written_some :
        (v : Value P) (payload : List ℕ) → J.dumps (to_wire v) ≡ ok payload → 0 < length payload
    written_some v [] w = absurd (laws.loads_of_nothing (to_wire v) (laws.loads-dumps v [] w))
    written_some v (b ∷ bs) w = omega arith

    pub encode-IsFrame :
        (message : Fields P) (bytes : List ℕ) → encode J message ≡ ok bytes → IsFrame message bytes
    unfolding encode
    encode-IsFrame message bytes e =
        let (payload, written, q) = bind-ok (J.dumps (to_wire (object message))) framed e in
        let (small, shape) = framed-shape payload bytes q in
        record {
          payload = payload;
          written = written;
          shape = shape;
          small = small;
          some_byte = written_some (object message) payload written;
        }

    -- The payload of a frame is read back.
    pub decode-payload :
        (message : Fields P) (payload : List ℕ)
        → J.dumps (to_wire (object message)) ≡ ok payload
        → decode J payload ≡ ok (to_wire_fields message)
    unfolding decode to_wire
    decode-payload message payload w = rw (laws.loads-dumps (object message) payload w) refl

    -- The length of a frame, and its header at the start of a buffer.
    pub frame-length :
        {message : Fields P} {bytes : List ℕ}
        → (f : IsFrame message bytes) → length bytes ≡ length f.payload + 4
    unfolding pack
    frame-length f = rw f.shape (omega arith)

    pub frame-header :
        {message : Fields P} {bytes : List ℕ} (f : IsFrame message bytes) (rest : List ℕ)
        → unpack (take 4 (bytes ++ rest)) ≡ length f.payload
    frame-header f rest =
        rw (f.shape, append_assoc (pack (length f.payload)) f.payload rest)
          (unpack-pack (length f.payload) (f.payload ++ rest) f.small)

    pub frame-payload :
        {message : Fields P} {bytes : List ℕ} (f : IsFrame message bytes) (rest : List ℕ)
        → take (length f.payload) (drop 4 (bytes ++ rest)) ≡ f.payload
    unfolding pack
    frame-payload f rest = rw f.shape (take_whole f.payload rest)

-- ===== src/Ipc/Sending.antt =====
-- What a sender puts on the wire, whatever the pieces that the socket takes.
use mathlib.Core.List.{append-nil, append_assoc}
use wlanpi_utilization.Prelude.{
  ℕ, zero, suc, ◌+◌, ◌-◌, ◌<◌, ◌≤◌, ◌==◌, ==_iff, ◌≡◌, refl, sym, ap, ◌∙◌, ◌⊎◌, inl, inr, true,
  false, ◌||◌, some, List, [], ◌∷◌, ◌++◌, map, length, take, drop, Bool-cases, ok, bind-ok,
  length-append, arith, if◌then◌else◌,
}
use wlanpi_utilization.Ipc.Wire.{Python, object, Fields, to_wire, to_wire_fields}
use wlanpi_utilization.Ipc.Channel.{
  Json, FramedSocket, opened, taken, is_empty, pack, framed, encode, queue, flush,
}
use wlanpi_utilization.Ipc.Frames.{Framed, no_frames, frame, framed-shape}

module _ {ℓ} {A : Type ℓ} where
  -- The first list is the second with elements left out.
  pub data Subsequence : List A → List A → Type ℓ where
    nothing : Subsequence [] []
    with_last :
        (xs ys : List A) (x : A) → Subsequence xs ys → Subsequence (xs ++ x ∷ []) (ys ++ x ∷ [])
    left_out : (xs ys : List A) (x : A) → Subsequence xs ys → Subsequence xs (ys ++ x ∷ [])

  -- It is, and the last element is not left out.
  pub data KeepsLast : List A → List A → Type ℓ where
    both_empty : KeepsLast [] []
    same_last :
        (xs ys : List A) (x : A) → Subsequence xs ys → KeepsLast (xs ++ x ∷ []) (ys ++ x ∷ [])

  pub KeepsLast-Subsequence : (xs ys : List A) → KeepsLast xs ys → Subsequence xs ys
  KeepsLast-Subsequence _ _ both_empty = nothing
  KeepsLast-Subsequence _ _ (same_last xs ys x s) = with_last xs ys x s

  take_nothing : (n : ℕ) → take {A = A} n [] ≡ []
  take_nothing zero = refl
  take_nothing (suc n) = refl

  pub drop_nothing : (n : ℕ) → drop {A = A} n [] ≡ []
  drop_nothing zero = refl
  drop_nothing (suc n) = refl

  take-more : (m n : ℕ) (xs : List A) → take m xs ++ take n (drop m xs) ≡ take (m + n) xs
  take-more zero n xs = let same : n ≡ 0 + n = omega arith in ap (λ k. take k xs) same
  take-more (suc m) zero [] = sym (take_nothing (suc m + zero))
  take-more (suc m) (suc n) [] = sym (take_nothing (suc m + suc n))
  take-more (suc m) n (x ∷ xs) =
      let next : suc (m + n) ≡ suc m + n = omega arith in
      ap (λ l. x ∷ l) (take-more m n xs) ∙ ap (λ k. take k (x ∷ xs)) next

  take_all : (xs : List A) → take (length xs) xs ≡ xs
  take_all [] = refl
  take_all (x ∷ xs) = rw (take_all xs) refl

pub List-cases {ℓ} : {A : Type ℓ} (xs : List A) → (xs ≡ []) ⊎ (0 < length xs)
List-cases [] = inl refl
List-cases (x ∷ xs) = inr (omega arith)

not_empty : (bytes : List ℕ) → 0 < length bytes → is_empty bytes ≡ false
not_empty [] h = absurd (omega arith)
not_empty (b ∷ bs) h = refl

pack-length : (n : ℕ) → length (pack n) ≡ 4
unfolding pack
pack-length n = omega arith

module _ {P : Python} (J : Json P) where
  -- A channel after some calls, with the bytes that went out and the messages that were queued. A
  -- `send` takes at most the bytes that it is offered; a call that raises changes nothing.
  pub data Reached : FramedSocket → List ℕ → List (Fields P) → Type 0 where
    starts : Reached opened [] []
    queues :
        (s s' : FramedSocket) (wire : List ℕ) (queued : List (Fields P)) (message : Fields P)
        → Reached s wire queued
        → queue J s message ≡ ok s'
        → Reached s' wire (queued ++ message ∷ [])
    flushes :
        (s s' : FramedSocket) (wire out : List ℕ) (queued : List (Fields P)) (count : ℕ)
        → Reached s wire queued
        → count ≤ length s.output - s.offset
        → flush s (taken count) ≡ some (s', out)
        → Reached s' (wire ++ out) queued

  abbrev pub plain : List (Fields P) → List (Fields P)
  plain = map to_wire_fields

  pub Framed-append :
      (ms : List (Fields P)) (bytes : List ℕ)
      → Framed J ms bytes
      → (message : Fields P) (more : List ℕ) → encode J message ≡ ok more
      → Framed J (ms ++ to_wire_fields message ∷ []) (bytes ++ more)
  Framed-append _ _ no_frames message more e =
      rw (sym (append-nil more)) (frame message more [] [] e no_frames)
  Framed-append _ _ (frame m bs ms rest e' f) message more e =
      rw (append_assoc bs rest more) (frame m bs _ _ e' (Framed-append ms rest f message more e))

  -- Where the channel stands: all is sent, a frame is being sent, or one more is to follow.
  pub data IsSending (s : FramedSocket) (wire : List ℕ) (queued : List (Fields P)) : Type 0 where
    all_sent :
        (sent : List (Fields P))
        → s.output ≡ []
        → s.next_output ≡ []
        → Framed J (plain sent) wire
        → KeepsLast sent queued
        → IsSending s wire queued
    sends_last :
        (sent before : List (Fields P)) (message : Fields P) (done : List ℕ)
        → encode J message ≡ ok s.output
        → s.offset < length s.output
        → s.next_output ≡ []
        → Framed J (plain sent) done
        → wire ≡ done ++ take s.offset s.output
        → Subsequence sent before
        → queued ≡ before ++ message ∷ []
        → IsSending s wire queued
    sends_one_more :
        (sent before : List (Fields P)) (message next : Fields P) (done : List ℕ)
        → encode J message ≡ ok s.output
        → 0 < s.offset
        → s.offset < length s.output
        → encode J next ≡ ok s.next_output
        → Framed J (plain sent) done
        → wire ≡ done ++ take s.offset s.output
        → Subsequence (sent ++ message ∷ []) before
        → queued ≡ before ++ next ∷ []
        → IsSending s wire queued

  plain-append :
      (ms : List (Fields P)) (m : Fields P)
      → plain (ms ++ m ∷ []) ≡ plain ms ++ to_wire_fields m ∷ []
  plain-append [] m = refl
  plain-append (x ∷ ms) m = ap (λ l. to_wire_fields x ∷ l) (plain-append ms m)

  pub next-Framed :
      (ms : List (Fields P)) (bytes : List ℕ) (m : Fields P) (more : List ℕ)
      → Framed J (plain ms) bytes
      → encode J m ≡ ok more
      → Framed J (plain (ms ++ m ∷ [])) (bytes ++ more)
  next-Framed ms bytes m more f e =
      rw (plain-append ms m) (Framed-append (plain ms) bytes f m more e)

  encode-some : (m : Fields P) (bytes : List ℕ) → encode J m ≡ ok bytes → 0 < length bytes
  unfolding encode
  encode-some m bytes e =
      let (payload, written, q) = bind-ok (J.dumps (to_wire (object m))) framed e in
      let (small, shape) = framed-shape payload bytes q in
      omega (
        arith,
        ap length shape,
        length-append (pack (length payload)) payload,
        pack-length (length payload),
      )

  -- The channel with a new message, and with `count` more bytes sent.
  pub with_message : FramedSocket → List ℕ → FramedSocket
  with_message s payload =
      if is_empty s.output || s.offset == 0
      then record s { output = payload; offset = 0 }
      else record s { next_output = payload }

  pub queue-with_message :
      (s s' : FramedSocket) (m : Fields P)
      → queue J s m ≡ ok s'
      → (payload : List ℕ) × (encode J m ≡ ok payload) × (s' ≡ with_message s payload)
  unfolding queue with_message
  queue-with_message s s' m e =
      let (payload, encoded, q) = bind-ok (encode J m) _ e in (payload, encoded, ground arith)

  pub sent_on : FramedSocket → ℕ → FramedSocket
  sent_on s count =
      if s.offset + count == length s.output
      then record s { output = s.next_output; next_output = []; offset = 0 }
      else record s { offset = s.offset + count }

  pub flush-sent_on :
      (s s' : FramedSocket) (count : ℕ) (out : List ℕ)
      → 0 < length s.output
      → flush s (taken count) ≡ some (s', out)
      → (0 < count) × (out ≡ take count (drop s.offset s.output)) × (s' ≡ sent_on s count)
  unfolding flush sent_on
  flush-sent_on s s' count out h e =
      let full = not_empty s.output h in (ground arith, ground arith, ground arith)

  pub queue-IsSending :
      (s : FramedSocket) (wire : List ℕ) (queued : List (Fields P)) (m : Fields P)
      (payload : List ℕ)
      → encode J m ≡ ok payload
      → IsSending s wire queued
      → IsSending (with_message s payload) wire (queued ++ m ∷ [])
  unfolding with_message
  queue-IsSending s wire queued m payload e (all_sent sent o n f k) =
      let empty : is_empty s.output ≡ true = rw o refl in
      rw empty (
        sends_last sent queued m wire e (encode-some m payload e) n f (sym (append-nil wire))
          (KeepsLast-Subsequence sent queued k) refl)
  queue-IsSending s wire queued m payload e
        (sends_last sent before message done e' lt n f w sub q) =
      let full = not_empty s.output (omega arith) in
      elim (Bool-cases (s.offset == 0)) [
        | inl c ↦
            let none_out : wire ≡ done ++ [] =
              w ∙ ap (λ k. done ++ take k s.output) ((==_iff s.offset 0).0 c) in
            rw (full, c)
              (sends_last sent queued m done e (encode-some m payload e) n f none_out
                (rw q (left_out sent before message sub)) refl)
        | inr c ↦
            rw (full, c)
              (sends_one_more sent queued message m done e' (ground arith) lt e f w
                (rw q (with_last sent before message sub)) refl)
      ]
  queue-IsSending s wire queued m payload e
        (sends_one_more sent before message next done e' pos lt e'' f w sub q) =
      let full = not_empty s.output (omega arith) in
      let begun : (s.offset == 0) ≡ false = ground arith in
      rw (full, begun)
        (sends_one_more sent queued message m done e' pos lt e f w
          (rw q (left_out _ before next sub)) refl)

  -- The bytes of a frame that is finished, and of one that is not.
  more_out :
      (s : FramedSocket) (wire done : List ℕ) (count : ℕ)
      → wire ≡ done ++ take s.offset s.output
      → wire ++ take count (drop s.offset s.output) ≡ done ++ take (s.offset + count) s.output
  more_out s wire done count w =
      ap (λ l. l ++ take count (drop s.offset s.output)) w
      ∙ append_assoc done (take s.offset s.output) _
      ∙ ap (◌++◌ done) (take-more s.offset count s.output)

  all_out :
      (s : FramedSocket) (wire done : List ℕ) (count : ℕ)
      → wire ≡ done ++ take s.offset s.output
      → s.offset + count ≡ length s.output
      → wire ++ take count (drop s.offset s.output) ≡ done ++ s.output
  all_out s wire done count w e =
      more_out s wire done count w
      ∙ ap (λ k. done ++ take k s.output) e
      ∙ ap (◌++◌ done) (take_all s.output)

  pub flush-IsSending :
      (s : FramedSocket) (wire : List ℕ) (queued : List (Fields P)) (count : ℕ)
      → 0 < count
      → count ≤ length s.output - s.offset
      → IsSending s wire queued
      → IsSending (sent_on s count) (wire ++ take count (drop s.offset s.output)) queued
  unfolding sent_on
  flush-IsSending s wire queued count some_out fits (all_sent sent o n f k) =
      absurd (omega (arith, ap length o))
  flush-IsSending s wire queued count some_out fits
        (sends_last sent before message done e lt n f w sub q) =
      elim (Bool-cases (s.offset + count == length s.output)) [
        | inl c ↦
            let whole = all_out s wire done count w ((==_iff _ _).0 c) in
            rw (c, whole, q)
              (all_sent (sent ++ message ∷ []) n refl (next-Framed sent done message s.output f e)
                (same_last sent before message sub))
        | inr c ↦
            rw (c, q)
              (sends_last sent before message done e (ground arith) n f
                (more_out s wire done count w) sub refl)
      ]
  flush-IsSending s wire queued count some_out fits
        (sends_one_more sent before message next done e pos lt e' f w sub q) =
      elim (Bool-cases (s.offset + count == length s.output)) [
        | inl c ↦
            let whole = all_out s wire done count w ((==_iff _ _).0 c) in
            rw (c, whole)
              (sends_last (sent ++ message ∷ []) before next (done ++ s.output) e'
                (encode-some next _ e') refl (next-Framed sent done message s.output f e)
                (sym (append-nil _)) sub q)
        | inr c ↦ rw c (
            sends_one_more sent before message next done e (omega arith) (ground arith) e' f
              (more_out s wire done count w) sub q)
      ]

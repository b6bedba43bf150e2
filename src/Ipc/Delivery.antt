-- ===== src/Ipc/Delivery.antt =====
-- What a receiver gets, whatever the pieces in which the bytes arrive.
use mathlib.Core.List.{append-nil, append_assoc}
use wlanpi_utilization.Prelude.{
  ℕ, zero, suc, ◌-◌, min, ◌≤◌, ◌≡◌, refl, sym, ap, ◌∙◌, Bool, true, false, not, ◌&&◌, List, [], ◌∷◌,
  ◌++◌, length, Result, ok, value_error, arith,
}
use wlanpi_utilization.Ipc.Wire.{Python, Fields}
use wlanpi_utilization.Ipc.Channel.{
  Json, FramedSocket, opened, Read, blocked, chunk, is_empty, check_rest, drain, receive_rounds,
  receive,
}
use wlanpi_utilization.Ipc.Frames.{JsonLaws, Framed, no_frames, frame}
use wlanpi_utilization.Ipc.Draining.{drain-Taken, no_bytes}

-- The bytes that arrive, and that no answer is the end of the stream.
unfoldable pub data_of : List Read → List ℕ
data_of [] = []
data_of (blocked ∷ reads) = data_of reads
data_of (chunk bs ∷ reads) = bs ++ data_of reads

abbrev pub stays_open : List Read → Bool
stays_open [] = true
stays_open (blocked ∷ reads) = stays_open reads
stays_open (chunk bs ∷ reads) = not (is_empty bs) && stays_open reads

module _ {P : Python} (J : Json P) where
  -- Calls of `receive`, until one raises, with the messages of all of them.
  unfoldable pub receive_calls :
      ℕ
      → FramedSocket
      → List Read
      → List (Fields P)
      → Result (List (Fields P)) × FramedSocket × List Read
  unfolding receive
  receive_calls zero s reads got = (ok got, s, reads)
  receive_calls (suc n) s reads got =
      let (result, s', left) = receive J s reads in
      elim result [
        | value_error m ↦ (value_error m, s', left)
        | ok messages ↦ receive_calls n s' left (got ++ messages)
      ]

  round_of_chunk :
      (n : ℕ) (s : FramedSocket) (b : ℕ) (bs : List ℕ) (reads : List Read)
      (before : List (Fields P)) {after : List (Fields P)} {kept : List ℕ}
      → drain J (length (s.buffer ++ b ∷ bs)) (s.buffer ++ b ∷ bs) before ≡ (ok after, kept)
      → receive_rounds J (suc n) s (chunk (b ∷ bs) ∷ reads) before
        ≡ receive_rounds J n (record s { buffer = kept }) reads after
  unfolding receive_rounds
  round_of_chunk n s b bs reads before e =
      ap
        (λ x. elim x.0 [
          | value_error m ↦ (value_error m, record s { buffer = x.1 }, reads)
          | ok messages ↦ receive_rounds J n (record s { buffer = x.1 }) reads messages
        ])
        e

  module _ (laws : JsonLaws J) where
    -- What some rounds of `receive` do, where the buffer and the data to come are the bytes of `ms`.
    record Received (ms : List (Fields P)) (n : ℕ) (s : FramedSocket) (reads : List Read)
        (before : List (Fields P)) : Type 0 where
      got : List (Fields P)
      left : List (Fields P)
      kept : List ℕ
      unread : List Read
      later : List ℕ
      ran :
          receive_rounds J n s reads before
          ≡ (ok (before ++ got), record s { buffer = kept }, unread)
      split : ms ≡ got ++ left
      framed : Framed J left later
      joined : kept ++ data_of unread ≡ later
      settled : data_of unread ≡ [] → left ≡ []
      open_still : stays_open unread ≡ true
      fewer : length unread ≤ length reads - min n 1

    idle_rounds :
        {ms : List (Fields P)} {bytes : List ℕ} {n : ℕ} {s : FramedSocket}
        {reads unread : List Read} {before : List (Fields P)}
        → receive_rounds J n s reads before ≡ (ok before, s, unread)
        → Framed J ms bytes
        → s.buffer ++ data_of unread ≡ bytes
        → (data_of unread ≡ [] → ms ≡ [])
        → stays_open unread ≡ true
        → length unread ≤ length reads - min n 1
        → Received ms n s reads before
    idle_rounds {ms} {bytes} {n} {s} {reads} {unread} {before} stays framed e settled open_still
          fewer =
        record {
          got = [];
          left = ms;
          kept = s.buffer;
          unread = unread;
          later = bytes;
          ran = rw (append-nil before) stays;
          split = refl;
          framed = framed;
          joined = e;
          settled = settled;
          open_still = open_still;
          fewer = fewer;
        }

    rounds-Received :
        (n : ℕ) (reads : List Read) (ms : List (Fields P)) (bytes : List ℕ) (s : FramedSocket)
        (before : List (Fields P))
        → Framed J ms bytes
        → s.buffer ++ data_of reads ≡ bytes
        → (data_of reads ≡ [] → ms ≡ [])
        → stays_open reads ≡ true
        → Received ms n s reads before
    unfolding receive_rounds data_of
    rounds-Received zero reads ms bytes s before framed e settled o =
        idle_rounds refl framed e settled o (omega arith)
    rounds-Received (suc n) [] ms bytes s before framed e settled o =
        idle_rounds refl framed e settled o (omega arith)
    rounds-Received (suc n) (blocked ∷ reads) ms bytes s before framed e settled o =
        idle_rounds refl framed e settled o (omega arith)
    rounds-Received (suc n) (chunk [] ∷ reads) ms bytes s before framed e settled o = absurd (cc)
    rounds-Received (suc n) (chunk (b ∷ bs) ∷ reads) ms bytes s before framed e settled o =
        let filled = s.buffer ++ b ∷ bs in
        let t =
          drain-Taken J laws ms bytes framed filled (data_of reads) (length filled) before
            (append_assoc s.buffer (b ∷ bs) (data_of reads) ∙ e) (omega arith) in
        let r =
          rounds-Received n reads t.left t.later (record s { buffer = t.kept }) (before ++ t.got)
            t.framed t.joined t.settled o in
        record {
          got = t.got ++ r.got;
          left = r.left;
          kept = r.kept;
          unread = r.unread;
          later = r.later;
          ran =
              round_of_chunk n s b bs reads before t.ran
              ∙ r.ran
              ∙ ap (λ l. (ok l, record s { buffer = r.kept }, r.unread))
                  (append_assoc before t.got r.got);
          split = t.split ∙ ap (◌++◌ t.got) r.split ∙ sym (append_assoc t.got r.got r.left);
          framed = r.framed;
          joined = r.joined;
          settled = r.settled;
          open_still = r.open_still;
          fewer = omega (arith, r.fewer);
        }

    -- One call and the calls after it.
    call-Received :
        (n : ℕ) (s : FramedSocket) (reads : List Read) (before : List (Fields P))
        {got : List (Fields P)} {kept : List ℕ} {unread : List Read}
        → s.eof ≡ false
        → receive_rounds J 4 s reads [] ≡ (ok got, record s { buffer = kept }, unread)
        → receive_calls (suc n) s reads before
          ≡ receive_calls n (record s { buffer = kept }) unread (before ++ got)
    unfolding receive_calls receive
    call-Received n s reads before {got} {kept} {unread} closed e =
        let after : FramedSocket = record s { buffer = kept } in
        let still : check_rest J (ok got, after, unread) ≡ (ok got, after, unread) =
          rw closed refl in
        ap
          (λ x. elim x.0 [
            | value_error m ↦ (value_error m, x.1, x.2)
            | ok messages ↦ receive_calls n x.1 x.2 (before ++ messages)
          ])
          (ap (check_rest J) e ∙ still)

    no_frames_left :
        (ms : List (Fields P)) (bytes : List ℕ) → Framed J ms bytes → ms ≡ [] → bytes ≡ []
    no_frames_left _ _ no_frames e = refl
    no_frames_left _ _ (frame message bytes ms rest encoded framed) e = absurd (cc)

    calls-deliver :
        (n : ℕ) (reads : List Read) (ms : List (Fields P)) (bytes : List ℕ) (s : FramedSocket)
        (before : List (Fields P))
        → Framed J ms bytes
        → s.buffer ++ data_of reads ≡ bytes
        → (data_of reads ≡ [] → ms ≡ [])
        → stays_open reads ≡ true
        → s.eof ≡ false
        → length reads ≤ n
        → receive_calls n s reads before ≡ (ok (before ++ ms), record s { buffer = [] }, [])
    unfolding receive_calls data_of
    calls-deliver zero [] ms bytes s before framed e settled o closed h =
        let none_left = settled refl in
        let empty : s.buffer ≡ [] =
          sym (append-nil s.buffer) ∙ e ∙ no_frames_left ms bytes framed none_left in
        rw (none_left, append-nil before) (ap (λ b. (ok before, record s { buffer = b }, [])) empty)
    calls-deliver zero (r ∷ reads) ms bytes s before framed e settled o closed h =
        absurd (omega arith)
    calls-deliver (suc n) reads ms bytes s before framed e settled o closed h =
        let r = rounds-Received 4 reads ms bytes s [] framed e settled o in
        call-Received n s reads before closed r.ran
        ∙ calls-deliver n r.unread r.left r.later (record s { buffer = r.kept }) (before ++ r.got)
            r.framed r.joined r.settled r.open_still closed (omega (arith, r.fewer))
        ∙ ap (λ l. (ok l, record s { buffer = [] }, []))
            (append_assoc before r.got r.left ∙ ap (◌++◌ before) (sym r.split))

    -- The bytes of a sequence of messages, however they are cut into chunks and wherever a read would
    -- block, are received as exactly these messages in their order, with nothing left over and no
    -- error, after as many calls of `receive` as there are answers of the socket: each call makes
    -- progress. The codec gives back what it wrote and refuses the empty text, and the stream stays
    -- open.
    pub receive_calls-delivers :
        (ms : List (Fields P)) (bytes : List ℕ) (reads : List Read) (n : ℕ)
        → Framed J ms bytes
        → stays_open reads ≡ true
        → data_of reads ≡ bytes
        → length reads ≤ n
        → receive_calls n opened reads [] ≡ (ok ms, opened, [])
    receive_calls-delivers ms bytes reads n framed o e h =
        calls-deliver n reads ms bytes opened [] framed e
          (λ nothing. no_bytes J laws ms bytes framed (sym e ∙ nothing)) o refl h

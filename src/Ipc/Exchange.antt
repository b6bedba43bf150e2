-- ===== src/Ipc/Exchange.antt =====
-- What a receiver gets of what a sender queues.
use mathlib.Core.List.{append-nil, append_assoc}
use wlanpi_utilization.Prelude.{
  ℕ, ◌≤◌, ◌≡◌, refl, ap, ◌∙◌, inl, inr, true, some, List, [], ◌∷◌, ◌++◌, map, length, take, drop,
  ok, take-append-drop, arith,
}
use wlanpi_utilization.Ipc.Wire.{Python, Fields, to_wire_fields}
use wlanpi_utilization.Ipc.Channel.{Json, FramedSocket, opened, Send, Read, taken, is_empty, flush}
use wlanpi_utilization.Ipc.Delivery.{data_of, stays_open, receive_calls, receive_calls-delivers}
use wlanpi_utilization.Ipc.Frames.{JsonLaws, Framed, no_frames}
use wlanpi_utilization.Ipc.Sending.{
  KeepsLast, both_empty, same_last, Reached, starts, queues, flushes, IsSending, all_sent,
  sends_last, sends_one_more, List-cases, drop_nothing, next-Framed, queue-with_message,
  flush-sent_on, queue-IsSending, flush-IsSending,
}

module _ {P : Python} (J : Json P) where
  flush_of_nothing :
      (s s' : FramedSocket) (answer : Send) (out : List ℕ)
      → s.output ≡ []
      → flush s answer ≡ some (s', out)
      → (s' ≡ s) × (out ≡ [])
  unfolding flush
  flush_of_nothing s s' answer out o e =
      let empty : is_empty s.output ≡ true = rw o refl in (ground arith, ground arith)

  Reached-IsSending :
      {s : FramedSocket} {wire : List ℕ} {queued : List (Fields P)}
      → Reached J s wire queued
      → IsSending J s wire queued
  Reached-IsSending starts = all_sent [] refl refl no_frames both_empty
  Reached-IsSending (queues s s' wire queued m r e) =
      let (payload, encoded, same) = queue-with_message J s s' m e in
      rw same (queue-IsSending J s wire queued m payload encoded (Reached-IsSending r))
  Reached-IsSending (flushes s s' wire out queued count r fits e) = elim (List-cases s.output) [
    | inl o ↦
        let (same, nothing_out) = flush_of_nothing s s' (taken count) out o e in
        rw (same, nothing_out, append-nil wire) (Reached-IsSending r)
    | inr long ↦
        let (some_out, what, same) = flush-sent_on J s s' count out long e in
        rw (same, what) (flush-IsSending J s wire queued count some_out fits (Reached-IsSending r))
  ]

  held :
      (s : FramedSocket) (wire done : List ℕ)
      → wire ≡ done ++ take s.offset s.output
      → wire ++ drop s.offset s.output ≡ done ++ s.output
  held s wire done w =
      ap (λ l. l ++ drop s.offset s.output) w
      ∙ append_assoc done (take s.offset s.output) (drop s.offset s.output)
      ∙ ap (◌++◌ done) (take-append-drop s.offset s.output)

  -- What is sent, with what the channel still holds, is at any time the frames of some messages that
  -- were queued, in their order and never a part of one, and the message that was queued last is one
  -- of them.
  pub Reached-Framed :
      (s : FramedSocket) (wire : List ℕ) (queued : List (Fields P))
      → Reached J s wire queued
      → (ms : List (Fields P)) × KeepsLast ms queued
        × Framed J (map to_wire_fields ms) (wire ++ drop s.offset s.output ++ s.next_output)
  Reached-Framed s wire queued r = elim (Reached-IsSending r) [
    | all_sent sent o n f k ↦
        (sent, k, rw (o, n) (rw (drop_nothing s.offset, append-nil wire, append-nil wire) f))
    | sends_last sent before message done e lt n f w sub q ↦ (
      sent ++ message ∷ [],
      rw q (same_last sent before message sub),
      rw (held s wire done w, n, append-nil (done ++ s.output))
          (next-Framed J sent done message s.output f e),
    )
    | sends_one_more sent before message next done e pos lt e' f w sub q ↦ (
      sent ++ message ∷ [] ++ next ∷ [],
      rw q (same_last _ before next sub),
      rw (held s wire done w)
          (next-Framed J _ _ next s.next_output (next-Framed J sent done message s.output f e) e'),
    )
  ]

  -- Once a sender holds no more output, a receiver that gets its bytes, in whatever pieces, has
  -- received exactly the plain data of messages that were queued, in their order and each whole, and
  -- the last message that was queued is among them. The codec gives back the plain data that it wrote
  -- and refuses the empty text, and the stream stays open.
  pub receive_calls-queue :
      (laws : JsonLaws J) (s : FramedSocket) (wire : List ℕ) (queued : List (Fields P))
      (reads : List Read) (n : ℕ)
      → Reached J s wire queued
      → s.output ≡ []
      → s.next_output ≡ []
      → stays_open reads ≡ true
      → data_of reads ≡ wire
      → length reads ≤ n
      → (ms : List (Fields P)) × KeepsLast ms queued
        × (receive_calls J n opened reads [] ≡ (ok (map to_wire_fields ms), opened, []))
  receive_calls-queue laws s wire queued reads n r o o' still e h =
      let (ms, k, f) = Reached-Framed s wire queued r in
      let all_bytes : wire ++ drop s.offset s.output ++ s.next_output ≡ wire =
        rw (o, o') (rw (drop_nothing s.offset, append-nil wire, append-nil wire) refl) in
      let f' = rw all_bytes at f in
      (ms, k, receive_calls-delivers J laws (map to_wire_fields ms) wire reads n f' still e h)

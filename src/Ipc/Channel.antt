-- ===== src/Ipc/Channel.antt =====
-- `encode`, `decode` and `FramedSocket`. The codec `json` of the standard library is a parameter.
-- A call of the socket gets its answer as an argument: what `recv` returns or that it would block,
-- and how many bytes `send` takes.
use wlanpi_utilization.Prelude.{
  ℕ, zero, suc, ◌+◌, ◌*◌, ◌/◌, ◌%◌, ltb, ◌==◌, Bool, true, false, ◌&&◌, ◌||◌, not, Option, none,
  some, List, [], ◌∷◌, ◌++◌, length, take, drop, if◌then◌else◌, Result, ok, value_error, ◌>>=◌,
}
use wlanpi_utilization.Ipc.Wire.{Python, Value, object, Fields, to_wire}

-- MAX_MESSAGE_BYTES
abbrev pub max_message_bytes : ℕ
max_message_bytes = 8388608

-- `json.dumps(value, allow_nan=False, ...).encode()` and `json.loads`.
pub record Json (P : Python) : Type 0 where
  pub dumps : Value P → Result (List ℕ)
  pub loads : List ℕ → Result (Value P)

-- `struct.pack("!I", n)` and `struct.unpack("!I", bytes)[0]`
unfoldable pub pack : ℕ → List ℕ
pack n = n / 16777216 % 256 ∷ n / 65536 % 256 ∷ n / 256 % 256 ∷ n % 256 ∷ []

unfoldable pub unpack : List ℕ → ℕ
unpack (a ∷ b ∷ c ∷ d ∷ _) = ((a * 256 + b) * 256 + c) * 256 + d
unpack _ = 0

-- `not self.output`
abbrev pub is_empty : List ℕ → Bool
is_empty [] = true
is_empty (b ∷ bs) = false

pub record FramedSocket : Type 0 where
  pub buffer : List ℕ
  pub output : List ℕ
  pub offset : ℕ
  pub next_output : List ℕ
  pub eof : Bool

-- `__init__`
abbrev pub opened : FramedSocket
opened = record { buffer = []; output = []; offset = 0; next_output = []; eof = false }

-- What one `recv` gives; the empty chunk is the end of the stream.
pub data Read : Type 0 where
  blocked : Read
  chunk : List ℕ → Read

-- The payload behind its size.
unfoldable pub framed : List ℕ → Result (List ℕ)
unfolding pack
framed payload =
    if ltb max_message_bytes (length payload)
    then value_error "Utilization IPC message exceeds the size limit"
    else ok (pack (length payload) ++ payload)

module _ {P : Python} (J : Json P) where
  unfoldable pub encode : Fields P → Result (List ℕ)
  unfolding framed
  encode message = J.dumps (to_wire (object message)) >>= framed

  abbrev pub as_message : Value P → Result (Fields P)
  as_message (object fs) = ok fs
  as_message _ = value_error "Expected a JSON message object"

  unfoldable pub decode : List ℕ → Result (Fields P)
  decode payload = J.loads payload >>= as_message

  -- The inner loop of `receive`, on the buffer and the messages so far; with one round of fuel for
  -- each byte it ends by itself, since a message takes more than four bytes.
  unfoldable pub drain : ℕ → List ℕ → List (Fields P) → Result (List (Fields P)) × List ℕ
  unfolding unpack decode
  drain zero buffer messages = (ok messages, buffer)
  drain (suc fuel) buffer messages =
      let size = unpack (take 4 buffer) in
      if ltb (length buffer) 4
      then (ok messages, buffer)
      else if size == 0 || ltb max_message_bytes size
      then (value_error "Invalid Utilization IPC message size", buffer)
      else if ltb (length buffer) (size + 4)
      then (ok messages, buffer)
      else elim (decode (take size (drop 4 buffer))) [
        | value_error m ↦ (value_error m, buffer)
        | ok message ↦ drain fuel (drop (size + 4) buffer) (messages ++ message ∷ [])
      ]

  -- The rounds of `range(4)`: the result, the channel and the answers that are left.
  unfoldable pub receive_rounds :
      ℕ
      → FramedSocket
      → List Read
      → List (Fields P)
      → Result (List (Fields P)) × FramedSocket × List Read
  unfolding drain
  receive_rounds zero s reads messages = (ok messages, s, reads)
  receive_rounds (suc n) s [] messages = (ok messages, s, [])
  receive_rounds (suc n) s (blocked ∷ reads) messages = (ok messages, s, reads)
  receive_rounds (suc n) s (chunk [] ∷ reads) messages =
      (ok messages, record s { eof = true }, reads)
  receive_rounds (suc n) s (chunk (b ∷ bs) ∷ reads) messages =
      let filled = s.buffer ++ b ∷ bs in
      let (result, left) = drain (length filled) filled messages in
      elim result [
        | value_error m ↦ (value_error m, record s { buffer = left }, reads)
        | ok messages' ↦ receive_rounds n (record s { buffer = left }) reads messages'
      ]

  -- `if self.eof and self.buffer`
  abbrev pub check_rest :
      Result (List (Fields P)) × FramedSocket × List Read
      → Result (List (Fields P)) × FramedSocket × List Read
  check_rest (value_error m, s, reads) = (value_error m, s, reads)
  check_rest (ok messages, s, reads) =
      if s.eof && not (is_empty s.buffer)
      then (value_error "Incomplete Utilization IPC message", s, reads)
      else (ok messages, s, reads)

  unfoldable pub receive :
      FramedSocket → List Read → Result (List (Fields P)) × FramedSocket × List Read
  unfolding receive_rounds
  receive s reads = check_rest (receive_rounds 4 s reads [])

  -- `queue`, on a message that `encode` accepts.
  unfoldable pub queue : FramedSocket → Fields P → Result FramedSocket
  unfolding encode
  queue s message = do
    payload ← encode message
    if is_empty s.output || s.offset == 0
        then ok (record s { output = payload; offset = 0 })
        else ok (record s { next_output = payload })

-- What one `send` gives: how many bytes it takes.
pub data Send : Type 0 where
  would_block : Send
  taken : ℕ → Send

-- `flush`: the channel, and the bytes that went out; `none` is `EOFError`.
unfoldable pub flush : FramedSocket → Send → Option (FramedSocket × List ℕ)
flush s answer = if is_empty s.output then some (s, []) else elim answer [
  | would_block ↦ some (s, [])
  | taken count ↦
      if count == 0
      then none
      else let out = take count (drop s.offset s.output) in
        if s.offset + count == length s.output
        then some (record s { output = s.next_output; next_output = []; offset = 0 }, out)
        else some (record s { offset = s.offset + count }, out)
]

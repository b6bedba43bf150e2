-- ===== src/Tests/Messages.antt =====
-- Applications to plain data and to a channel that carries two messages.
use mathlib.Core.Path.{subst}
use wlanpi_utilization.Prelude.{
  ℕ, ◌≡◌, refl, false, true, ◌&&◌, ◌==◌, some, List, [], ◌∷◌, ◌++◌, map, Result, ok, value_error,
  arith, if◌then◌else◌, Option, none, str_eq, eq_iff, Bool-cases, Option-cases, ok_injective, inl,
  inr,
}
use wlanpi_utilization.Ipc.Wire.{
  Python, Value, null, text, path, array, tuple, object, instance_of, no_items, item, Fields,
  no_fields, field, built, Kind, union_kind, none_kind, tuple_of, path_kind, dataclass_kind,
  boolean, no_kinds, kind, no_field_kinds, field_kind, to_wire, to_wire_fields, from_wire,
}
use wlanpi_utilization.Ipc.Typed.{HasKind, from_wire-HasKind}
use wlanpi_utilization.Ipc.RoundTrip.{CanCarry, from_wire-to_wire}
use wlanpi_utilization.Ipc.Channel.{
  Json, FramedSocket, opened, Read, blocked, chunk, encode, queue, flush,
}
use wlanpi_utilization.Ipc.Frames.{JsonLaws}
use wlanpi_utilization.Ipc.Delivery.{data_of, receive_calls}
use wlanpi_utilization.Ipc.Sending.{KeepsLast, Reached, starts, queues, flushes}
use wlanpi_utilization.Ipc.Exchange.{receive_calls-queue}

-- A float is a number of some unit, and every path is in its normal form.
abbrev python : Python
python = record {
  Float = ℕ;
  is_finite = λ x. true;
  to_float = λ n. some 0;
  has_nul = λ t. false;
  path_text = λ t. t;
}

abbrev optional_path : Kind python
optional_path = union_kind (kind path_kind (kind none_kind no_kinds))

abbrev status_kind : Kind python
status_kind =
    dataclass_kind "LoggingStatus"
      (field_kind "paths" (tuple_of path_kind) (field_kind "message" optional_path no_field_kinds))
      (λ fs. built fs)

abbrev status : Value python
status =
    instance_of "LoggingStatus"
      (field "paths" (tuple (item (path "/a") no_items)) (field "message" null no_fields))

abbrev status_data : Value python
status_data =
    object (field "paths" (array (item (text "/a") no_items)) (field "message" null no_fields))

read_status : from_wire status_kind status_data ≡ built status
unfolding from_wire
read_status = refl

from_wire-HasKind_example : HasKind status_kind status
from_wire-HasKind_example = from_wire-HasKind status_kind status_data status read_status

carried : CanCarry status_kind status
unfolding CanCarry
carried = (refl, (((refl, refl), tt), (inr (refl, inl tt), tt)), refl)

from_wire-to_wire_example : from_wire status_kind (to_wire status) ≡ built status
from_wire-to_wire_example = from_wire-to_wire status_kind status carried

-- A codec of the objects that hold nothing or, under the key "ok", null, a Boolean or an empty array.
-- As `json` does, it writes a tuple as an array. The text of a value ends with the closing brace.
abbrev text_of : Value python → Option (List ℕ)
text_of null = some (110 ∷ 117 ∷ 108 ∷ 108 ∷ 125 ∷ [])
text_of (boolean true) = some (116 ∷ 114 ∷ 117 ∷ 101 ∷ 125 ∷ [])
text_of (boolean false) = some (102 ∷ 97 ∷ 108 ∷ 115 ∷ 101 ∷ 125 ∷ [])
text_of (array no_items) = some (91 ∷ 93 ∷ 125 ∷ [])
text_of (tuple no_items) = some (91 ∷ 93 ∷ 125 ∷ [])
text_of v = none

abbrev of_text : List ℕ → Option (Value python)
of_text (a ∷ b ∷ c ∷ []) = if a == 91 && b == 93 then some (array no_items) else none
of_text (a ∷ b ∷ c ∷ d ∷ e ∷ []) =
    if a == 110 then some null else if a == 116 then some (boolean true) else none
of_text (a ∷ b ∷ c ∷ d ∷ e ∷ f ∷ []) = if a == 102 then some (boolean false) else none
of_text _ = none

abbrev wrapped : Option (List ℕ) → Result (List ℕ)
wrapped none = value_error "not a value of the codec"
wrapped (some t) = ok (123 ∷ 34 ∷ 111 ∷ 107 ∷ 34 ∷ 58 ∷ t)

abbrev dumps : Value python → Result (List ℕ)
dumps (object no_fields) = ok (123 ∷ 125 ∷ [])
dumps (object (field k v no_fields)) =
    if str_eq k "ok" then wrapped (text_of v) else value_error "not a key of the codec"
dumps _ = value_error "not an object of the codec"

abbrev with_value : Option (Value python) → Result (Value python)
with_value none = value_error "no JSON text"
with_value (some v) = ok (object (field "ok" v no_fields))

abbrev loads : List ℕ → Result (Value python)
loads (a ∷ b ∷ []) =
    if a == 123 && b == 125 then ok (object no_fields) else value_error "no JSON text"
loads (a ∷ b ∷ c ∷ d ∷ e ∷ f ∷ rest) =
    if a == 123 && f == 58 then with_value (of_text rest) else value_error "no JSON text"
loads _ = value_error "no JSON text"

abbrev json : Json python
json = record { dumps = dumps; loads = loads }

read_back :
    (k t : List ℕ) (v : Value python) → of_text k ≡ some v → some k ≡ some t → of_text t ≡ some v
read_back k t v r e = let same : k ≡ t = cc in subst (λ q. of_text q ≡ some v) same r

of_text-text_of :
    (v : Value python) (t : List ℕ) → text_of (to_wire v) ≡ some t → of_text t ≡ some (to_wire v)
unfolding to_wire
of_text-text_of null t e = read_back _ t null refl e
of_text-text_of (boolean true) t e = read_back _ t (boolean true) refl e
of_text-text_of (boolean false) t e = read_back _ t (boolean false) refl e
of_text-text_of (array no_items) t e = read_back _ t (array no_items) refl e
of_text-text_of (tuple no_items) t e = read_back _ t (array no_items) refl e
of_text-text_of _ t e = absurd (cc)

object-loads :
    (fs : Fields python) (p : List ℕ)
    → dumps (object (to_wire_fields fs)) ≡ ok p
    → loads p ≡ ok (object (to_wire_fields fs))
unfolding to_wire_fields
object-loads no_fields p e =
    let same : 123 ∷ 125 ∷ [] ≡ p = cc in subst (λ q. loads q ≡ ok (object no_fields)) same refl
object-loads (field k v (field k' v' fs)) p e = absurd (cc)
object-loads (field k v no_fields) p e = elim (Bool-cases (str_eq k "ok")) [
  | inr c ↦ absurd (ground arith)
  | inl c ↦ elim (Option-cases (text_of (to_wire v))) [
    | inl n ↦ absurd (cc (rw (c, n) at e))
    | inr (t, n) ↦
        let same : 123 ∷ 34 ∷ 111 ∷ 107 ∷ 34 ∷ 58 ∷ t ≡ p = ok_injective (rw (c, n) at e) in
        subst (λ q. loads q ≡ ok (object (field k (to_wire v) no_fields))) same
          (rw (of_text-text_of v t n, (eq_iff k "ok").0 c) refl)
  ]
]

loads-dumps : (v : Value python) (p : List ℕ) → dumps (to_wire v) ≡ ok p → loads p ≡ ok (to_wire v)
unfolding to_wire to_wire_fields
loads-dumps (object fs) p e = object-loads fs p e
loads-dumps (instance_of name fs) p e = object-loads fs p e
loads-dumps _ p e = absurd (cc)

laws : JsonLaws json
laws = record { loads-dumps = loads-dumps; loads_of_nothing = λ v e. absurd (cc) }

-- A message that holds a tuple, and one that holds a Boolean.
abbrev first_message : Fields python
first_message = field "ok" (tuple no_items) no_fields

abbrev second_message : Fields python
second_message = field "ok" (boolean true) no_fields

abbrev two_messages : List (Fields python)
two_messages = first_message ∷ second_message ∷ []

abbrev first_start : List ℕ
first_start = 0 ∷ 0 ∷ 0 ∷ 9 ∷ []

abbrev first_rest : List ℕ
first_rest = 123 ∷ 34 ∷ 111 ∷ 107 ∷ 34 ∷ 58 ∷ 91 ∷ 93 ∷ 125 ∷ []

abbrev second_frame : List ℕ
second_frame = 0 ∷ 0 ∷ 0 ∷ 11 ∷ 123 ∷ 34 ∷ 111 ∷ 107 ∷ 34 ∷ 58 ∷ 116 ∷ 114 ∷ 117 ∷ 101 ∷ 125 ∷ []

-- The channel with the first message, while it is half sent, when the second is queued behind it, and
-- with the second alone.
abbrev on_first : FramedSocket
on_first = record opened { output = first_start ++ first_rest }

abbrev half_sent : FramedSocket
half_sent = record on_first { offset = 4 }

abbrev one_more : FramedSocket
one_more = record half_sent { next_output = second_frame }

abbrev on_second : FramedSocket
on_second = record opened { output = second_frame }

all_out : Reached json opened ((first_start ++ first_rest) ++ second_frame) two_messages
unfolding queue flush encode to_wire
all_out =
    flushes on_second opened (first_start ++ first_rest) second_frame two_messages 15
      (flushes one_more on_second first_start first_rest two_messages 9
        (queues half_sent one_more first_start (first_message ∷ []) second_message
          (flushes on_first half_sent [] first_start (first_message ∷ []) 4
            (queues opened on_first [] [] first_message starts refl) (omega arith) refl)
          refl)
        (omega arith) refl)
      (omega arith) refl

abbrev pieces : List Read
pieces =
    chunk (first_start ++ 123 ∷ 34 ∷ [])
    ∷ blocked
    ∷ chunk (111 ∷ 107 ∷ 34 ∷ 58 ∷ 91 ∷ 93 ∷ 125 ∷ second_frame)
    ∷ []

same_bytes : data_of pieces ≡ (first_start ++ first_rest) ++ second_frame
unfolding data_of
same_bytes = refl

receive_calls-queue_example :
    (ms : List (Fields python)) × KeepsLast ms two_messages
    × (receive_calls json 3 opened pieces [] ≡ (ok (map to_wire_fields ms), opened, []))
receive_calls-queue_example =
    receive_calls-queue json laws opened ((first_start ++ first_rest) ++ second_frame) two_messages
      pieces 3 all_out refl refl refl same_bytes (omega arith)

-- ===== src/Ipc/Wire.antt =====
-- `to_wire` and `from_wire`: the plain data that stands for a value, and the value of a declared type
-- that plain data stands for. The cache of `_hints` keeps no state that shows.
use wlanpi_utilization.Prelude.{
  ℤ, Bool, true, false, ◌&&◌, ◌||◌, Option, none, some, List, String, str_eq, has_text,
  if◌then◌else◌,
}

-- What is used of Python: its floats, `math.isfinite`, `float` of an integer (`none` where it raises
-- `OverflowError`), whether a text holds a NUL, and the text of the path of a text.
pub record Python : Type 1 where
  pub Float : Type 0
  pub is_finite : Float → Bool
  pub to_float : ℤ → Option Float
  pub has_nul : String → Bool
  pub path_text : String → String

-- A value, by its class; a member of an enumeration has its class's name and its own text.
mutual
  pub data Value (P : Python) : Type 0 where
    null : Value P
    boolean : Bool → Value P
    integer : ℤ → Value P
    number : P.Float → Value P
    text : String → Value P
    path : String → Value P
    member : String → String → Value P
    array : Items P → Value P
    tuple : Items P → Value P
    object : Fields P → Value P
    instance_of : String → Fields P → Value P

  pub data Items (P : Python) : Type 0 where
    no_items : Items P
    item : Value P → Items P → Items P

  pub data Fields (P : Python) : Type 0 where
    no_fields : Fields P
    field : String → Value P → Fields P → Fields P

unfoldable mutual
  pub to_wire : {P : Python} → Value P → Value P
  to_wire (instance_of name fs) = object (to_wire_fields fs)
  to_wire (member name value) = text value
  to_wire (path p) = text p
  to_wire (tuple is) = array (to_wire_items is)
  to_wire (array is) = array (to_wire_items is)
  to_wire (object fs) = object (to_wire_fields fs)
  to_wire null = null
  to_wire (boolean b) = boolean b
  to_wire (integer n) = integer n
  to_wire (number x) = number x
  to_wire (text t) = text t

  pub to_wire_items : {P : Python} → Items P → Items P
  to_wire_items no_items = no_items
  to_wire_items (item v is) = item (to_wire v) (to_wire_items is)

  pub to_wire_fields : {P : Python} → Fields P → Fields P
  to_wire_fields no_fields = no_fields
  to_wire_fields (field k v fs) = field k (to_wire v) (to_wire_fields fs)

-- How a call ends: with a value, with a `ValueError` or a `TypeError`, which callers treat alike, or
-- with an `OverflowError`.
pub data Built (A : Type 0) : Type 0 where
  built : A → Built A
  rejected : Built A
  overflowed : Built A

abbrev pub and_then : {A B : Type 0} → Built A → (A → Built B) → Built B
and_then (built a) f = f a
and_then rejected f = rejected
and_then overflowed f = overflowed

-- A declared type. A dataclass has its name, the types of its fields and its constructor, which
-- supplies the defaults, refuses a missing field and runs `__post_init__`.
mutual
  pub data Kind (P : Python) : Type 0 where
    union_kind : Kinds P → Kind P
    none_kind : Kind P
    tuple_of : Kind P → Kind P
    tuple_kind : Kinds P → Kind P
    enum_kind : String → List String → Kind P
    path_kind : Kind P
    dataclass_kind : String → FieldKinds P → (Fields P → Built (Fields P)) → Kind P
    float_kind : Kind P
    str_kind : Kind P
    int_kind : Kind P
    bool_kind : Kind P
    other_kind : Kind P

  pub data Kinds (P : Python) : Type 0 where
    no_kinds : Kinds P
    kind : Kind P → Kinds P → Kinds P

  pub data FieldKinds (P : Python) : Type 0 where
    no_field_kinds : FieldKinds P
    field_kind : String → Kind P → FieldKinds P → FieldKinds P

module _ {P : Python} where
  -- `tuple(from_wire(args[0], item) for item in value)`
  unfoldable pub each_item : (Value P → Built (Value P)) → Items P → Built (Items P)
  each_item f no_items = built no_items
  each_item f (item v is) =
      and_then (f v) (λ w. and_then (each_item f is) (λ ws. built (item w ws)))

  -- `{key: from_wire(hints[key], item) for key, item in value.items()}`
  unfoldable pub each_field : (String → Value P → Built (Value P)) → Fields P → Built (Fields P)
  each_field f no_fields = built no_fields
  each_field f (field k v fs) =
      and_then (f k v) (λ w. and_then (each_field f fs) (λ ws. built (field k w ws)))

  -- `key in {f.name for f in fields(cls)}`
  unfoldable pub is_declared : FieldKinds P → String → Bool
  is_declared no_field_kinds key = false
  is_declared (field_kind name k ks) key = str_eq name key || is_declared ks key

  -- `not (set(value) - {f.name for f in fields(cls)})`
  unfoldable pub are_declared : FieldKinds P → Fields P → Bool
  unfolding is_declared
  are_declared ks no_fields = true
  are_declared ks (field key v fs) = is_declared ks key && are_declared ks fs

  -- `len(value) == len(args)`
  unfoldable pub same_length : Kinds P → Items P → Bool
  same_length no_kinds no_items = true
  same_length (kind k ks) (item v is) = same_length ks is
  same_length _ _ = false

  -- The branch of `float`: `type(value) in (int, float) and math.isfinite(value)`.
  unfoldable pub float_from : Value P → Built (Value P)
  float_from (number x) = if P.is_finite x then built (number x) else rejected
  float_from (integer n) = elim (P.to_float n) [ none ↦ overflowed | some x ↦ built (number x) ]
  float_from v = rejected

  unfoldable pub path_from : Value P → Built (Value P)
  path_from (text t) = if P.has_nul t then rejected else built (path (P.path_text t))
  path_from v = rejected

  unfoldable pub member_from : String → List String → Value P → Built (Value P)
  member_from name members (text t) = if has_text members t then built (member name t) else rejected
  member_from name members (member name' t) =
      if str_eq name name' && has_text members t then built (member name t) else rejected
  member_from name members v = rejected

unfoldable mutual
  unfolding each_item each_field are_declared same_length float_from path_from member_from

  pub from_wire : {P : Python} → Kind P → Value P → Built (Value P)
  from_wire (union_kind ks) v = from_wire_any ks v
  from_wire none_kind null = built null
  from_wire (tuple_of k) (array is) = and_then (each_item (from_wire k) is) (λ ws. built (tuple ws))
  from_wire (tuple_kind ks) (array is) =
      if same_length ks is
      then and_then (from_wire_items ks is) (λ ws. built (tuple ws))
      else rejected
  from_wire (enum_kind name members) v = member_from name members v
  from_wire path_kind v = path_from v
  from_wire (dataclass_kind name ks construct) (object fs) =
      if are_declared ks fs
      then and_then (each_field (from_wire_field ks) fs)
          (λ ws. and_then (construct ws) (λ made. built (instance_of name made)))
      else rejected
  from_wire float_kind v = float_from v
  from_wire str_kind (text t) = built (text t)
  from_wire int_kind (integer n) = built (integer n)
  from_wire bool_kind (boolean b) = built (boolean b)
  from_wire _ _ = rejected

  -- The candidates of a union, in their order.
  pub from_wire_any : {P : Python} → Kinds P → Value P → Built (Value P)
  from_wire_any no_kinds v = rejected
  from_wire_any (kind k ks) v = elim (from_wire k v) [
    | built w ↦ built w
    | overflowed ↦ overflowed
    | rejected ↦ from_wire_any ks v
  ]

  -- The fields of a fixed tuple, of the same length.
  pub from_wire_items : {P : Python} → Kinds P → Items P → Built (Items P)
  from_wire_items no_kinds no_items = built no_items
  from_wire_items (kind k ks) (item v is) =
      and_then (from_wire k v) (λ w. and_then (from_wire_items ks is) (λ ws. built (item w ws)))
  from_wire_items _ _ = rejected

  -- `from_wire(hints[key], item)`
  pub from_wire_field : {P : Python} → FieldKinds P → String → Value P → Built (Value P)
  from_wire_field no_field_kinds key v = rejected
  from_wire_field (field_kind name k ks) key v =
      let rest = from_wire_field ks key v in if str_eq name key then from_wire k v else rest

-- ===== src/Ipc/RoundTrip.antt =====
-- A value that is sent comes back: `from_wire` after `to_wire`.
use wlanpi_utilization.Prelude.{
  ◌≡◌, refl, ◌⊎◌, inl, inr, true, false, has_text, String, str_eq, Bool-cases, if◌then◌else◌,
}
use wlanpi_utilization.Ipc.Wire.{
  Python, Value, null, boolean, integer, number, text, path, member, tuple, instance_of, Items,
  no_items, item, Fields, no_fields, field, Built, built, rejected, Kind, union_kind, none_kind,
  tuple_of, tuple_kind, enum_kind, path_kind, dataclass_kind, float_kind, str_kind, int_kind,
  bool_kind, Kinds, no_kinds, kind, FieldKinds, no_field_kinds, field_kind, to_wire, to_wire_items,
  to_wire_fields, each_item, each_field, is_declared, are_declared, same_length, float_from,
  path_from, member_from, from_wire, from_wire_any, from_wire_items, from_wire_field,
}
use wlanpi_utilization.Ipc.Typed.{EachItem, EachField}

-- The values that the declared type can carry: a union's value is of one of its candidates, and the
-- candidates before it refuse its plain data; a float is finite; a path is one that its own text
-- gives, without NUL; the fields of an instance are declared, each of its own type, and the
-- constructor leaves them as they are.
unfoldable mutual
  unfolding from_wire to_wire

  pub CanCarry : {P : Python} → Kind P → Value P → Type 0
  CanCarry (union_kind ks) v = CanCarryAny ks v
  CanCarry none_kind null = Unit
  CanCarry (tuple_of k) (tuple is) = EachItem (CanCarry k) is
  CanCarry (tuple_kind ks) (tuple is) = CanCarryItems ks is
  CanCarry (enum_kind name members) (member n t) = (n ≡ name) × (has_text members t ≡ true)
  CanCarry {P} path_kind (path p) = (P.has_nul p ≡ false) × (P.path_text p ≡ p)
  CanCarry (dataclass_kind name ks construct) (instance_of n fs) =
      (n ≡ name) × EachField (CanCarryField ks) fs × (construct fs ≡ built fs)
  CanCarry {P} float_kind (number x) = P.is_finite x ≡ true
  CanCarry str_kind (text t) = Unit
  CanCarry int_kind (integer n) = Unit
  CanCarry bool_kind (boolean b) = Unit
  CanCarry _ _ = ⊥

  pub CanCarryAny : {P : Python} → Kinds P → Value P → Type 0
  CanCarryAny no_kinds v = ⊥
  CanCarryAny (kind k ks) v =
      CanCarry k v ⊎ ((from_wire k (to_wire v) ≡ rejected) × CanCarryAny ks v)

  pub CanCarryItems : {P : Python} → Kinds P → Items P → Type 0
  CanCarryItems no_kinds no_items = Unit
  CanCarryItems (kind k ks) (item v is) = CanCarry k v × CanCarryItems ks is
  CanCarryItems _ _ = ⊥

  pub CanCarryField : {P : Python} → FieldKinds P → String → Value P → Type 0
  CanCarryField no_field_kinds key v = ⊥
  CanCarryField (field_kind name k ks) key v =
      let rest = CanCarryField ks key v in if str_eq name key then CanCarry k v else rest

module _ {P : Python} where
  each_item-back :
      (f : Value P → Built (Value P)) (H : Value P → Type 0)
      → ((v : Value P) → H v → f (to_wire v) ≡ built v)
      → (is : Items P) → EachItem H is
      → each_item f (to_wire_items is) ≡ built is
  unfolding each_item to_wire
  each_item-back f H h no_items c = refl
  each_item-back f H h (item v is) c = rw (h v c.0, each_item-back f H h is c.1) refl

  each_field-back :
      (f : String → Value P → Built (Value P)) (H : String → Value P → Type 0)
      → ((key : String) (v : Value P) → H key v → f key (to_wire v) ≡ built v)
      → (fs : Fields P) → EachField H fs
      → each_field f (to_wire_fields fs) ≡ built fs
  unfolding each_field to_wire
  each_field-back f H h no_fields c = refl
  each_field-back f H h (field key v fs) c = rw (h key v c.0, each_field-back f H h fs c.1) refl

  field-is_declared :
      (ks : FieldKinds P) (key : String) (v : Value P)
      → CanCarryField ks key v
      → is_declared ks key ≡ true
  unfolding is_declared CanCarry
  field-is_declared no_field_kinds key v c = absurd c
  field-is_declared (field_kind name k ks) key v c = elim (Bool-cases (str_eq name key)) [
    | inl e ↦ rw e refl
    | inr e ↦ rw (e, field-is_declared ks key v (rw e at c)) refl
  ]

  fields-are_declared :
      (ks : FieldKinds P) (fs : Fields P)
      → EachField (CanCarryField ks) fs
      → are_declared ks (to_wire_fields fs) ≡ true
  unfolding are_declared to_wire
  fields-are_declared ks no_fields c = refl
  fields-are_declared ks (field key v fs) c =
      rw (field-is_declared ks key v c.0, fields-are_declared ks fs c.1) refl

  items-same_length :
      (ks : Kinds P) (is : Items P) → CanCarryItems ks is → same_length ks (to_wire_items is) ≡ true
  unfolding same_length to_wire CanCarry
  items-same_length no_kinds no_items c = refl
  items-same_length (kind k ks) (item v is) c = items-same_length ks is c.1
  items-same_length no_kinds (item v is) c = absurd c
  items-same_length (kind k ks) no_items c = absurd c

mutual
  unfolding from_wire to_wire CanCarry float_from path_from member_from

  back : {P : Python} (k : Kind P) (v : Value P) → CanCarry k v → from_wire k (to_wire v) ≡ built v
  back (union_kind ks) v c = back_any ks v c
  back none_kind null c = refl
  back (tuple_of k) (tuple is) c = rw (each_item-back (from_wire k) (CanCarry k) (back k) is c) refl
  back (tuple_kind ks) (tuple is) c = rw (items-same_length ks is c, back_items ks is c) refl
  back (enum_kind name members) (member n t) c = rw c.1 (rw c.0 refl)
  back path_kind (path p) c = rw (c.0, c.1) refl
  back (dataclass_kind name ks construct) (instance_of n fs) (same, each, kept) =
      let read = each_field-back (from_wire_field ks) (CanCarryField ks) (back_field ks) fs each in
      rw (fields-are_declared ks fs each, read, kept, same) refl
  back float_kind (number x) c = rw c refl
  back str_kind (text t) c = refl
  back int_kind (integer n) c = refl
  back bool_kind (boolean b) c = refl
  back _ _ c = absurd c

  back_any :
      {P : Python} (ks : Kinds P) (v : Value P)
      → CanCarryAny ks v
      → from_wire_any ks (to_wire v) ≡ built v
  back_any no_kinds v c = absurd c
  back_any (kind k ks) v (inl c) = rw (back k v c) refl
  back_any (kind k ks) v (inr (r, c)) = rw (r, back_any ks v c) refl

  back_items :
      {P : Python} (ks : Kinds P) (is : Items P)
      → CanCarryItems ks is
      → from_wire_items ks (to_wire_items is) ≡ built is
  back_items no_kinds no_items c = refl
  back_items (kind k ks) (item v is) c = rw (back k v c.0, back_items ks is c.1) refl
  back_items _ _ c = absurd c

  back_field :
      {P : Python} (ks : FieldKinds P) (key : String) (v : Value P)
      → CanCarryField ks key v
      → from_wire_field ks key (to_wire v) ≡ built v
  back_field no_field_kinds key v c = absurd c
  back_field (field_kind name k ks) key v c = elim (Bool-cases (str_eq name key)) [
    | inl e ↦ rw e (back k v (rw e at c))
    | inr e ↦ rw e (back_field ks key v (rw e at c))
  ]

-- A value that its declared type can carry comes back from its plain data, unchanged: to that end a
-- union's earlier candidates refuse the plain data, a float is finite, a path is in its normal form
-- without NUL, the fields of an instance are declared and each of its type, and the constructor
-- keeps them.
pub from_wire-to_wire :
    {P : Python} (k : Kind P) (v : Value P) → CanCarry k v → from_wire k (to_wire v) ≡ built v
from_wire-to_wire k v c = back k v c

-- ===== src/Ipc/Typed.antt =====
-- What `from_wire` builds is of the declared type.
use wlanpi_utilization.Prelude.{
  ◌≡◌, refl, ◌∙◌, ◌⊎◌, inl, inr, List, Option, none, some, ◌&&◌, Bool, true, false, has_text,
  String, str_eq, Bool-cases, arith, if◌then◌else◌,
}
use mathlib.Core.Path.{subst}
use wlanpi_utilization.Ipc.Wire.{
  Python, Value, null, boolean, integer, number, text, path, member, array, tuple, object,
  instance_of, Items, no_items, item, Fields, no_fields, field, Built, built, rejected, overflowed,
  and_then, Kind, union_kind, none_kind, tuple_of, tuple_kind, enum_kind, path_kind, dataclass_kind,
  float_kind, str_kind, int_kind, bool_kind, Kinds, no_kinds, kind, FieldKinds, no_field_kinds,
  field_kind, each_item, each_field, same_length, are_declared, float_from, path_from, member_from,
  from_wire, from_wire_any, from_wire_items, from_wire_field,
}

abbrev pub EachItem : {P : Python} → (Value P → Type 0) → Items P → Type 0
EachItem H no_items = Unit
EachItem H (item v is) = H v × EachItem H is

abbrev pub EachField : {P : Python} → (String → Value P → Type 0) → Fields P → Type 0
EachField H no_fields = Unit
EachField H (field key v fs) = H key v × EachField H fs

-- A path that the constructor of paths gives, of a text without NUL.
abbrev pub IsPath : (P : Python) → String → Type 0
IsPath P p = (t : String) × (P.has_nul t ≡ false) × (P.path_text t ≡ p)

-- The values of a declared type. An instance is what the constructor makes of fields that are each
-- of their own declared type.
unfoldable mutual
  pub HasKind : {P : Python} → Kind P → Value P → Type 0
  HasKind (union_kind ks) v = HasAny ks v
  HasKind none_kind null = Unit
  HasKind (tuple_of k) (tuple is) = EachItem (HasKind k) is
  HasKind (tuple_kind ks) (tuple is) = HasKinds ks is
  HasKind (enum_kind name members) (member n t) = (n ≡ name) × (has_text members t ≡ true)
  HasKind {P} path_kind (path p) = IsPath P p
  HasKind {P} (dataclass_kind name ks construct) (instance_of n made) =
      (n ≡ name) × (fs : Fields P) × EachField (HasField ks) fs × (construct fs ≡ built made)
  HasKind {P} float_kind (number x) = Unit
  HasKind str_kind (text t) = Unit
  HasKind int_kind (integer n) = Unit
  HasKind bool_kind (boolean b) = Unit
  HasKind _ _ = ⊥

  pub HasAny : {P : Python} → Kinds P → Value P → Type 0
  HasAny no_kinds v = ⊥
  HasAny (kind k ks) v = HasKind k v ⊎ HasAny ks v

  pub HasKinds : {P : Python} → Kinds P → Items P → Type 0
  HasKinds no_kinds no_items = Unit
  HasKinds (kind k ks) (item v is) = HasKind k v × HasKinds ks is
  HasKinds _ _ = ⊥

  -- The first declaration of the name is the field's.
  pub HasField : {P : Python} → FieldKinds P → String → Value P → Type 0
  HasField no_field_kinds key v = ⊥
  HasField (field_kind name k ks) key v =
      let rest = HasField ks key v in if str_eq name key then HasKind k v else rest

-- To take apart what succeeded.
and_then-built :
    {A B : Type 0} (x : Built A) (f : A → Built B) {b : B}
    → and_then x f ≡ built b
    → (a : A) × (x ≡ built a) × (f a ≡ built b)
and_then-built (built a) f e = (a, refl, e)
and_then-built rejected f e = absurd (cc)
and_then-built overflowed f e = absurd (cc)

built_injective : {A : Type 0} {a b : A} → built a ≡ built b → a ≡ b
built_injective e = cc

Built-cases :
    {A : Type 0} (x : Built A) → ((a : A) × (x ≡ built a)) ⊎ ((x ≡ rejected) ⊎ (x ≡ overflowed))
Built-cases (built a) = inl (a, refl)
Built-cases rejected = inr (inl refl)
Built-cases overflowed = inr (inr refl)

guarded-built :
    {A : Type 0} (c : Bool) (x : Built A) {a : A}
    → (if c then x else rejected) ≡ built a
    → (c ≡ true) × (x ≡ built a)
guarded-built true x e = (refl, e)
guarded-built false x e = absurd (cc)

module _ {P : Python} where
  each_item-EachItem :
      (f : Value P → Built (Value P)) (H : Value P → Type 0)
      → ((v w : Value P) → f v ≡ built w → H w)
      → (is : Items P) {ws : Items P} → each_item f is ≡ built ws
      → EachItem H ws
  unfolding each_item
  each_item-EachItem f H h no_items e = subst (EachItem H) (built_injective e) tt
  each_item-EachItem f H h (item v is) e =
      let (w, p, q) = and_then-built (f v) _ e in
      let (ws, r, s) = and_then-built (each_item f is) _ q in
      subst (EachItem H) (built_injective s) (h v w p, each_item-EachItem f H h is r)

  each_field-EachField :
      (f : String → Value P → Built (Value P)) (H : String → Value P → Type 0)
      → ((key : String) (v w : Value P) → f key v ≡ built w → H key w)
      → (fs : Fields P) {ws : Fields P} → each_field f fs ≡ built ws
      → EachField H ws
  unfolding each_field
  each_field-EachField f H h no_fields e = subst (EachField H) (built_injective e) tt
  each_field-EachField f H h (field key v fs) e =
      let (w, p, q) = and_then-built (f key v) _ e in
      let (ws, r, s) = and_then-built (each_field f fs) _ q in
      subst (EachField H) (built_injective s) (h key v w p, each_field-EachField f H h fs r)

  float_from-HasKind : (v : Value P) {w : Value P} → float_from v ≡ built w → HasKind float_kind w
  unfolding float_from HasKind
  float_from-HasKind (number x) e =
      let (c, q) = guarded-built (P.is_finite x) _ e in
      subst (HasKind float_kind) (built_injective q) tt
  float_from-HasKind (integer n) e = of_integer (P.to_float n) e
    where
      of_integer :
          (o : Option P.Float) {w : Value P}
          → elim o [ none ↦ overflowed | some x ↦ built (number x) ] ≡ built w
          → HasKind float_kind w
      of_integer none e = absurd (cc)
      of_integer (some x) e = subst (HasKind float_kind) (built_injective e) tt
  float_from-HasKind _ e = absurd (cc)

  path_from-HasKind : (v : Value P) {w : Value P} → path_from v ≡ built w → HasKind path_kind w
  unfolding path_from HasKind
  path_from-HasKind (text t) e = elim (Bool-cases (P.has_nul t)) [
    | inl c ↦ absurd (cc)
    | inr c ↦ subst (HasKind path_kind) (built_injective (rw c at e)) (t, c, refl)
  ]
  path_from-HasKind _ e = absurd (cc)

  member_from-HasKind :
      (name : String) (members : List String) (v : Value P) {w : Value P}
      → member_from name members v ≡ built w
      → HasKind (enum_kind name members) w
  unfolding member_from HasKind
  member_from-HasKind name members (text t) e =
      let (c, q) = guarded-built (has_text members t) _ e in
      subst (HasKind (enum_kind name members)) (built_injective q) (refl, c)
  member_from-HasKind name members (member n t) e =
      let (c, q) = guarded-built (str_eq name n && has_text members t) _ e in
      let both : has_text members t ≡ true = ground arith in
      subst (HasKind (enum_kind name members)) (built_injective q) (refl, both)
  member_from-HasKind name members _ e = absurd (cc)

mutual
  unfolding from_wire HasKind

  of_kind :
      {P : Python} (k : Kind P) (v : Value P) {w : Value P} → from_wire k v ≡ built w → HasKind k w
  of_kind (union_kind ks) v e = of_any ks v e
  of_kind none_kind null e = subst (HasKind none_kind) (built_injective e) tt
  of_kind (tuple_of k) (array is) e =
      let (ws, p, q) = and_then-built (each_item (from_wire k) is) _ e in
      subst (HasKind (tuple_of k)) (built_injective q)
        (each_item-EachItem (from_wire k) (HasKind k) (of_kind k) is p)
  of_kind (tuple_kind ks) (array is) e =
      let (c, r) = guarded-built (same_length ks is) _ e in
      let (ws, p, q) = and_then-built (from_wire_items ks is) _ r in
      subst (HasKind (tuple_kind ks)) (built_injective q) (of_items ks is p)
  of_kind (enum_kind name members) v e = member_from-HasKind name members v e
  of_kind path_kind v e = path_from-HasKind v e
  of_kind (dataclass_kind name ks construct) (object fs) e =
      let (c, r) = guarded-built (are_declared ks fs) _ e in
      let (ws, p, q) = and_then-built (each_field (from_wire_field ks) fs) _ r in
      let (made, s, t) = and_then-built (construct ws) _ q in
      subst (HasKind (dataclass_kind name ks construct)) (built_injective t)
        (refl, ws, each_field-EachField (from_wire_field ks) (HasField ks) (of_field ks) fs p, s)
  of_kind float_kind v e = float_from-HasKind v e
  of_kind str_kind (text t) e = subst (HasKind str_kind) (built_injective e) tt
  of_kind int_kind (integer n) e = subst (HasKind int_kind) (built_injective e) tt
  of_kind bool_kind (boolean b) e = subst (HasKind bool_kind) (built_injective e) tt
  of_kind _ _ e = absurd (cc)

  of_any :
      {P : Python} (ks : Kinds P) (v : Value P) {w : Value P}
      → from_wire_any ks v ≡ built w
      → HasAny ks w
  of_any no_kinds v e = absurd (cc)
  of_any (kind k ks) v e = elim (Built-cases (from_wire k v)) [
    | inl (a, p) ↦ inl (of_kind k v (p ∙ (rw p at e)))
    | inr (inl p) ↦ inr (of_any ks v (rw p at e))
    | inr (inr p) ↦ absurd (cc)
  ]

  of_items :
      {P : Python} (ks : Kinds P) (is : Items P) {ws : Items P}
      → from_wire_items ks is ≡ built ws
      → HasKinds ks ws
  of_items no_kinds no_items e = subst (HasKinds no_kinds) (built_injective e) tt
  of_items (kind k ks) (item v is) e =
      let (w, p, q) = and_then-built (from_wire k v) _ e in
      let (ws, r, s) = and_then-built (from_wire_items ks is) _ q in
      subst (HasKinds (kind k ks)) (built_injective s) (of_kind k v p, of_items ks is r)
  of_items _ _ e = absurd (cc)

  of_field :
      {P : Python} (ks : FieldKinds P) (key : String) (v w : Value P)
      → from_wire_field ks key v ≡ built w
      → HasField ks key w
  of_field no_field_kinds key v w e = absurd (cc)
  of_field (field_kind name k ks) key v w e = elim (Bool-cases (str_eq name key)) [
    | inl c ↦ rw c (of_kind k v (rw c at e))
    | inr c ↦ rw c (of_field ks key v w (rw c at e))
  ]

-- Whatever plain data is read, what `from_wire` builds is a value of the declared type: a union has
-- one of its candidates' types, each field of an instance has the type that is declared for its name
-- and the instance is what the constructor made, a member is one of its enumeration, and a path is
-- that of a text without NUL.
pub from_wire-HasKind :
    {P : Python} (k : Kind P) (v w : Value P) → from_wire k v ≡ built w → HasKind k w
from_wire-HasKind k v w e = of_kind k v e

-- ===== src/Channel/Definition.antt =====
-- `ChannelWidth` and `ChannelDefinition` of channel.py.
-- Frequencies are Python integers. The puncturing bitmap is not negative.
pub mod Centers
use wlanpi_utilization.Prelude.{
  ℕ, zero, suc, ◌-◌, ◌*◌, ◌/◌, ◌%◌, ◌^◌, max, ℤ, pos, ◌+ℤ◌, ◌-ℤ◌, eq_ℤ, ltb_ℤ, leb_ℤ, Bool, true,
  false, not, ◌&&◌, Option, none, some, List, [], ◌∷◌, all, any, String, ◌==◌, if◌then◌else◌,
  Result, ok, value_error,
}

pub data ChannelWidth : Type 0 where
  mhz20 mhz40 mhz80 mhz160 mhz80p80 mhz320 : ChannelWidth

-- `ChannelWidth.mhz`
unfoldable pub mhz : ChannelWidth → ℕ
mhz mhz20 = 20
mhz mhz40 = 40
mhz mhz80 = 80
mhz mhz160 = 160
mhz mhz80p80 = 160
mhz mhz320 = 320

-- The values of the string enumeration.
unfoldable pub width_value : ChannelWidth → String
width_value mhz20 = "20"
width_value mhz40 = "40"
width_value mhz80 = "80"
width_value mhz160 = "160"
width_value mhz80p80 = "80+80"
width_value mhz320 = "320"

abbrev pub same_width : ChannelWidth → ChannelWidth → Bool
same_width mhz20 mhz20 = true
same_width mhz40 mhz40 = true
same_width mhz80 mhz80 = true
same_width mhz160 mhz160 = true
same_width mhz80p80 mhz80p80 = true
same_width mhz320 mhz320 = true
same_width _ _ = false

pub record ChannelDefinition : Type 0 where
  pub primary_frequency_mhz : ℤ
  pub width : ChannelWidth
  pub center_frequency1_mhz : Option ℤ
  pub center_frequency2_mhz : Option ℤ
  pub primary_channel : Option ℤ
  pub phy : String
  pub puncturing_bitmap : Option ℕ
  pub complete : Bool
  pub supported : Bool
  pub ambiguous : Bool
  pub reason : Option String

-- The arguments of a constructor call that gives the primary frequency alone.
abbrev pub defaults : ℤ → ChannelDefinition
defaults primary = record {
  primary_frequency_mhz = primary;
  width = mhz20;
  center_frequency1_mhz = none;
  center_frequency2_mhz = none;
  primary_channel = none;
  phy = "unknown";
  puncturing_bitmap = none;
  complete = true;
  supported = true;
  ambiguous = false;
  reason = none;
}

-- The two assignments of `__post_init__`.
unfoldable pub fill_center : ChannelDefinition → Option ℤ
fill_center d = elim d.center_frequency1_mhz [
  | none ↦ some d.primary_frequency_mhz
  | some c ↦ some c
]

unfoldable pub lacks_second_center : ChannelDefinition → Bool
lacks_second_center d =
    same_width d.width mhz80p80 && elim d.center_frequency2_mhz [ none ↦ true | some c ↦ false ]

-- `ChannelDefinition.__post_init__`, on the arguments of the constructor call.
unfoldable pub post_init : ChannelDefinition → Result ChannelDefinition
post_init d =
    if leb_ℤ d.primary_frequency_mhz (pos 0)
    then value_error "primary_frequency_mhz must be greater than zero"
    else ok (record d {
      center_frequency1_mhz = fill_center d;
      complete = d.complete && not (lacks_second_center d);
      ambiguous = if lacks_second_center d then true else d.ambiguous;
    })

-- A set of frequencies is the ascending list of its elements, so `sorted` and `len` are its own.
unfoldable pub insert_center : ℤ → List ℤ → List ℤ
insert_center c [] = c ∷ []
insert_center c (d ∷ ds) =
    let rest = insert_center c ds in
    if ltb_ℤ c d then c ∷ d ∷ ds else if eq_ℤ c d then d ∷ ds else d ∷ rest

-- `centers.update(added)`
unfoldable pub update_centers : List ℤ → List ℤ → List ℤ
unfolding insert_center
update_centers centers [] = centers
update_centers centers (c ∷ cs) = update_centers (insert_center c centers) cs

-- `first + index * 20` for the `count` indices from `index` on.
unfoldable pub centers_from : ℤ → ℕ → ℕ → List ℤ
unfolding ◌+ℤ◌
centers_from first index zero = []
centers_from first index (suc count) =
    (first +ℤ pos (index * 20)) ∷ centers_from first (suc index) count

unfoldable pub continuous_centers : ℤ → ℕ → List ℤ
unfolding centers_from ◌-ℤ◌
continuous_centers center width_mhz =
    let count = max 1 (width_mhz / 20) in
    let first = center -ℤ pos ((count - 1) * 10) in centers_from first 0 count

-- The centres of an optional segment.
unfoldable pub segment_centers : List ℤ → Option ℤ → ℕ → List ℤ
unfolding update_centers continuous_centers
segment_centers centers none width_mhz = centers
segment_centers centers (some center) width_mhz =
    update_centers centers (continuous_centers center width_mhz)

-- The comprehension over `enumerate(ordered)`: drops the centres whose bit is set.
unfoldable pub unpunctured : ℕ → ℕ → List ℤ → List ℤ
unpunctured bitmap index [] = []
unpunctured bitmap index (c ∷ cs) =
    let rest = unpunctured bitmap (suc index) cs in
    if bitmap / 2 ^ index % 2 == 0 then c ∷ rest else rest

abbrev pub spanned_centers : ChannelDefinition → List ℤ
spanned_centers d =
    if same_width d.width mhz80p80
    then segment_centers (segment_centers [] d.center_frequency1_mhz 80) d.center_frequency2_mhz 80
    else segment_centers [] d.center_frequency1_mhz (mhz d.width)

-- `ChannelDefinition.active_20mhz_centers`
unfoldable pub active_20mhz_centers : ChannelDefinition → List ℤ
unfolding segment_centers unpunctured mhz
active_20mhz_centers d = elim d.puncturing_bitmap [
  | none ↦ spanned_centers d
  | some bitmap ↦ unpunctured bitmap 0 (spanned_centers d)
]

abbrev pub has_center : List ℤ → ℤ → Bool
has_center centers c = any (eq_ℤ c) centers

-- `self.active.issuperset(other.active)`
abbrev pub covers : List ℤ → List ℤ → Bool
covers wide narrow = all (has_center wide) narrow

unfoldable pub contains : ChannelDefinition → ChannelDefinition → Bool
contains d other =
    eq_ℤ d.primary_frequency_mhz other.primary_frequency_mhz
    && covers (active_20mhz_centers d) (active_20mhz_centers other)

abbrev pub same_option {ℓ} : {A : Type ℓ} → (A → A → Bool) → Option A → Option A → Bool
same_option same none none = true
same_option same (some a) (some b) = same a b
same_option same _ _ = false

unfoldable pub same_tuning : ChannelDefinition → ChannelDefinition → Bool
same_tuning d other =
    eq_ℤ d.primary_frequency_mhz other.primary_frequency_mhz
    && same_width d.width other.width
    && same_option eq_ℤ d.center_frequency1_mhz other.center_frequency1_mhz
    && same_option eq_ℤ d.center_frequency2_mhz other.center_frequency2_mhz
    && same_option ◌==◌ d.puncturing_bitmap other.puncturing_bitmap

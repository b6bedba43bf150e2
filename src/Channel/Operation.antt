-- ===== src/Channel/Operation.antt =====
-- `definition_from_operation_fields` of channel.py and its helpers: the operation fields of a
-- beacon resolved to a channel definition.
pub mod Branches
pub mod Sound
use wlanpi_utilization.Prelude.{
  ℕ, ℤ, pos, ◌+ℤ◌, ◌-ℤ◌, abs_ℤ, eq_ℤ, Bool, true, false, not, ◌&&◌, ◌||◌, Option, none, some, ltb,
  String, ◌==◌, if◌then◌else◌, is_some, Result, ok, ◌>>=◌,
}
use wlanpi_utilization.Channel.Frequency.{Band, channel_to_frequency, frequency_to_channel}
use wlanpi_utilization.Channel.Definition.{
  ChannelWidth, mhz20, mhz40, mhz80, mhz160, mhz80p80, mhz320, same_width, ChannelDefinition,
  defaults, post_init, active_20mhz_centers, has_center,
}

-- The keyword arguments.
pub record OperationFields : Type 0 where
  pub band : Band
  pub fallback_primary_frequency_mhz : Option ℤ
  pub ds_primary_channel : Option ℤ
  pub ht_primary_channel : Option ℤ
  pub ht_secondary_offset : Option ℤ
  pub vht_width : Option ℤ
  pub vht_center0 : Option ℤ
  pub vht_center1 : Option ℤ
  pub he_primary_channel : Option ℤ
  pub he_width : Option ℤ
  pub he_center0 : Option ℤ
  pub he_center1 : Option ℤ
  pub eht_width : Option ℤ
  pub eht_center0 : Option ℤ
  pub eht_center1 : Option ℤ
  pub puncturing_bitmap : Option ℕ

-- Python's truth of an optional integer, and `a or b` of two.
abbrev pub truthy : Option ℤ → Bool
truthy none = false
truthy (some n) = not (eq_ℤ n (pos 0))

abbrev pub or_int : Option ℤ → Option ℤ → Option ℤ
or_int a b = if truthy a then a else b

abbrev pub center_or : Option ℤ → ℤ → ℤ
center_or none d = d
center_or (some n) d = if eq_ℤ n (pos 0) then d else n

-- `_segment_frequency`
unfoldable pub segment_frequency : Option ℤ → Band → Option ℤ
segment_frequency none band = none
segment_frequency (some segment) band =
    if eq_ℤ segment (pos 0) then none else channel_to_frequency segment band

-- `_ambiguous_definition`
unfoldable pub ambiguous_definition : ℤ → Option ℤ → String → String → Result ChannelDefinition
ambiguous_definition primary primary_channel phy reason = post_init (record (defaults primary) {
  center_frequency1_mhz = some primary;
  primary_channel = primary_channel;
  phy = phy;
  complete = false;
  supported = false;
  ambiguous = true;
  reason = some reason;
})

-- The two constructor calls of `_operation_definition`, which is never given an unsupported reason.
abbrev pub resolved :
    ℤ → Option ℤ → ChannelWidth → Option ℤ → Option ℤ → String → Option ℕ → ChannelDefinition
resolved primary primary_channel width center1 center2 phy bitmap =
    let complete = is_some center1 && (not (same_width width mhz80p80) || is_some center2) in
    record (defaults primary) {
      width = width;
      center_frequency1_mhz = some (center_or center1 primary);
      center_frequency2_mhz = center2;
      primary_channel = primary_channel;
      phy = phy;
      puncturing_bitmap = bitmap;
      complete = complete;
      supported = true;
      ambiguous = not complete;
      reason = if complete then none else some "operation center frequency is missing";
    }

abbrev pub conflicting : ChannelDefinition → ChannelDefinition
conflicting d = record d {
  complete = false;
  supported = false;
  ambiguous = true;
  reason = some "operation center does not contain the advertised primary";
}

abbrev pub check_primary : ℤ → ChannelDefinition → ChannelDefinition → Result ChannelDefinition
check_primary primary arguments definition =
    if has_center (active_20mhz_centers definition) primary
    then ok definition
    else post_init (conflicting arguments)

-- `_operation_definition`
unfoldable pub operation_definition :
    ℤ → Option ℤ → ChannelWidth → Option ℤ → Option ℤ → String → Option ℕ → Result ChannelDefinition
operation_definition primary primary_channel width center1 center2 phy bitmap =
    let arguments = resolved primary primary_channel width center1 center2 phy bitmap in
    do definition ← post_init arguments; check_primary primary arguments definition

-- What the branches share: the primary frequency, `primary_channel` and `operation_primary_channel`.
pub record Primary : Type 0 where
  pub frequency : ℤ
  pub channel : Option ℤ
  pub operation_channel : Option ℤ

-- The dictionaries of width codes.
unfoldable pub he_width_code : ℤ → Option ChannelWidth
he_width_code n =
    if eq_ℤ n (pos 0)
    then some mhz20
    else if eq_ℤ n (pos 1)
    then some mhz40
    else if eq_ℤ n (pos 2)
    then some mhz80
    else if eq_ℤ n (pos 3)
    then some mhz160
    else none

unfoldable pub eht_width_code : ℤ → Option ChannelWidth
unfolding he_width_code
eht_width_code n = if eq_ℤ n (pos 4) then some mhz320 else he_width_code n

abbrev pub eht_of_width :
    OperationFields → Primary → Option ℕ → Option ChannelWidth → Result ChannelDefinition
eht_of_width o p bitmap none =
    ambiguous_definition p.frequency p.channel "eht" "unknown EHT width code"
eht_of_width o p bitmap (some width) =
    operation_definition p.frequency p.operation_channel width
      (segment_frequency o.eht_center0 o.band) (segment_frequency o.eht_center1 o.band) "eht" bitmap

-- `abs(center1 - center0)`, or `None` where the first segment is missing.
abbrev pub separation : Option ℤ → Option ℤ → Option ℕ
unfolding ◌-ℤ◌ abs_ℤ
separation (some c0) (some c1) = some (abs_ℤ (c1 -ℤ c0))
separation _ _ = none

-- Whether two segments are one 160 MHz channel, two 80 MHz channels, or neither.
abbrev pub split_of : Option ℕ → Option ChannelWidth
split_of none = none
split_of (some n) = if n == 8 then some mhz160 else if ltb 16 n then some mhz80p80 else none

abbrev pub he_of_split : OperationFields → Primary → Option ChannelWidth → Result ChannelDefinition
he_of_split o p none =
    ambiguous_definition p.frequency p.channel "he"
      "HE center segments do not identify 160 or 80+80 MHz"
he_of_split o p (some width) =
    operation_definition p.frequency p.operation_channel width
      (segment_frequency (if same_width width mhz160 then o.he_center1 else o.he_center0) o.band)
      (if same_width width mhz80p80 then segment_frequency o.he_center1 o.band else none) "he" none

abbrev pub he_of_width : OperationFields → Primary → Option ChannelWidth → Result ChannelDefinition
he_of_width o p none = ambiguous_definition p.frequency p.channel "he" "unknown HE 6 GHz width code"
he_of_width o p (some width) = he_of_split o p (
    if same_width width mhz160 && truthy o.he_center1
    then split_of (separation o.he_center0 o.he_center1)
    else some width)

abbrev pub vht_definition_of :
    OperationFields → Primary → ChannelWidth → Option ℤ → Option ℤ → Result ChannelDefinition
vht_definition_of o p width center1 center2 =
    operation_definition p.frequency p.operation_channel width (segment_frequency center1 o.band)
      (segment_frequency center2 o.band) "vht" none

abbrev pub vht_of_split : OperationFields → Primary → Option ChannelWidth → Result ChannelDefinition
vht_of_split o p none =
    ambiguous_definition p.frequency p.channel "vht"
      "VHT center segments do not identify 160 or 80+80 MHz"
vht_of_split o p (some width) =
    if same_width width mhz160
    then vht_definition_of o p mhz160 o.vht_center1 none
    else vht_definition_of o p mhz80p80 o.vht_center0 o.vht_center1

-- The branches on a VHT width code that is not zero.
abbrev pub vht_of_code : OperationFields → Primary → ℤ → Result ChannelDefinition
vht_of_code o p code =
    if eq_ℤ code (pos 1)
    then (if not (truthy o.vht_center1)
        then vht_definition_of o p mhz80 o.vht_center0 none
        else if is_some o.vht_center0
        then vht_of_split o p (split_of (separation o.vht_center0 o.vht_center1))
        else ambiguous_definition p.frequency p.channel "vht" "VHT center segment 0 is missing")
    else if eq_ℤ code (pos 2)
    then vht_definition_of o p mhz160 o.vht_center0 none
    else if eq_ℤ code (pos 3)
    then vht_definition_of o p mhz80p80 o.vht_center0 o.vht_center1
    else ambiguous_definition p.frequency p.channel "vht" "unknown VHT width code"

-- The branches on a secondary channel offset of 1 or 3.
abbrev pub ht_definition_of : Primary → ℤ → Result ChannelDefinition
ht_definition_of p center = post_init (record (defaults p.frequency) {
  width = mhz40;
  center_frequency1_mhz = some center;
  primary_channel = p.channel;
  phy = "ht";
})

-- The last constructor call, where no field gives a width.
abbrev pub narrow_definition_of : OperationFields → Primary → Result ChannelDefinition
narrow_definition_of o p = post_init (record (defaults p.frequency) {
  center_frequency1_mhz = some p.frequency;
  primary_channel = p.channel;
  phy =
      if is_some o.ht_primary_channel
      then "ht"
      else if not (is_some p.channel) && is_some o.fallback_primary_frequency_mhz
      then "radio-frequency"
      else "legacy";
  complete = is_some p.channel;
  ambiguous = not (is_some p.channel);
  reason =
      if is_some p.channel
      then none
      else some "operation fields unavailable; primary inferred from capture frequency";
})

abbrev pub ht_of_offset : OperationFields → Primary → Option ℤ → Result ChannelDefinition
ht_of_offset o p none = narrow_definition_of o p
ht_of_offset o p (some offset) =
    if eq_ℤ offset (pos 1)
    then ht_definition_of p (p.frequency +ℤ pos 10)
    else if eq_ℤ offset (pos 3)
    then ht_definition_of p (p.frequency -ℤ pos 10)
    else if eq_ℤ offset (pos 0)
    then narrow_definition_of o p
    else ambiguous_definition p.frequency p.channel "ht" "reserved HT secondary offset"

abbrev pub vht_of_width : OperationFields → Primary → Option ℤ → Result ChannelDefinition
vht_of_width o p none = ht_of_offset o p o.ht_secondary_offset
vht_of_width o p (some code) =
    if eq_ℤ code (pos 0) then ht_of_offset o p o.ht_secondary_offset else vht_of_code o p code

abbrev pub he_of_code : OperationFields → Primary → Option ℤ → Result ChannelDefinition
he_of_code o p none = vht_of_width o p o.vht_width
he_of_code o p (some code) = he_of_width o p (he_width_code code)

-- The branches of the function, newest generation first.
unfoldable pub resolve_operation : OperationFields → Primary → Option ℕ → Result ChannelDefinition
resolve_operation o p bitmap = elim o.eht_width [
  | none ↦ he_of_code o p o.he_width
  | some code ↦ eht_of_width o p bitmap (eht_width_code code)
]

abbrev pub nonzero_bitmap : Option ℕ → Option ℕ
nonzero_bitmap none = none
nonzero_bitmap (some n) = if n == 0 then none else some n

abbrev pub advertised_channel : OperationFields → Option ℤ
advertised_channel o =
    or_int (or_int o.he_primary_channel o.ht_primary_channel) o.ds_primary_channel

-- The primary channel and its frequency, or the fallback frequency where no channel is given.
unfoldable pub primary_of : OperationFields → Option ℤ → Option Primary
primary_of o (some channel) = elim (channel_to_frequency channel o.band) [
  | none ↦ none
  | some frequency ↦
      some
        (record { frequency = frequency; channel = some channel; operation_channel = some channel })
]
primary_of o none = elim o.fallback_primary_frequency_mhz [
  | none ↦ none
  | some frequency ↦ some (record {
    frequency = frequency;
    channel = none;
    operation_channel = frequency_to_channel frequency;
  })
]

-- `definition_from_operation_fields`: no definition where no primary frequency is known.
unfoldable pub definition_from_operation_fields :
    OperationFields → Result (Option ChannelDefinition)
definition_from_operation_fields o = elim (primary_of o (advertised_channel o)) [
  | none ↦ ok none
  | some p ↦ do
    definition ← resolve_operation o p (nonzero_bitmap o.puncturing_bitmap)
    ok (some definition)
]

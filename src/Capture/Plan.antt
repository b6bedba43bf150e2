-- ===== src/Capture/Plan.antt =====
-- `explicit_channel_definition` and `default_channel_definition` of live.py: the one definition that
-- a capture is tuned to.
pub mod Sound
use Prim.Native.String.{◌++◌}
use wlanpi_utilization.Prelude.{
  ℕ, ℤ, pos, Bool, not, Option, none, some, List, [], ◌∷◌, is_some, ◌&&◌, String, if◌then◌else◌,
  Result, ok, value_error, ◌>>=◌,
}
use wlanpi_utilization.Channel.Frequency.{
  Band, ghz2_4, ghz5, ghz6, other, frequency_to_channel, channel_to_frequency,
}
use wlanpi_utilization.Channel.Definition.{
  ChannelWidth, mhz20, mhz80, mhz80p80, same_width, width_value, ChannelDefinition, defaults,
  post_init, active_20mhz_centers, has_center,
}

-- `DEFAULT_5_GHZ_80MHZ_CENTER_CHANNELS` and `DEFAULT_6_GHZ_80MHZ_CENTER_CHANNELS`
abbrev pub default_5_ghz_80mhz_center_channels : List ℤ
default_5_ghz_80mhz_center_channels =
    pos 42 ∷ pos 58 ∷ pos 106 ∷ pos 122 ∷ pos 138 ∷ pos 155 ∷ pos 171 ∷ []

abbrev pub default_6_ghz_80mhz_center_channels : List ℤ
default_6_ghz_80mhz_center_channels =
    pos 7
    ∷ pos 23
    ∷ pos 39
    ∷ pos 55
    ∷ pos 71
    ∷ pos 87
    ∷ pos 103
    ∷ pos 119
    ∷ pos 135
    ∷ pos 151
    ∷ pos 167
    ∷ pos 183
    ∷ pos 199
    ∷ pos 215
    ∷ []

-- The constructor call and the check of the primary.
unfoldable pub explicit_checked : ChannelDefinition → Result ChannelDefinition
explicit_checked arguments = do
  definition ← post_init arguments
  if has_center (active_20mhz_centers definition) arguments.primary_frequency_mhz
      then ok definition
      else value_error
          "the explicit center frequency does not contain the selected primary/control channel"

abbrev pub explicit_arguments : ℤ → ChannelWidth → Option ℤ → Option ℤ → ChannelDefinition
explicit_arguments primary width center1 center2 = record (defaults primary) {
  width = width;
  center_frequency1_mhz = center1;
  center_frequency2_mhz = center2;
  primary_channel = frequency_to_channel primary;
  phy = "override";
}

unfoldable pub explicit_channel_definition :
    ℤ → ChannelWidth → Option ℤ → Option ℤ → Result ChannelDefinition
explicit_channel_definition primary width center1 center2 =
    let center = if same_width width mhz20 then some primary else center1 in
    if not (same_width width mhz20) && not (is_some center1)
    then value_error (
        width_value width
        ++ (" MHz requires --center-frequency1-mhz; "
            ++ "the center cannot be derived from the primary alone"))
    else if same_width width mhz80p80 && not (is_some center2)
    then value_error "80+80 MHz requires --center-frequency2-mhz"
    else if not (same_width width mhz80p80) && is_some center2
    then value_error "--center-frequency2-mhz is valid only with 80+80 MHz"
    else explicit_checked (explicit_arguments primary width center center2)

-- The constructor calls of the three results.
abbrev pub default_narrow : ℤ → ChannelDefinition
default_narrow primary = record (defaults primary) {
  center_frequency1_mhz = some primary;
  primary_channel = frequency_to_channel primary;
  phy = "band-default";
}

abbrev pub default_block : ℤ → ℤ → ChannelDefinition
default_block primary center = record (defaults primary) {
  width = mhz80;
  center_frequency1_mhz = some center;
  primary_channel = frequency_to_channel primary;
  phy = "band-default";
}

abbrev pub default_fallback : ℤ → ChannelDefinition
default_fallback primary = record (defaults primary) {
  center_frequency1_mhz = some primary;
  primary_channel = frequency_to_channel primary;
  phy = "band-default-fallback";
  reason = some "selected primary is not inside a standard 80 MHz block";
}

abbrev pub center_channels : Band → List ℤ
center_channels ghz5 = default_5_ghz_80mhz_center_channels
center_channels ghz6 = default_6_ghz_80mhz_center_channels
center_channels ghz2_4 = []
center_channels other = []

-- The loop over the center channels, and what follows it.
unfoldable pub first_block : ℤ → Band → List ℤ → Result ChannelDefinition
first_block primary band [] = post_init (default_fallback primary)
first_block primary band (channel ∷ channels) =
    let rest = first_block primary band channels in
    elim (channel_to_frequency channel band) [
      | none ↦ rest
      | some center ↦ do
        definition ← post_init (default_block primary center)
        if has_center (active_20mhz_centers definition) primary then ok definition else rest
    ]

unfoldable pub default_channel_definition : ℤ → Band → Result ChannelDefinition
unfolding first_block
default_channel_definition primary ghz2_4 = post_init (default_narrow primary)
default_channel_definition primary band = first_block primary band (center_channels band)

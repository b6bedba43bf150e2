-- ===== src/Capture/Bands.antt =====
-- Channel numbers of a band for tuning, in live.py.
pub mod Agree
use wlanpi_utilization.Prelude.{
  ℤ, pos, ◌+ℤ◌, ◌*ℤ◌, eq_ℤ, leb_ℤ, ltb_ℤ, ◌&&◌, Option, none, some, Result, ok, value_error,
  if◌then◌else◌,
}
use wlanpi_utilization.Channel.Frequency.{Band, ghz2_4, ghz5, ghz6, other}

-- The number is what `int(channel)` reads, `none` where it raises. The messages leave out the value
-- that the source quotes.
unfoldable pub channel_in_band : ℤ → Band → Result ℤ
channel_in_band c ghz2_4 =
    if eq_ℤ c (pos 14)
    then ok (pos 2484)
    else if leb_ℤ (pos 1) c && leb_ℤ c (pos 13)
    then ok (pos 2407 +ℤ c *ℤ pos 5)
    else value_error "2.4 GHz channel must be in the range 1-14"
channel_in_band c ghz5 =
    let frequency = pos 5000 +ℤ c *ℤ pos 5 in
    if ltb_ℤ (pos 5000) frequency && ltb_ℤ frequency (pos 5925)
    then ok frequency
    else value_error "channel maps outside the 5 GHz band"
channel_in_band c ghz6 =
    let frequency = pos 5950 +ℤ c *ℤ pos 5 in
    if leb_ℤ (pos 5925) frequency && leb_ℤ frequency (pos 7125)
    then ok frequency
    else value_error "channel maps outside the 6 GHz band"
channel_in_band c other = value_error "band must be one of 2.4, 5, 6"

unfoldable pub channel_to_frequency_mhz : Option ℤ → Band → Result ℤ
channel_to_frequency_mhz none band = value_error "channel must be an integer"
channel_to_frequency_mhz (some c) band =
    if leb_ℤ c (pos 0)
    then value_error "channel must be greater than zero"
    else channel_in_band c band

unfoldable pub frequency_to_band : Option ℤ → Option Band
frequency_to_band none = none
frequency_to_band (some f) =
    if leb_ℤ (pos 2400) f && leb_ℤ f (pos 2500)
    then some ghz2_4
    else if ltb_ℤ (pos 5000) f && ltb_ℤ f (pos 5925)
    then some ghz5
    else if leb_ℤ (pos 5925) f && leb_ℤ f (pos 7125)
    then some ghz6
    else none

-- ===== src/Channel/Frequency.antt =====
-- Channel numbers and centre frequencies of channel.py.
pub mod RoundTrip
use wlanpi_utilization.Prelude.{
  ℤ, pos, ◌&&◌, Option, none, some, if◌then◌else◌, ◌==◌, ltb_ℤ, leb_ℤ, eq_ℤ, ◌+ℤ◌, ◌-ℤ◌, ◌*ℤ◌,
  floor_div, floor_mod,
}

-- The band names of the callers; any other string is `other`.
pub data Band : Type 0 where
  ghz2_4 ghz5 ghz6 other : Band

unfoldable pub frequency_to_channel : ℤ → Option ℤ
unfolding ◌-ℤ◌ floor_div floor_mod
frequency_to_channel f =
    if eq_ℤ f (pos 2484)
    then some (pos 14)
    else if leb_ℤ (pos 2412) f && leb_ℤ f (pos 2472) && floor_mod (f -ℤ pos 2407) 5 == 0
    then some (floor_div (f -ℤ pos 2407) 5)
    else if leb_ℤ (pos 5005) f && ltb_ℤ f (pos 5925) && floor_mod (f -ℤ pos 5000) 5 == 0
    then some (floor_div (f -ℤ pos 5000) 5)
    else if leb_ℤ (pos 5925) f && leb_ℤ f (pos 7125) && floor_mod (f -ℤ pos 5950) 5 == 0
    then some (floor_div (f -ℤ pos 5950) 5)
    else none

unfoldable pub channel_to_frequency : ℤ → Band → Option ℤ
unfolding ◌+ℤ◌ ◌*ℤ◌
channel_to_frequency c ghz2_4 =
    if eq_ℤ c (pos 14)
    then some (pos 2484)
    else if leb_ℤ (pos 1) c && leb_ℤ c (pos 13)
    then some (pos 2407 +ℤ c *ℤ pos 5)
    else none
channel_to_frequency c ghz5 =
    let frequency = pos 5000 +ℤ c *ℤ pos 5 in
    if ltb_ℤ (pos 5000) frequency && ltb_ℤ frequency (pos 5925) then some frequency else none
channel_to_frequency c ghz6 =
    let frequency = pos 5950 +ℤ c *ℤ pos 5 in
    if leb_ℤ (pos 5925) frequency && leb_ℤ frequency (pos 7125) then some frequency else none
channel_to_frequency c other = none

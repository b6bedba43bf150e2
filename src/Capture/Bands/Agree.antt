-- ===== src/Capture/Bands/Agree.antt =====
-- The two conversions of live.py agree with each other and with channel.py.
use wlanpi_utilization.Prelude.{
  ℤ, pos, negsuc, ◌+ℤ◌, ◌*ℤ◌, ◌<ℤ◌, leb_ℤ, ◌≡◌, ◌↔◌, some, ok, arith, Bool-cases, inl, inr,
}
use wlanpi_utilization.Channel.Frequency.{Band, ghz2_4, ghz5, ghz6, other, channel_to_frequency}
use wlanpi_utilization.Capture.Bands.{channel_in_band, channel_to_frequency_mhz, frequency_to_band}

channel_in_band-channel_to_frequency :
    (c : ℤ) (band : Band) (f : ℤ)
    → (channel_in_band c band ≡ ok f) ↔ (channel_to_frequency c band ≡ some f)
unfolding channel_in_band channel_to_frequency
channel_in_band-channel_to_frequency c ghz2_4 f = ground arith
channel_in_band-channel_to_frequency c ghz5 f = ground arith
channel_in_band-channel_to_frequency c ghz6 f = ground arith
channel_in_band-channel_to_frequency c other f = ground arith

channel_to_frequency-band :
    (c : ℤ) (band : Band) (f : ℤ)
    → channel_to_frequency c band ≡ some f
    → frequency_to_band (some f) ≡ some band
unfolding channel_to_frequency frequency_to_band ◌+ℤ◌ ◌*ℤ◌
channel_to_frequency-band (pos c) ghz2_4 f h = ground arith
channel_to_frequency-band (negsuc c) ghz2_4 f h = ground arith
channel_to_frequency-band c ghz5 f h = ground arith
channel_to_frequency-band c ghz6 f h = ground arith
channel_to_frequency-band c other f h = ground arith

-- A channel number of a band is accepted with a frequency exactly where it is positive and
-- channel.py converts it to that frequency, and then the frequency is of that band.
pub channel_to_frequency_mhz_iff :
    (c : ℤ) (band : Band) (f : ℤ)
    → ((channel_to_frequency_mhz (some c) band ≡ ok f)
        ↔ ((pos 0 <ℤ c) × (channel_to_frequency c band ≡ some f)))
      × (channel_to_frequency_mhz (some c) band ≡ ok f → frequency_to_band (some f) ≡ some band)
unfolding channel_to_frequency_mhz
channel_to_frequency_mhz_iff c band f =
    let same = channel_in_band-channel_to_frequency c band f in
    let kind = channel_to_frequency-band c band f in
    elim (Bool-cases (leb_ℤ c (pos 0))) [
      | inl e ↦ rw e ((ground arith, ground arith), ground arith)
      | inr e ↦ rw e ((λ h. (ground arith, same.0 h), λ h. same.1 h.1), λ h. kind (same.0 h))
    ]

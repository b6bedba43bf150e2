-- ===== src/Channel/Hysteresis.antt =====
-- `RetuneHysteresis` of channel.py. Times are whole ticks of the caller's clock.
pub mod Stability
use wlanpi_utilization.Prelude.{
  ℕ, ◌+◌, Bool, true, false, ◌&&◌, not, Option, none, some, leb, eq_ℤ, ◌==◌, str_eq, if◌then◌else◌,
}
use wlanpi_utilization.Channel.Definition.{ChannelDefinition, same_tuning, same_width, same_option}

pub record RetuneHysteresis : Type 0 where
  pub stability : ℕ
  pub minimum_observations : ℕ
  pub candidate : Option ChannelDefinition
  pub candidate_since : Option ℕ
  pub observations : ℕ

-- The test of `stability_seconds` and `minimum_observations` against a new object's fields.
abbrev pub fresh : ℕ → ℕ → RetuneHysteresis
fresh stability minimum = record {
  stability = stability;
  minimum_observations = minimum;
  candidate = none;
  candidate_since = none;
  observations = 0;
}

unfoldable pub reset : RetuneHysteresis → RetuneHysteresis
reset h = record h { candidate = none; candidate_since = none; observations = 0 }

abbrev pub same_bool : Bool → Bool → Bool
same_bool true b = b
same_bool false b = not b

-- The equality of a frozen dataclass compares all fields.
unfoldable pub same_definition : ChannelDefinition → ChannelDefinition → Bool
same_definition d e =
    eq_ℤ d.primary_frequency_mhz e.primary_frequency_mhz
    && same_width d.width e.width
    && same_option eq_ℤ d.center_frequency1_mhz e.center_frequency1_mhz
    && same_option eq_ℤ d.center_frequency2_mhz e.center_frequency2_mhz
    && same_option eq_ℤ d.primary_channel e.primary_channel
    && str_eq d.phy e.phy
    && same_option ◌==◌ d.puncturing_bitmap e.puncturing_bitmap
    && same_bool d.complete e.complete
    && same_bool d.supported e.supported
    && same_bool d.ambiguous e.ambiguous
    && same_option str_eq d.reason e.reason

-- `requested != self._candidate`, negated.
abbrev pub is_candidate : ChannelDefinition → Option ChannelDefinition → Bool
is_candidate d none = false
is_candidate d (some c) = same_definition d c

-- `now - since >= stability`, where a missing `since` counts as `now`.
abbrev pub has_settled : Option ℕ → ℕ → ℕ → Bool
has_settled none now stability = leb stability 0
has_settled (some since) now stability = leb (since + stability) now

-- The new state, and whether to retune.
unfoldable pub consider :
    RetuneHysteresis → ChannelDefinition → ChannelDefinition → ℕ → RetuneHysteresis × Bool
unfolding reset
consider h requested actual now =
    let again = record h { observations = h.observations + 1 } in
    if same_tuning requested actual
    then (reset h, false)
    else if not (is_candidate requested h.candidate)
    then (
      record h { candidate = some requested; candidate_since = some now; observations = 1 },
      false,
    )
    else if leb h.minimum_observations again.observations
        && has_settled again.candidate_since now h.stability
    then (reset again, true)
    else (again, false)

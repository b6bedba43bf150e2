-- ===== src/Tests/Captures.antt =====
-- Applications to the plan and the coverage of a capture on channel 36.
use mathlib.Core.List.Memᴰ.{head}
use wlanpi_utilization.Prelude.{
  ℤ, ltb_ℤ, filter, pos, ◌<ℤ◌, ◌≡◌, refl, ◌↔◌, ◌⊎◌, true, false, not, if◌then◌else◌, none, some,
  List, [], ◌∷◌, Memᴰ, ok, arith, str_eq, has_text,
}
use wlanpi_utilization.Channel.Frequency.{ghz5, channel_to_frequency}
use wlanpi_utilization.Channel.Definition.{
  mhz20, mhz40, mhz80, ChannelDefinition, defaults, contains,
}
use wlanpi_utilization.Channel.Choice.{
  BssidChannelObservation, RadioCapabilities, is_fresh, collect, fallback_definition,
  choose_capture_definition,
}
use wlanpi_utilization.Channel.Choice.Covered.{Promises, choose_capture_definition-Promises}
use wlanpi_utilization.Channel.Choice.Latest.{IsKept, collect-IsKept}
use wlanpi_utilization.Capture.Plan.{default_channel_definition, explicit_channel_definition}
use wlanpi_utilization.Capture.Plan.Sound.{
  IsTunable, default_channel_definition-IsTunable, explicit_channel_definition-IsTunable,
}
use wlanpi_utilization.Capture.Bands.{channel_to_frequency_mhz, frequency_to_band}
use wlanpi_utilization.Capture.Bands.Agree.{channel_to_frequency_mhz_iff}
use wlanpi_utilization.Capture.Coverage.{CoverageDecision, partial, update_fixed_capture_coverage}
use wlanpi_utilization.Capture.Coverage.Tracking.{
  has_evidence, fits, update_fixed_capture_coverage_lem, IsConsistent, Event, heard, pruned, track,
  track-IsConsistent,
}
use wlanpi_utilization.Capture.Startup.{new_filter, collecting, include_history, filter_rows}
use wlanpi_utilization.Capture.Startup.Kept.{observe_all, filter_rows-include_history}

one_is_positive : pos 0 <ℤ pos 5180
one_is_positive = omega arith

default_channel_definition-IsTunable_example :
    (d : ChannelDefinition) × (default_channel_definition (pos 5180) ghz5 ≡ ok d)
    × IsTunable (pos 5180) d
    × ((d.width ≡ mhz80) ⊎ (d.width ≡ mhz20))
default_channel_definition-IsTunable_example =
    default_channel_definition-IsTunable (pos 5180) ghz5 one_is_positive

abbrev chosen : ChannelDefinition
chosen = record (defaults (pos 5180)) {
  width = mhz40;
  center_frequency1_mhz = some (pos 5190);
  primary_channel = some (pos 36);
  phy = "override";
}

is_chosen : explicit_channel_definition (pos 5180) mhz40 (some (pos 5190)) none ≡ ok chosen
unfolding explicit_channel_definition wlanpi_utilization.Capture.Plan.explicit_checked
    wlanpi_utilization.Channel.Definition.post_init
    wlanpi_utilization.Channel.Definition.active_20mhz_centers
    wlanpi_utilization.Channel.Definition.fill_center
    wlanpi_utilization.Channel.Frequency.frequency_to_channel
    wlanpi_utilization.Channel.Definition.lacks_second_center
is_chosen = refl

explicit_channel_definition-IsTunable_example : IsTunable (pos 5180) chosen × (chosen.width ≡ mhz40)
explicit_channel_definition-IsTunable_example =
    explicit_channel_definition-IsTunable (pos 5180) mhz40 (some (pos 5190)) none chosen is_chosen

channel_to_frequency_mhz_iff_example :
    ((channel_to_frequency_mhz (some (pos 36)) ghz5 ≡ ok (pos 5180))
      ↔ ((pos 0 <ℤ pos 36) × (channel_to_frequency (pos 36) ghz5 ≡ some (pos 5180))))
    × (channel_to_frequency_mhz (some (pos 36)) ghz5 ≡ ok (pos 5180)
        → frequency_to_band (some (pos 5180)) ≡ some ghz5)
channel_to_frequency_mhz_iff_example = channel_to_frequency_mhz_iff (pos 36) ghz5 (pos 5180)

abbrev at_first : CoverageDecision
at_first = record {
  requested = chosen;
  covered_bssids = [];
  partial_bssids = "b" ∷ [];
  status = partial;
  warning = some "advertised 80 MHz is not fully covered by actual 40 MHz capture";
}

abbrev updated : CoverageDecision
updated = update_fixed_capture_coverage at_first "a" chosen chosen

update_fixed_capture_coverage_lem_example :
    (has_evidence chosen chosen ≡ false → updated ≡ at_first)
    × (has_evidence chosen chosen ≡ true
        → (has_text updated.covered_bssids "a"
            ≡ (if str_eq "a" "a" then fits chosen chosen else has_text at_first.covered_bssids "a"))
          × (has_text updated.partial_bssids "a" ≡ (
              if str_eq "a" "a"
              then not (fits chosen chosen)
              else has_text at_first.partial_bssids "a")))
update_fixed_capture_coverage_lem_example =
    update_fixed_capture_coverage_lem at_first "a" chosen chosen "a"

at_first-IsConsistent : IsConsistent at_first
at_first-IsConsistent = record {
  disjoint = λ y. refl;
  when_complete = λ e. absurd (cc);
  when_partial = λ e. refl;
}

abbrev events : List Event
events = heard "a" chosen chosen ∷ pruned ("a" ∷ []) none true ∷ []

track-IsConsistent_example : IsConsistent (track at_first events)
track-IsConsistent_example = track-IsConsistent at_first events at_first-IsConsistent

abbrev first_observation : BssidChannelObservation
first_observation = record { bssid = "a"; definition = chosen; observed_at = pos 9 }

abbrev observations : List BssidChannelObservation
observations =
    first_observation ∷ (record { bssid = "b"; definition = chosen; observed_at = pos 1 }) ∷ []

abbrev radio : RadioCapabilities
radio = record {
  supported_widths = mhz20 ∷ mhz40 ∷ [];
  supported_frequencies_mhz = pos 5180 ∷ pos 5200 ∷ [];
  supports_monitor = true;
  supports_puncturing = false;
}

choose_capture_definition-Promises_example :
    (ht20 : ChannelDefinition) × (d : CoverageDecision) × (fallback_definition (pos 5180) ≡ ok ht20)
    × (choose_capture_definition observations (pos 5180) radio (pos 10) (pos 5) ≡ ok d)
    × ((o : BssidChannelObservation)
        → Memᴰ o (collect (is_fresh (pos 5180) (pos 10) (pos 5)) [] observations)
        → Memᴰ o observations × (is_fresh (pos 5180) (pos 10) (pos 5) o ≡ true))
    × Promises radio ht20 (collect (is_fresh (pos 5180) (pos 10) (pos 5)) [] observations) d
choose_capture_definition-Promises_example =
    choose_capture_definition-Promises observations (pos 5180) radio (pos 10) (pos 5)
      one_is_positive

abbrev rows : List ℤ
rows = pos 7 ∷ pos 8 ∷ []

abbrev later_seconds : List ℤ
later_seconds = pos 8 ∷ []

filter_rows-include_history_example :
    (filter_rows new_filter rows ≡ filter (include_history new_filter) rows)
    × (filter_rows (observe_all new_filter (pos 7 ∷ later_seconds)) rows
        ≡ filter (ltb_ℤ (pos 7)) rows)
    × (collecting (observe_all new_filter (pos 7 ∷ later_seconds)) ≡ true)
filter_rows-include_history_example =
    filter_rows-include_history new_filter rows (pos 7) later_seconds

passes : is_fresh (pos 5180) (pos 10) (pos 5) first_observation ≡ true
unfolding is_fresh wlanpi_utilization.Prelude.◌-ℤ◌
passes = refl

collect-IsKept_example :
    IsKept (collect (is_fresh (pos 5180) (pos 10) (pos 5)) [] observations) first_observation
collect-IsKept_example =
    collect-IsKept (is_fresh (pos 5180) (pos 10) (pos 5)) [] observations first_observation
      (head refl) passes

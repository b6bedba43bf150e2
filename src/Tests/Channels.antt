-- ===== src/Tests/Channels.antt =====
-- Applications to channel.py: a VHT beacon of channel 36, an 80 MHz channel and its parts.
use wlanpi_utilization.Prelude.{
  ℕ, ◌≤◌, ◌+◌, ℤ, pos, ◌≡◌, refl, ◌↔◌, true, Option, none, some, [], ◌∷◌, ok, ◌<ℤ◌, arith,
}
use wlanpi_utilization.Channel.Frequency.{ghz5, Band, frequency_to_channel, channel_to_frequency}
use wlanpi_utilization.Channel.Frequency.RoundTrip.{frequency_to_channel_iff}
use wlanpi_utilization.Channel.Definition.{
  mhz20, mhz40, mhz80, ChannelDefinition, defaults, contains, active_20mhz_centers,
}
use wlanpi_utilization.Channel.Definition.Centers.{contains_trans}
use wlanpi_utilization.Channel.Operation.{
  OperationFields, Primary, primary_of, advertised_channel, resolve_operation, operation_definition,
  definition_from_operation_fields,
}
use wlanpi_utilization.Channel.Operation.Branches.{IsSound}
use wlanpi_utilization.Channel.Operation.Sound.{
  definition_from_operation_fields-IsSound, definition_from_operation_fields_total,
}
use wlanpi_utilization.Channel.Hysteresis.{fresh, consider}
use wlanpi_utilization.Channel.Hysteresis.Stability.{Call, Streak, run, consider-Streak}

frequency_to_channel_iff_example :
    (frequency_to_channel (pos 5180) ≡ some (pos 36))
    ↔ ((b : Band) × (channel_to_frequency (pos 36) b ≡ some (pos 5180)))
frequency_to_channel_iff_example = frequency_to_channel_iff (pos 5180) (pos 36)

abbrev wide : ChannelDefinition
wide = record (defaults (pos 5180)) { width = mhz80; center_frequency1_mhz = some (pos 5210) }

abbrev half : ChannelDefinition
half = record (defaults (pos 5180)) { width = mhz40; center_frequency1_mhz = some (pos 5190) }

abbrev narrow : ChannelDefinition
narrow = record (defaults (pos 5180)) { center_frequency1_mhz = some (pos 5180) }

contains_trans_example : contains wide narrow ≡ true
unfolding contains active_20mhz_centers
contains_trans_example = contains_trans wide half narrow refl refl

abbrev beacon : OperationFields
beacon = record {
  band = ghz5;
  fallback_primary_frequency_mhz = some (pos 5180);
  ds_primary_channel = none;
  ht_primary_channel = some (pos 36);
  ht_secondary_offset = some (pos 1);
  vht_width = some (pos 1);
  vht_center0 = some (pos 42);
  vht_center1 = some (pos 0);
  he_primary_channel = none;
  he_width = none;
  he_center0 = none;
  he_center1 = none;
  eht_width = none;
  eht_center0 = none;
  eht_center1 = none;
  puncturing_bitmap = none;
}

abbrev beacon_channel : ChannelDefinition
beacon_channel = record (defaults (pos 5180)) {
  width = mhz80;
  center_frequency1_mhz = some (pos 5210);
  primary_channel = some (pos 36);
  phy = "vht";
}

beacon_resolves : definition_from_operation_fields beacon ≡ ok (some beacon_channel)
unfolding definition_from_operation_fields resolve_operation primary_of operation_definition
    channel_to_frequency wlanpi_utilization.Channel.Definition.post_init active_20mhz_centers
    wlanpi_utilization.Channel.Definition.fill_center
    wlanpi_utilization.Channel.Operation.segment_frequency
    wlanpi_utilization.Channel.Definition.lacks_second_center
beacon_resolves = refl

definition_from_operation_fields-IsSound_example :
    (p : Primary) × (primary_of beacon (advertised_channel beacon) ≡ some p)
    × IsSound p.frequency beacon_channel
definition_from_operation_fields-IsSound_example =
    definition_from_operation_fields-IsSound beacon beacon_channel beacon_resolves

positive_fallback : (f : ℤ) → some (pos 5180) ≡ some f → pos 0 <ℤ f
positive_fallback f e = ground arith

definition_from_operation_fields_total_example :
    (r : Option ChannelDefinition) × (definition_from_operation_fields beacon ≡ ok r)
definition_from_operation_fields_total_example =
    definition_from_operation_fields_total beacon positive_fallback

abbrev call : ℕ → Call
call now = record { requested = wide; actual = narrow; now = now }

settled : (consider (run (fresh 2 3) (call 2 ∷ call 1 ∷ [])) wide narrow 4).1 ≡ true
unfolding consider run wlanpi_utilization.Channel.Definition.same_tuning
    wlanpi_utilization.Channel.Hysteresis.same_definition
settled = refl

consider-Streak_example :
    (c : ChannelDefinition) × (count : ℕ) × (since : ℕ) × Streak c count since
      (call 4 ∷ call 2 ∷ call 1 ∷ [])
    × (3 ≤ count)
    × (since + 2 ≤ 4)
consider-Streak_example = consider-Streak 2 3 (call 2 ∷ call 1 ∷ []) (call 4) settled

-- ===== src/Tests/Projections.antt =====
-- Applications to the frames of an access point and its client.
use wlanpi_utilization.Prelude.{pos, ◌≡◌, refl, true, false, some, none, List, [], ◌∷◌, String}
use wlanpi_utilization.Analyzer.Projection.{AddressOperations, RetainedFrame, empty_projection}
use wlanpi_utilization.Analyzer.Projection.Live.{accumulate_all}
use wlanpi_utilization.Analyzer.Projection.Batch.{project_frames}
use wlanpi_utilization.Channel.Definition.{defaults}
use wlanpi_utilization.Frames.{BeaconRecord}
use wlanpi_utilization.Analyzer.Projection.Scoped.{
  streaming_scope, batch_scope, project_frames-accumulate_all,
}

-- An address is a text of six octets that are all 2.
abbrev operations : AddressOperations
operations = record {
  texts = record { before_colon = λ t. t; int16 = λ t. some (pos 2) };
  canonical = λ t. t;
  octets = λ t. t ∷ t ∷ t ∷ t ∷ t ∷ t ∷ [];
  text_length = λ t. 2;
}

abbrev sent : RetainedFrame
sent = record {
  timestamp = pos 10;
  bssid = some "ap";
  frame_type = some 2;
  frame_subtype = some 0;
  retry_flag = some true;
  transmitter_address = some "client";
  receiver_address = some "ap";
  source_address = none;
  destination_address = none;
  has_bad_fcs = false;
  rssi_dbm = none;
  transmitter_vendor = none;
  receiver_vendor = none;
}

abbrev frames : List RetainedFrame
frames =
    sent
    ∷ record sent { timestamp = pos 11; has_bad_fcs = true }
    ∷ record sent { timestamp = pos 12 }
    ∷ []

abbrev known : List (String × String)
known = ("ap", "ap") ∷ []

abbrev beacon : BeaconRecord
beacon = record {
  beacon_timestamp = pos 9;
  beacon_ssid = none;
  beacon_bssid = "ap";
  beacon_cu_raw = none;
  beacon_station_count = none;
  beacon_capacity = none;
  beacon_rssi_dbm = none;
  interval_tu = none;
  beacon_ap_name = none;
  beacon_vendor = none;
  beacon_channel = some (defaults (pos 5180));
}

abbrev beacons : List (String × List BeaconRecord)
beacons =
    ("ap", beacon ∷ record beacon { beacon_timestamp = pos 11; beacon_channel = none } ∷ []) ∷ []

project_frames-accumulate_all_example :
    project_frames operations known (batch_scope beacons (some (pos 5180)) (pos 10)) frames
    ≡ some (
        accumulate_all operations known
          (streaming_scope beacons (some (pos 5180)) (pos 10))
          empty_projection
          frames)
project_frames-accumulate_all_example =
    project_frames-accumulate_all operations known beacons (some (pos 5180)) (pos 10) (pos 9) frames
      refl refl

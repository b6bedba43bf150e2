-- ===== src/Tests/Receptions.antt =====
-- Applications to a data frame and its addresses.
use wlanpi_utilization.Prelude.{pos, ◌≡◌, true, false, ◌||◌, none, some, String, has_text}
use wlanpi_utilization.Frames.{
  TextOperations, FrameRecord, is_beacon, retry_eligible, mac_addresses,
}
use wlanpi_utilization.Frames.Eligible.{
  counts_for_retries, retry_eligible-counts_for_retries, is_text, Distinct, mac_addresses-Distinct,
}

-- Every text stands for an even octet.
abbrev unicast : TextOperations
unicast = record { before_colon = λ t. t; int16 = λ t. some (pos 2) }

abbrev frame : FrameRecord
frame = record {
  timestamp = pos 1;
  bssid = some "a";
  ssid = none;
  rssi_dbm = none;
  frame_type = some 2;
  frame_subtype = some 0;
  retry_flag = some true;
  beacon_interval_tu = none;
  qbss_cu_raw = none;
  qbss_station_count = none;
  qbss_admission_capacity = none;
  transmitter_address = some "h";
  receiver_address = some "a";
  source_address = some "h";
  destination_address = none;
  ap_name = none;
  vendor = none;
  channel_definition = none;
  fcs_status = some 1;
  radiotap_bad_fcs = none;
}

retry_eligible-counts_for_retries_example :
    (retry_eligible unicast frame ≡ counts_for_retries unicast frame)
    × (is_beacon frame ≡ true → retry_eligible unicast frame ≡ false)
retry_eligible-counts_for_retries_example = retry_eligible-counts_for_retries unicast frame

mac_addresses-Distinct_example :
    Distinct (mac_addresses frame)
    × ((b : String)
        → has_text (mac_addresses frame) b ≡ (
            is_text (some "a") b
            || is_text (some "h") b
            || is_text (some "a") b
            || is_text (some "h") b
            || is_text none b))
mac_addresses-Distinct_example = mac_addresses-Distinct frame

-- ===== src/Frames.antt =====
-- The frames of models.py and what they count for. A time is an integer of some unit. Fields of
-- `FrameRecord` that none of its properties reads are left out, as is `qbss_cu_percent`, which is
-- `qbss_cu_raw` in another unit. The two operations on texts that `_is_group_address` calls, `str.split`
-- and `int` to the base 16, are an argument.
pub mod Eligible
use wlanpi_utilization.Prelude.{
  ℕ, ◌==◌, ℤ, floor_mod, eq_ℤ, Bool, true, false, not, ◌&&◌, ◌||◌, Option, none, some, List, [],
  ◌∷◌, ◌++◌, any, String, str_eq, has_text, if◌then◌else◌,
}
use wlanpi_utilization.Channel.Definition.{ChannelDefinition}

-- `text.split(":", 1)[0]`, and `int(text, 16)`, which is `none` where it raises.
pub record TextOperations : Type 0 where
  pub before_colon : String → String
  pub int16 : String → Option ℤ

pub record FrameRecord : Type 0 where
  pub timestamp : ℤ
  pub bssid : Option String
  pub ssid : Option String
  pub rssi_dbm : Option ℤ
  pub frame_type : Option ℕ
  pub frame_subtype : Option ℕ
  pub retry_flag : Option Bool
  pub beacon_interval_tu : Option ℕ
  pub qbss_cu_raw : Option ℕ
  pub qbss_station_count : Option ℕ
  pub qbss_admission_capacity : Option ℕ
  pub transmitter_address : Option String
  pub receiver_address : Option String
  pub source_address : Option String
  pub destination_address : Option String
  pub ap_name : Option String
  pub vendor : Option String
  pub channel_definition : Option ChannelDefinition
  pub fcs_status : Option ℕ
  pub radiotap_bad_fcs : Option Bool

pub data ExclusionReason : Type 0 where
  bad_fcs group_address missing_retry_bit non_retryable_frame_type : ExclusionReason

unfoldable pub is_group_address : TextOperations → String → Bool
is_group_address O address = elim (O.int16 (O.before_colon address)) [
  | none ↦ false
  | some first_octet ↦ floor_mod first_octet 2 == 1
]

abbrev pub is_group : TextOperations → Option String → Bool
is_group O none = false
is_group O (some address) = is_group_address O address

-- `frame_subtype not in {0, 1, 2, 3, 5, 9, 10, 11, 12, 13}`, negated.
unfoldable pub is_retried_subtype : Option ℕ → Bool
is_retried_subtype none = false
is_retried_subtype (some n) = any (λ k. n == k) (0 ∷ 1 ∷ 2 ∷ 3 ∷ 5 ∷ 9 ∷ 10 ∷ 11 ∷ 12 ∷ 13 ∷ [])

abbrev pub is_number : Option ℕ → ℕ → Bool
is_number none k = false
is_number (some n) k = n == k

-- The function `retry_exclusion_reason` of frame-like data.
unfoldable pub exclusion_reason :
    TextOperations
    → Option ℕ
    → Option ℕ
    → Option Bool
    → Option String
    → Option String
    → Option ExclusionReason
exclusion_reason O kind subtype none receiver destination =
    if is_group O receiver || is_group O destination
    then some group_address
    else some missing_retry_bit
exclusion_reason O kind subtype (some retry) receiver destination =
    if is_group O receiver || is_group O destination
    then some group_address
    else if is_number kind 0
    then (if not (is_retried_subtype subtype) then some non_retryable_frame_type else none)
    else if not (is_number kind 2)
    then some non_retryable_frame_type
    else none

abbrev pub is_true : Option Bool → Bool
is_true none = false
is_true (some b) = b

abbrev pub has_bad_fcs : FrameRecord → Bool
has_bad_fcs f = is_true f.radiotap_bad_fcs || is_number f.fcs_status 0

abbrev pub is_management_frame : FrameRecord → Bool
is_management_frame f = is_number f.frame_type 0

abbrev pub is_beacon : FrameRecord → Bool
is_beacon f = is_management_frame f && is_number f.frame_subtype 8

-- The property of a frame.
unfoldable pub retry_exclusion_reason : TextOperations → FrameRecord → Option ExclusionReason
retry_exclusion_reason O f =
    if has_bad_fcs f
    then some bad_fcs
    else exclusion_reason O f.frame_type f.frame_subtype f.retry_flag f.receiver_address
        f.destination_address

unfoldable pub retry_eligible : TextOperations → FrameRecord → Bool
retry_eligible O f = elim (retry_exclusion_reason O f) [ none ↦ true | some reason ↦ false ]

-- The loop's body, and the five addresses in its order.
unfoldable pub append_address : List String → Option String → List String
append_address addresses none = addresses
append_address addresses (some a) =
    if has_text addresses a then addresses else addresses ++ (a ∷ [])

unfoldable pub mac_addresses : FrameRecord → List String
mac_addresses f =
    append_address
      (append_address
        (append_address (append_address (append_address [] f.bssid) f.transmitter_address)
          f.receiver_address)
        f.source_address)
      f.destination_address

pub record BeaconRecord : Type 0 where
  pub beacon_timestamp : ℤ
  pub beacon_ssid : Option String
  pub beacon_bssid : String
  pub beacon_cu_raw : Option ℕ
  pub beacon_station_count : Option ℕ
  pub beacon_capacity : Option ℕ
  pub beacon_rssi_dbm : Option ℤ
  pub interval_tu : Option ℕ
  pub beacon_ap_name : Option String
  pub beacon_vendor : Option String
  pub beacon_channel : Option ChannelDefinition

unfoldable pub beacon_record : FrameRecord → Option BeaconRecord
beacon_record f = elim f.bssid [
  | none ↦ none
  | some bssid ↦
      if not (is_beacon f) || has_bad_fcs f
      then none
      else some (record {
        beacon_timestamp = f.timestamp;
        beacon_ssid = f.ssid;
        beacon_bssid = bssid;
        beacon_cu_raw = f.qbss_cu_raw;
        beacon_station_count = f.qbss_station_count;
        beacon_capacity = f.qbss_admission_capacity;
        beacon_rssi_dbm = f.rssi_dbm;
        interval_tu = f.beacon_interval_tu;
        beacon_ap_name = f.ap_name;
        beacon_vendor = f.vendor;
        beacon_channel = f.channel_definition;
      })
]

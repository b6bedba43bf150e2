-- ===== src/Hosts.antt =====
-- The bounded host details of host_tracking.py. A time is an integer of some unit, and `none` as a
-- vendor's time is the source's minus infinity; the map is an association list in its order.
pub mod Bounds
use wlanpi_utilization.Prelude.{
  ℕ, ◌+◌, leb, ℤ, leb_ℤ, Bool, true, false, not, ◌&&◌, ◌||◌, Option, none, some, List, [], ◌∷◌,
  length, String, str_eq, if◌then◌else◌,
}

-- MAX_HOST_DETAILS
abbrev pub max_host_details : ℕ
max_host_details = 1024

-- The fields of a frame that are read.
pub record HostFrame : Type 0 where
  pub timestamp : ℤ
  pub transmitter_address : Option String
  pub receiver_address : Option String
  pub is_retry : Bool
  pub rssi_dbm : Option ℤ
  pub transmitter_vendor : Option String
  pub receiver_vendor : Option String

pub record HostSummary : Type 0 where
  pub bssid : String
  pub last_activity : ℤ
  pub last_tx_timestamp : Option ℤ
  pub last_tx_rssi_dbm : Option ℤ
  pub vendor : Option String
  pub vendor_timestamp : Option ℤ
  pub tx_frames : ℕ
  pub rx_frames : ℕ
  pub tx_eligible : ℕ
  pub tx_retries : ℕ

abbrev pub new_host : String → ℤ → HostSummary
new_host bssid timestamp = record {
  bssid = bssid;
  last_activity = timestamp;
  last_tx_timestamp = none;
  last_tx_rssi_dbm = none;
  vendor = none;
  vendor_timestamp = none;
  tx_frames = 0;
  rx_frames = 0;
  tx_eligible = 0;
  tx_retries = 0;
}

-- A Boolean that is added to a count.
abbrev pub counted : Bool → ℕ
counted true = 1
counted false = 0

abbrev pub is_address : String → Option String → Bool
is_address mac none = false
is_address mac (some a) = str_eq mac a

-- `earlier is None or t >= earlier`
abbrev pub is_since : Option ℤ → ℤ → Bool
is_since none t = true
is_since (some earlier) t = leb_ℤ earlier t

-- The last activity, the last transmission and the vendor, each where the new one is not older.
unfoldable pub put_activity : HostSummary → String → ℤ → HostSummary
put_activity h bssid t =
    if leb_ℤ h.last_activity t then record h { last_activity = t; bssid = bssid } else h

unfoldable pub put_transmission : HostSummary → ℤ → Option ℤ → HostSummary
put_transmission h t rssi =
    if is_since h.last_tx_timestamp t
    then record h { last_tx_timestamp = some t; last_tx_rssi_dbm = rssi }
    else h

unfoldable pub put_vendor : HostSummary → Option String → Option ℤ → HostSummary
put_vendor h none t = h
put_vendor h (some v) none =
    if not (str_eq v "") && is_never h.vendor_timestamp
    then record h { vendor = some v; vendor_timestamp = none }
    else h
  where
    is_never : Option ℤ → Bool
    is_never none = true
    is_never (some t) = false
put_vendor h (some v) (some t) =
    if not (str_eq v "") && is_since h.vendor_timestamp t
    then record h { vendor = some v; vendor_timestamp = some t }
    else h

unfoldable pub count_frame : HostSummary → Bool → Bool → Bool → Bool → HostSummary
count_frame h transmitted received eligible retry = record h {
  tx_frames = h.tx_frames + counted transmitted;
  rx_frames = h.rx_frames + counted received;
  tx_eligible = h.tx_eligible + counted (transmitted && eligible);
  tx_retries = h.tx_retries + counted (transmitted && eligible && retry);
}

unfoldable pub put_sent : HostSummary → Bool → HostFrame → HostSummary
put_sent h true frame = put_transmission h frame.timestamp frame.rssi_dbm
put_sent h false frame = h

unfoldable pub put_merged : HostSummary → Option ℤ → Option ℤ → HostSummary
put_merged h none rssi = h
put_merged h (some t) rssi = put_transmission h t rssi

unfoldable pub observe : HostSummary → String → HostFrame → String → Bool → HostSummary
observe h mac frame bssid eligible =
    let transmitted = is_address mac frame.transmitter_address in
    let active = put_activity h bssid frame.timestamp in
    let counts =
      count_frame active transmitted (is_address mac frame.receiver_address) eligible
        frame.is_retry in
    put_vendor (put_sent counts transmitted frame)
      (if transmitted then frame.transmitter_vendor else frame.receiver_vendor)
      (some frame.timestamp)

unfoldable pub merge : HostSummary → HostSummary → HostSummary
merge h source =
    let counts = record h {
      tx_frames = h.tx_frames + source.tx_frames;
      rx_frames = h.rx_frames + source.rx_frames;
      tx_eligible = h.tx_eligible + source.tx_eligible;
      tx_retries = h.tx_retries + source.tx_retries;
    } in
    let active = put_activity counts source.bssid source.last_activity in
    put_vendor (put_merged active source.last_tx_timestamp source.last_tx_rssi_dbm) source.vendor
      source.vendor_timestamp

-- `hosts.get(mac)`, and the assignment of an entry that is there.
unfoldable pub get_host : List (String × HostSummary) → String → Option HostSummary
get_host [] mac = none
get_host ((m, h) ∷ hosts) mac =
    let rest = get_host hosts mac in if str_eq m mac then some h else rest

unfoldable pub put_host :
    List (String × HostSummary) → String → HostSummary → List (String × HostSummary)
put_host [] mac host = (mac, host) ∷ []
put_host ((m, h) ∷ hosts) mac host =
    let rest = put_host hosts mac host in if str_eq m mac then (m, host) ∷ hosts else (m, h) ∷ rest

unfoldable pub observe_host :
    List (String × HostSummary)
    → String
    → HostFrame
    → String
    → Bool
    → List (String × HostSummary) × Bool
observe_host hosts mac frame bssid eligible = elim (get_host hosts mac) [
  | some host ↦ (put_host hosts mac (observe host mac frame bssid eligible), false)
  | none ↦ if leb max_host_details (length hosts) then (hosts, true) else (
    put_host hosts mac (observe (new_host bssid frame.timestamp) mac frame bssid eligible),
    false,
  )
]

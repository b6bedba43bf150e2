-- ===== src/Analyzer/Projection.antt =====
-- The projection of a second's frames in analyzer.py, twice as in the source: frame by frame, as a
-- live stream is classified, and in one pass over a tuple. Sets of texts are ascending lists,
-- dictionaries association lists. Whether a frame is in the scope of the primary is an argument here
-- and given by Scoped, as the analyzer calls them; the operations on texts are an argument.
pub mod Live
pub mod Batch
pub mod Times
pub mod Clients
pub mod Agree
pub mod Scoped
use wlanpi_utilization.Prelude.{
  ℕ, ◌+◌, ◌==◌, ℤ, pos, eq_ℤ, floor_mod, ltb_ℤ, Bool, true, false, not, ◌&&◌, ◌||◌, Option, none,
  some, is_some, List, [], ◌∷◌, ◌++◌, length, all, any, String, str_eq, has_text, insert_text,
  if◌then◌else◌,
}
use wlanpi_utilization.Frames.{TextOperations, exclusion_reason, append_address, is_true, is_number}
use wlanpi_utilization.Hosts.{HostFrame, HostSummary, counted, observe_host}

-- `strip().lower()`, `split(":")`, the length of a text, and the operations of the retry exclusion.
pub record AddressOperations : Type 0 where
  pub texts : TextOperations
  pub canonical : String → String
  pub octets : String → List String
  pub text_length : String → ℕ

pub record RetainedFrame : Type 0 where
  pub timestamp : ℤ
  pub bssid : Option String
  pub frame_type : Option ℕ
  pub frame_subtype : Option ℕ
  pub retry_flag : Option Bool
  pub transmitter_address : Option String
  pub receiver_address : Option String
  pub source_address : Option String
  pub destination_address : Option String
  pub has_bad_fcs : Bool
  pub rssi_dbm : Option ℤ
  pub transmitter_vendor : Option String
  pub receiver_vendor : Option String

pub record BssidFrameSummary : Type 0 where
  pub frames : ℕ
  pub observed : ℕ
  pub eligible : ℕ
  pub retries : ℕ
  pub first_timestamp : Option ℤ
  pub last_timestamp : Option ℤ
  pub client_macs : List String

abbrev pub new_summary : BssidFrameSummary
new_summary = record {
  frames = 0;
  observed = 0;
  eligible = 0;
  retries = 0;
  first_timestamp = none;
  last_timestamp = none;
  client_macs = [];
}

-- The fields of a projection but `frame_count`.
pub record Tally : Type 0 where
  pub retry_observed_count : ℕ
  pub retry_eligible_count : ℕ
  pub retry_count : ℕ
  pub by_bssid : List (String × BssidFrameSummary)
  pub unique_client_macs : List String
  pub hosts : List (String × HostSummary)
  pub hosts_limited : Bool

pub record FrameProjection : Type 0 where
  pub frame_count : ℕ
  pub tally : Tally

abbrev pub empty_tally : Tally
empty_tally = record {
  retry_observed_count = 0;
  retry_eligible_count = 0;
  retry_count = 0;
  by_bssid = [];
  unique_client_macs = [];
  hosts = [];
  hosts_limited = false;
}

abbrev pub empty_projection : FrameProjection
empty_projection = record { frame_count = 0; tally = empty_tally }

-- `by_bssid.get(bssid)`, and the assignment.
unfoldable pub get_summary : List (String × BssidFrameSummary) → String → Option BssidFrameSummary
get_summary [] b = none
get_summary ((k, s) ∷ rest) b =
    let later = get_summary rest b in if str_eq k b then some s else later

unfoldable pub put_summary :
    List (String × BssidFrameSummary)
    → String
    → BssidFrameSummary
    → List (String × BssidFrameSummary)
put_summary [] b s = (b, s) ∷ []
put_summary ((k, old) ∷ rest) b s =
    let later = put_summary rest b s in if str_eq k b then (k, s) ∷ rest else (k, old) ∷ later

-- `known_by_address.get(address)`
unfoldable pub known_bssid : List (String × String) → String → Option String
known_bssid [] a = none
known_bssid ((k, b) ∷ rest) a =
    let later = known_bssid rest a in if str_eq k a then some b else later

unfoldable pub is_eligible : AddressOperations → RetainedFrame → Bool
is_eligible O f =
    not f.has_bad_fcs
    && not (
        is_some (
          exclusion_reason O.texts f.frame_type f.frame_subtype f.retry_flag f.receiver_address
            f.destination_address))

unfoldable pub frame_addresses : RetainedFrame → List String
frame_addresses f =
    append_address
      (append_address
        (append_address (append_address (append_address [] f.bssid) f.transmitter_address)
          f.receiver_address)
        f.source_address)
      f.destination_address

-- The loop of `_associated_bssid`, and its result.
unfoldable pub first_known :
    AddressOperations → List (String × String) → List String → Option String
first_known O known [] = none
first_known O known (a ∷ rest) =
    let later = first_known O known rest in
    elim (known_bssid known (O.canonical a)) [ some b ↦ some b | none ↦ later ]

unfoldable pub associated_bssid :
    AddressOperations → List (String × String) → RetainedFrame → Option String
unfolding first_known frame_addresses
associated_bssid O known f = elim (first_known O known (frame_addresses f)) [
  | some b ↦ some b
  | none ↦ f.bssid
]

-- The loop of `_known_frame_bssid`.
unfoldable pub first_canonical :
    AddressOperations → List (String × String) → List String → Option String
first_canonical O known [] = none
first_canonical O known (a ∷ rest) =
    let later = first_canonical O known rest in
    if is_some (known_bssid known (O.canonical a)) then some (O.canonical a) else later

unfoldable pub known_frame_bssid :
    AddressOperations → List (String × String) → RetainedFrame → Option String
unfolding first_canonical frame_addresses
known_frame_bssid O known f = first_canonical O known (frame_addresses f)

unfoldable pub octet_values : AddressOperations → List String → Option (List ℤ)
octet_values O [] = some []
octet_values O (o ∷ os) = elim (O.texts.int16 o) [
  | none ↦ none
  | some v ↦ elim (octet_values O os) [ none ↦ none | some vs ↦ some (v ∷ vs) ]
]

abbrev pub is_unicast : List ℤ → Bool
is_unicast [] = false
is_unicast (v ∷ vs) = any (λ n. not (eq_ℤ n (pos 0))) (v ∷ vs) && not (floor_mod v 2 == 1)

unfoldable pub is_unicast_mac : AddressOperations → String → Bool
unfolding octet_values
is_unicast_mac O a =
    let parts = O.octets a in
    length parts == 6
    && all (λ o. O.text_length o == 2) parts
    && elim (octet_values O parts) [ none ↦ false | some vs ↦ is_unicast vs ]

-- The tuple of the canonical transmitter and receiver.
abbrev pub canonical_list : AddressOperations → Option String → List String
canonical_list O none = []
canonical_list O (some a) = O.canonical a ∷ []

abbrev pub link_addresses : AddressOperations → RetainedFrame → List String
link_addresses O f = canonical_list O f.transmitter_address ++ canonical_list O f.receiver_address

abbrev pub host_frame : RetainedFrame → HostFrame
host_frame f = record {
  timestamp = f.timestamp;
  transmitter_address = f.transmitter_address;
  receiver_address = f.receiver_address;
  is_retry = is_true f.retry_flag;
  rssi_dbm = f.rssi_dbm;
  transmitter_vendor = f.transmitter_vendor;
  receiver_vendor = f.receiver_vendor;
}

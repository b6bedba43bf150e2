-- ===== src/Analyzer/Selection.antt =====
-- How analyzer.py chooses the BSSIDs that the screens feature.
pub mod Stable
pub mod Retries
pub mod Maxima
pub mod Extremal
pub mod Stations
use wlanpi_utilization.Prelude.{
  ℤ, pos, negsuc, ◌-ℤ◌, eq_ℤ, ltb_ℤ, leb_ℤ, ℕ, ◌*◌, ◌==◌, ltb, String, str_eq, str_lt, Bool, true,
  false, not, ◌&&◌, ◌||◌, Option, none, some, is_some, List, [], ◌∷◌, ◌++◌, filter, any, map,
  first_best, Result, ok, value_error, if◌then◌else◌,
}

-- The fields of `BssidState` of models.py that the choices read; `qbss_present` is the property.
pub record BssidState : Type 0 where
  pub bssid : String
  pub ssid : Option String
  pub latest_station_count : Option ℕ
  pub has_qbss_cu : Bool
  pub peak_rssi_dbm : Option ℤ
  pub window_unique_client_mac_count : ℕ

abbrev pub qbss_present : BssidState → Bool
qbss_present s = s.has_qbss_cu

-- `RetryBssidState`; a percentage is missing where no frame was eligible.
pub record RetryBssidState : Type 0 where
  pub retry_bssid : String
  pub rssi_dbm : Option ℤ
  pub retry_eligible_frame_count : ℕ
  pub window_retry_frame_count : ℕ
  pub has_retry_percent : Bool

-- The numbers of a generator `... for s in states if s.f is not None`.
unfoldable pub some_of {ℓ} : {A : Type ℓ} → (A → Option ℤ) → List A → List ℤ
some_of f [] = []
some_of f (s ∷ ss) = let rest = some_of f ss in elim (f s) [ none ↦ rest | some r ↦ r ∷ rest ]

-- `max(...)` of numbers, where there is one.
unfoldable pub max_ℤ : List ℤ → Option ℤ
max_ℤ [] = none
max_ℤ (x ∷ xs) = some (first_best (λ y x. ltb_ℤ x y) x xs)

unfoldable pub station_count_key : BssidState → ℤ
station_count_key s = elim s.latest_station_count [ none ↦ negsuc 0 | some n ↦ pos n ]

abbrev pub or_rssi : Option ℤ → ℤ
or_rssi none = negsuc 199
or_rssi (some r) = r

-- `strongest_rssi - state.peak_rssi_dbm <= hysteresis_db`
abbrev pub is_near : ℤ → ℤ → Option ℤ → Bool
is_near strongest hysteresis none = false
is_near strongest hysteresis (some r) = leb_ℤ (strongest -ℤ r) hysteresis

unfoldable pub near_equal : List BssidState → ℤ → List BssidState
near_equal candidates hysteresis = elim (max_ℤ (some_of (λ s. s.peak_rssi_dbm) candidates)) [
  | none ↦ candidates
  | some strongest ↦ filter (λ s. is_near strongest hysteresis s.peak_rssi_dbm) candidates
]

unfoldable pub finalists : List BssidState → List BssidState
finalists near = elim (max_ℤ (map station_count_key near)) [
  | none ↦ []
  | some highest ↦ filter (λ s. eq_ℤ (station_count_key s) highest) near
]

-- The order of tuples (rssi is not None, rssi or -200, bssid).
unfoldable pub is_stronger : BssidState → BssidState → Bool
is_stronger a b =
    if is_some a.peak_rssi_dbm && not (is_some b.peak_rssi_dbm)
    then true
    else if is_some b.peak_rssi_dbm && not (is_some a.peak_rssi_dbm)
    then false
    else if eq_ℤ (or_rssi a.peak_rssi_dbm) (or_rssi b.peak_rssi_dbm)
    then str_lt b.bssid a.bssid
    else ltb_ℤ (or_rssi b.peak_rssi_dbm) (or_rssi a.peak_rssi_dbm)

-- `current if any(s.bssid == current for s in finalists) else other`
abbrev pub has_bssid {ℓ} : {A : Type ℓ} → (A → String) → List A → String → Bool
has_bssid name states b = any (λ s. str_eq (name s) b) states

abbrev pub retained {ℓ} : {A : Type ℓ} → (A → String) → List A → Option String → String → String
retained name states none other = other
retained name states (some b) other = if has_bssid name states b then b else other

-- `max` of an empty tuple raises.
unfoldable pub select_finalist : List BssidState → Option String → Result (Option String)
select_finalist [] current = value_error "max() iterable argument is empty"
select_finalist (f ∷ fs) current =
    ok (some (retained (λ s. s.bssid) (f ∷ fs) current (first_best is_stronger f fs).bssid))

unfoldable pub select_candidate : List BssidState → Option String → ℤ → Result (Option String)
select_candidate [] current hysteresis = ok none
select_candidate (c ∷ cs) current hysteresis =
    select_finalist (finalists (near_equal (c ∷ cs) hysteresis)) current

unfoldable pub select_bssid : List BssidState → Option String → ℤ → Result (Option String)
select_bssid states current hysteresis =
    if ltb_ℤ hysteresis (pos 0)
    then value_error "hysteresis_db must not be negative"
    else select_candidate (filter qbss_present states) current hysteresis

-- `_strongest_signal_bssid`: the smallest BSSID of the strongest.
abbrev pub is_before : String → String → Bool
is_before a b = str_lt a b

abbrev pub smallest_bssid : BssidState → List BssidState → String
smallest_bssid s ss = first_best is_before s.bssid (map (λ t. t.bssid) ss)

unfoldable pub strongest_of : List BssidState → Option String → Option String
strongest_of [] current = none
strongest_of (s ∷ ss) current =
    some (retained (λ t. t.bssid) (s ∷ ss) current (smallest_bssid s ss))

abbrev pub has_rssi : ℤ → Option ℤ → Bool
has_rssi strongest none = false
has_rssi strongest (some r) = eq_ℤ r strongest

unfoldable pub strongest_signal_bssid : List BssidState → Option String → Option String
strongest_signal_bssid states current = elim (max_ℤ (some_of (λ s. s.peak_rssi_dbm) states)) [
  | none ↦ strongest_of states current
  | some strongest ↦ strongest_of (filter (λ s. has_rssi strongest s.peak_rssi_dbm) states) current
]

-- `select_retry_bssid`. The quotients of the key are compared by their cross products, as the
-- source does for the finalists.
abbrev pub has_retries : RetryBssidState → Bool
has_retries s = ltb 0 s.window_retry_frame_count && s.has_retry_percent

abbrev pub retries_more : RetryBssidState → RetryBssidState → Bool
retries_more a b =
    ltb (b.window_retry_frame_count * a.retry_eligible_frame_count)
      (a.window_retry_frame_count * b.retry_eligible_frame_count)

abbrev pub retries_same : RetryBssidState → RetryBssidState → Bool
retries_same a b =
    a.window_retry_frame_count * b.retry_eligible_frame_count
    == b.window_retry_frame_count * a.retry_eligible_frame_count

-- The order of tuples (-(rssi or -200), bssid).
abbrev pub is_louder : RetryBssidState → RetryBssidState → Bool
is_louder a b =
    if eq_ℤ (or_rssi a.rssi_dbm) (or_rssi b.rssi_dbm)
    then str_lt a.retry_bssid b.retry_bssid
    else ltb_ℤ (or_rssi b.rssi_dbm) (or_rssi a.rssi_dbm)

unfoldable pub retry_finalist : List RetryBssidState → Option String → Option String
retry_finalist [] current = none
retry_finalist (s ∷ ss) current =
    some (retained (λ t. t.retry_bssid) (s ∷ ss) current (first_best is_louder s ss).retry_bssid)

unfoldable pub retry_candidate : List RetryBssidState → Option String → Option String
retry_candidate [] current = none
retry_candidate (c ∷ cs) current =
    retry_finalist (filter (λ s. retries_same s (first_best retries_more c cs)) (c ∷ cs)) current

unfoldable pub select_retry_bssid :
    List RetryBssidState → List BssidState → Option String → Option String
select_retry_bssid retries beacons current = elim (filter has_retries retries) [
  | [] ↦ strongest_signal_bssid beacons current
  | c ∷ cs ↦ retry_candidate (c ∷ cs) current
]

-- `_top_station`
pub data StationSource : Type 0 where
  qbss mac : StationSource

pub record TopStationSelection : Type 0 where
  pub bssid : String
  pub ssid : Option String
  pub count : ℕ
  pub source : StationSource

abbrev pub qbss_stations : BssidState → List TopStationSelection
qbss_stations s = elim s.latest_station_count [
  | none ↦ []
  | some n ↦ (record { bssid = s.bssid; ssid = s.ssid; count = n; source = qbss }) ∷ []
]

abbrev pub mac_stations : BssidState → List TopStationSelection
mac_stations s =
    if ltb 0 s.window_unique_client_mac_count
    then (record {
      bssid = s.bssid;
      ssid = s.ssid;
      count = s.window_unique_client_mac_count;
      source = mac;
    })
      ∷ []
    else []

unfoldable pub station_candidates : List BssidState → List TopStationSelection
station_candidates [] = []
station_candidates (s ∷ ss) = qbss_stations s ++ mac_stations s ++ station_candidates ss

abbrev pub is_mac : StationSource → Bool
is_mac qbss = false
is_mac mac = true

-- The order of tuples (-count, source is not QBSS, bssid).
abbrev pub is_busier : TopStationSelection → TopStationSelection → Bool
is_busier a b =
    if a.count == b.count
    then (if is_mac a.source
        then is_mac b.source && str_lt a.bssid b.bssid
        else is_mac b.source || str_lt a.bssid b.bssid)
    else ltb b.count a.count

unfoldable pub top_station : List BssidState → Option TopStationSelection
top_station states = elim (station_candidates states) [
  | [] ↦ none
  | c ∷ cs ↦ some (first_best is_busier c cs)
]

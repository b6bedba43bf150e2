-- ===== src/Tests/Measurements.antt =====
-- Applications to the counters of a survey and to the choices among beaconing BSSIDs.
use mathlib.Core.List.Memᴰ.{head, tail}
use wlanpi_utilization.Prelude.{
  ◌*◌, leb, all, all-mem, filter, filter-mem, leb_ℤ, leb_ℤ→le, ◌-ℤ◌, ℕ, ◌≤◌, ℤ, pos, negsuc, ◌≤ℤ◌,
  ◌≡◌, refl, ◌⊎◌, inl, inr, Bool, true, false, Option, none, some, List, [], ◌∷◌, Memᴰ, String, ok,
  arith,
}
use wlanpi_utilization.Survey.{
  SurveySample, Percent, Reason, no_valid_deltas, same_frequency, compute_local_cu_percent,
  empty_result, best_valid_result, paired_samples, deltas,
}
use wlanpi_utilization.Survey.Bounds.{
  IsProportion, compute_local_cu_percent-IsProportion, measured, IsMeasured, IsLongest,
  best_valid_result-Best,
}
use wlanpi_utilization.Survey.Pairing.{IsPaired, paired_samples-IsPaired}
use wlanpi_utilization.Analyzer.Selection.{
  BssidState, RetryBssidState, has_retries, qbss_present, select_bssid, station_count_key,
  select_retry_bssid, top_station, TopStationSelection, station_candidates,
}
use wlanpi_utilization.Analyzer.Selection.Stable.{select_bssid-keeps}
use wlanpi_utilization.Analyzer.Selection.Retries.{
  RetriesMost, HasStrongest, select_retry_bssid-keeps,
}
use wlanpi_utilization.Analyzer.Selection.Extremal.{IsSelected, select_bssid-IsSelected}
use wlanpi_utilization.Analyzer.Selection.Stations.{Counts, top_station-most}

abbrev before : SurveySample
before = record {
  active_ms = some (pos 100);
  busy_ms = some (pos 10);
  frequency_mhz = some (pos 5180);
  in_use = true;
}

abbrev now : SurveySample
now = record {
  active_ms = some (pos 300);
  busy_ms = some (pos 60);
  frequency_mhz = some (pos 5180);
  in_use = true;
}

abbrev quarter : Percent
quarter = record { busy = pos 50; active = pos 200 }

is_quarter : compute_local_cu_percent before now ≡ some quarter
unfolding compute_local_cu_percent deltas wlanpi_utilization.Prelude.◌-ℤ◌
is_quarter = refl

compute_local_cu_percent-IsProportion_example :
    IsProportion (pos 50) (pos 200) × (same_frequency (some (pos 5180)) (some (pos 5180)) ≡ true)
compute_local_cu_percent-IsProportion_example =
    compute_local_cu_percent-IsProportion before now quarter is_quarter

abbrev pairs : List (SurveySample × SurveySample)
pairs = (before, now) ∷ (now, before) ∷ []

best_valid_result-Best_example :
    ((best_valid_result pairs no_valid_deltas none ≡ empty_result no_valid_deltas none)
      × ((q : SurveySample × SurveySample) → Memᴰ q pairs → measured q ≡ none))
    ⊎ ((m : IsMeasured (λ q. Memᴰ q pairs) (best_valid_result pairs no_valid_deltas none))
        × IsLongest (λ q. Memᴰ q pairs) m.pair_deltas.active_delta
        × IsProportion m.pair_deltas.busy_delta m.pair_deltas.active_delta)
best_valid_result-Best_example = best_valid_result-Best pairs no_valid_deltas none

is_pair : Memᴰ (before, now) (paired_samples (before ∷ []) (now ∷ []))
unfolding paired_samples wlanpi_utilization.Survey.pairs_by_frequency
    wlanpi_utilization.Survey.with_frequency
is_pair = head refl

paired_samples-IsPaired_example : IsPaired (before ∷ []) (now ∷ []) (before, now)
paired_samples-IsPaired_example =
    paired_samples-IsPaired (before ∷ []) (now ∷ []) (before, now) is_pair

abbrev near : BssidState
near = record {
  bssid = "a";
  ssid = none;
  latest_station_count = some 2;
  has_qbss_cu = true;
  peak_rssi_dbm = some (negsuc 39);
  window_unique_client_mac_count = 5;
}

abbrev far : BssidState
far = record {
  bssid = "b";
  ssid = none;
  latest_station_count = some 3;
  has_qbss_cu = true;
  peak_rssi_dbm = some (negsuc 41);
  window_unique_client_mac_count = 0;
}

abbrev states : List BssidState
states = near ∷ far ∷ []

three_is_positive : pos 0 ≤ℤ pos 3
three_is_positive = omega arith

select_bssid-IsSelected_example :
    ((select_bssid states (some "a") (pos 3) ≡ ok none)
      × ((t : BssidState) → Memᴰ t states → qbss_present t ≡ false))
    ⊎ ((s : BssidState) × (select_bssid states (some "a") (pos 3) ≡ ok (some s.bssid))
        × IsSelected states (pos 3) s)
select_bssid-IsSelected_example =
    select_bssid-IsSelected states (some "a") (pos 3) three_is_positive

-- As many stations as `far` and a weaker signal.
abbrev tied : BssidState
tied = record far { bssid = "c"; peak_rssi_dbm = some (negsuc 42) }

abbrev tied_states : List BssidState
tied_states = near ∷ far ∷ tied ∷ []

abbrev is_close : Option ℤ → Bool
is_close none = true
is_close (some r) = leb_ℤ (r -ℤ negsuc 42) (pos 3)

all_close : all (λ u. is_close u.peak_rssi_dbm) tied_states ≡ true
unfolding ◌-ℤ◌
all_close = refl

all_fewer : all (λ u. leb_ℤ (station_count_key u) (pos 3)) tied_states ≡ true
unfolding station_count_key
all_fewer = refl

close :
    (u : BssidState) (r : ℤ)
    → Memᴰ u tied_states
    → u.peak_rssi_dbm ≡ some r
    → r -ℤ negsuc 42 ≤ℤ pos 3
close u r m e =
    let t = all-mem (λ u. is_close u.peak_rssi_dbm) tied_states all_close m in
    leb_ℤ→le (r -ℤ negsuc 42) (pos 3) (rw e at t)

tied-IsSelected : IsSelected tied_states (pos 3) tied
unfolding station_count_key
tied-IsSelected = record {
  is_member = tail (tail (head refl));
  is_qbss = refl;
  is_near = λ u r m e. (negsuc 42, refl, close u r (filter-mem qbss_present tied_states m).0 e);
  has_most_stations = λ t m q n.
      leb_ℤ→le (station_count_key t) (pos 3)
        (all-mem (λ u. leb_ℤ (station_count_key u) (pos 3)) tied_states all_fewer m);
}

select_bssid-keeps_example : select_bssid tied_states (some "c") (pos 3) ≡ ok (some "c")
select_bssid-keeps_example =
    select_bssid-keeps tied_states tied (pos 3) three_is_positive tied-IsSelected

-- Two states with the same share of retries.
abbrev louder : RetryBssidState
louder = record {
  retry_bssid = "a";
  rssi_dbm = some (negsuc 39);
  retry_eligible_frame_count = 10;
  window_retry_frame_count = 5;
  has_retry_percent = true;
}

abbrev fainter : RetryBssidState
fainter = record {
  retry_bssid = "b";
  rssi_dbm = some (negsuc 49);
  retry_eligible_frame_count = 4;
  window_retry_frame_count = 2;
  has_retry_percent = true;
}

abbrev retries : List RetryBssidState
retries = louder ∷ fainter ∷ []

fainter-RetriesMost : RetriesMost retries fainter
fainter-RetriesMost = record {
  is_member = tail (head refl);
  retried = refl;
  is_highest = λ t m r.
      let below =
        all-mem (λ u. leb (u.window_retry_frame_count * 4) (2 * u.retry_eligible_frame_count))
          retries refl m in
      ground arith;
}

keeps_fainter : select_retry_bssid retries states (some "b") ≡ some "b"
keeps_fainter = (select_retry_bssid-keeps retries states).0 fainter fainter-RetriesMost

select_retry_bssid-keeps_example :
    ((s : RetryBssidState)
      → RetriesMost retries s
      → select_retry_bssid retries states (some s.retry_bssid) ≡ some s.retry_bssid)
    × ((t : BssidState)
        → filter has_retries retries ≡ []
        → HasStrongest states t
        → select_retry_bssid retries states (some t.bssid) ≡ some t.bssid)
select_retry_bssid-keeps_example = select_retry_bssid-keeps retries states

counts : Counts far 3
counts = inl refl

top_station-most_example :
    (c : TopStationSelection) × (top_station states ≡ some c)
    × Memᴰ c (station_candidates states)
    × (3 ≤ c.count)
top_station-most_example = top_station-most states far 3 (tail (head refl)) counts

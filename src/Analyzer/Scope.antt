-- ===== src/Analyzer/Scope.antt =====
-- The scope of the primary in analyzer.py: whether a frame's BSSID had a definition with the targeted
-- primary when the frame came, twice as in the source. The beacons of a BSSID are kept in the order
-- of their times, which are those of the entries.
pub mod Agree
use wlanpi_utilization.Prelude.{
  ℕ, zero, suc, ◌+◌, ◌-◌, ◌==◌, ℤ, ◌-ℤ◌, eq_ℤ, leb_ℤ, ltb_ℤ, Bool, true, false, not, ◌&&◌, Option,
  none, some, is_some, List, [], ◌∷◌, ◌++◌, filter, get_elem?, map, String, str_eq, if◌then◌else◌,
}
use wlanpi_utilization.Frames.{BeaconRecord}

-- `records.get(bssid)`, an empty list where there are none.
unfoldable pub beacons_of : List (String × List BeaconRecord) → String → List BeaconRecord
beacons_of [] b = []
beacons_of ((k, beacons) ∷ rest) b =
    let later = beacons_of rest b in if str_eq k b then beacons else later

-- `reversed`
unfoldable pub reversed {ℓ} : {A : Type ℓ} → List A → List A
reversed [] = []
reversed (x ∷ xs) = reversed xs ++ x ∷ []

abbrev pub has_definition : BeaconRecord → Bool
has_definition r = is_some r.beacon_channel

-- The loop over the reversed entries.
unfoldable pub first_defined : ℤ → List BeaconRecord → Option BeaconRecord
first_defined t [] = none
first_defined t (r ∷ rs) =
    let later = first_defined t rs in
    if leb_ℤ r.beacon_timestamp t && has_definition r then some r else later

-- What both ask of the latest definition.
unfoldable pub is_targeted : ℤ → ℤ → ℤ → BeaconRecord → Bool
is_targeted target max_age t r =
    not (ltb_ℤ max_age (t -ℤ r.beacon_timestamp))
    && elim r.beacon_channel [ none ↦ false | some d ↦ eq_ℤ d.primary_frequency_mhz target ]

abbrev pub targeted_option : ℤ → ℤ → ℤ → Option BeaconRecord → Bool
targeted_option target max_age t none = false
targeted_option target max_age t (some r) = is_targeted target max_age t r

-- `_streaming_frame_matches_primary_scope`, on the frame's time and the BSSID that it is associated with.
unfoldable pub streaming_matches :
    List (String × List BeaconRecord) → ℤ → ℤ → ℤ → Option String → Bool
unfolding beacons_of reversed first_defined is_targeted
streaming_matches records target max_age t none = false
streaming_matches records target max_age t (some b) =
    targeted_option target max_age t (first_defined t (reversed (beacons_of records b)))

-- `bisect_right` on times that ascend: how many are not after `t`.
unfoldable pub bisect_right : List BeaconRecord → ℤ → ℕ
bisect_right [] t = 0
bisect_right (r ∷ rs) t =
    let later = bisect_right rs t in if leb_ℤ r.beacon_timestamp t then later + 1 else 0

-- `timeline.records[index]` for `index = bisect_right(...) - 1`, if it is not negative.
unfoldable pub latest_at : List BeaconRecord → ℤ → Option BeaconRecord
unfolding bisect_right
latest_at timeline t =
    if bisect_right timeline t == 0 then none else get_elem? timeline (bisect_right timeline t - 1)

-- `_frame_matches_primary_scope` on the timelines of `_retry_scope_entries`: the beacons that have a
-- definition.
unfoldable pub batch_matches : List (String × List BeaconRecord) → ℤ → ℤ → ℤ → Option String → Bool
unfolding beacons_of latest_at is_targeted
batch_matches records target max_age t none = false
batch_matches records target max_age t (some b) =
    targeted_option target max_age t (latest_at (filter has_definition (beacons_of records b)) t)

-- ===== src/Analyzer/Projection/Scoped.antt =====
-- The projections with the scope of the primary, as the analyzer calls them.
use mathlib.Core.Path.{fun_ext}
use wlanpi_utilization.Prelude.{
  ℤ, ◌≡◌, refl, sym, ap, ◌∙◌, Bool, true, Option, none, some, List, String,
}
use wlanpi_utilization.Frames.{BeaconRecord}
use wlanpi_utilization.Analyzer.Scope.{streaming_matches, batch_matches}
use wlanpi_utilization.Analyzer.Scope.Agree.{all_sorted, streaming_matches-batch}
use wlanpi_utilization.Analyzer.Projection.{AddressOperations, RetainedFrame, empty_projection}
use wlanpi_utilization.Analyzer.Projection.Live.{accumulate_all}
use wlanpi_utilization.Analyzer.Projection.Batch.{project_frames}
use wlanpi_utilization.Analyzer.Projection.Agree.{are_ordered, project_frames-accumulate}

-- `target_primary_frequency_mhz is None or ...matches_primary_scope(...)`, in both passes.
unfoldable pub streaming_scope :
    List (String × List BeaconRecord) → Option ℤ → ℤ → RetainedFrame → Option String → Bool
unfolding streaming_matches
streaming_scope records none max_age f b = true
streaming_scope records (some target) max_age f b =
    streaming_matches records target max_age f.timestamp b

unfoldable pub batch_scope :
    List (String × List BeaconRecord) → Option ℤ → ℤ → RetainedFrame → Option String → Bool
unfolding batch_matches
batch_scope records none max_age f b = true
batch_scope records (some target) max_age f b = batch_matches records target max_age f.timestamp b

same_scope :
    (records : List (String × List BeaconRecord)) (start : ℤ) (target : Option ℤ) (max_age : ℤ)
    → all_sorted start records ≡ true
    → batch_scope records target max_age ≡ streaming_scope records target max_age
unfolding batch_scope streaming_scope
same_scope records start none max_age h = refl
same_scope records start (some target) max_age h =
    fun_ext (λ f.
      fun_ext (λ b. sym (streaming_matches-batch records start target max_age f.timestamp b h)))

-- The projection of a tuple of frames never raises `KeyError`, and is the one that the live stream
-- accumulates from the same frames one by one: the counts of frames and retries, the summaries of
-- BSSIDs with their first and last times, the clients and the host details, each within the scope of
-- the targeted primary, if there is one. The frames and the beacons of each BSSID come in the order of
-- their times, and both passes have the same beacons and the same known BSSIDs.
pub project_frames-accumulate_all :
    (O : AddressOperations) (known : List (String × String))
    (records : List (String × List BeaconRecord)) (target : Option ℤ) (max_age start : ℤ)
    (fs : List RetainedFrame)
    → all_sorted start records ≡ true
    → are_ordered start fs ≡ true
    → project_frames O known (batch_scope records target max_age) fs
      ≡ some (accumulate_all O known (streaming_scope records target max_age) empty_projection fs)
project_frames-accumulate_all O known records target max_age start fs h o =
    ap (λ scope. project_frames O known scope fs) (same_scope records start target max_age h)
    ∙ project_frames-accumulate O known (streaming_scope records target max_age) start fs o

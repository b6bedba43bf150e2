-- ===== src/Capture/Coverage.antt =====
-- `CoverageDecision` of channel.py, with `update_fixed_capture_coverage` and
-- `prune_fixed_capture_coverage` of live.py. A status is one of the four strings of the source; the
-- sets of addresses are ascending lists.
pub mod Tracking
use Prim.Native.String.{◌++◌}
use wlanpi_utilization.Prelude.{
  Bool, true, false, not, Option, none, some, List, [], ◌∷◌, filter, ◌&&◌, ◌||◌, String, str_eq,
  eq_ℤ, if◌then◌else◌, insert_text, sorted_set, discard_text, has_text,
}
use wlanpi_utilization.Channel.Definition.{
  mhz20, same_width, width_value, ChannelDefinition, contains,
}

pub data Status : Type 0 where
  complete partial fallback unverified : Status

pub record CoverageDecision : Type 0 where
  pub requested : ChannelDefinition
  pub covered_bssids : List String
  pub partial_bssids : List String
  pub status : Status
  pub warning : Option String

abbrev pub is_empty {ℓ} : {A : Type ℓ} → List A → Bool
is_empty [] = true
is_empty (x ∷ xs) = false

abbrev pub is_partial : Status → Bool
is_partial partial = true
is_partial _ = false

abbrev pub is_fallback : Status → Bool
is_fallback fallback = true
is_fallback _ = false

abbrev pub is_complete : Status → Bool
is_complete complete = true
is_complete _ = false

-- `advertised` was inferred from a 20 MHz capture of its own primary.
unfoldable pub inferred_ht20 : ChannelDefinition → ChannelDefinition → Bool
inferred_ht20 advertised actual =
    str_eq advertised.phy "ht20-capture-inference"
    && same_width actual.width mhz20
    && eq_ℤ advertised.primary_frequency_mhz actual.primary_frequency_mhz

-- Python's `a or b` on an optional text: the empty text is false.
abbrev pub or_text : Option String → String → String
or_text none d = d
or_text (some t) d = if str_eq t "" then d else t

-- The branch that records a covered address.
unfoldable pub cover : CoverageDecision → String → CoverageDecision
cover coverage bssid =
    let covered = insert_text bssid (sorted_set coverage.covered_bssids) in
    let partial_set = discard_text bssid (sorted_set coverage.partial_bssids) in
    let status =
      if is_partial coverage.status && is_empty partial_set then complete else coverage.status in
    record coverage {
      covered_bssids = covered;
      partial_bssids = partial_set;
      status = status;
      warning = if is_complete status then none else coverage.warning;
    }

-- The branch that records an address that the capture covers in part.
unfoldable pub miss :
    CoverageDecision → String → ChannelDefinition → ChannelDefinition → CoverageDecision
miss coverage bssid advertised actual = record coverage {
  covered_bssids = discard_text bssid (sorted_set coverage.covered_bssids);
  partial_bssids = insert_text bssid (sorted_set coverage.partial_bssids);
  status = if is_fallback coverage.status then fallback else partial;
  warning = some (
      or_text advertised.reason (
        "advertised "
        ++ (width_value advertised.width
            ++ (" MHz is not fully covered by actual "
                ++ (width_value actual.width ++ " MHz capture")))));
}

unfoldable pub update_fixed_capture_coverage :
    CoverageDecision → String → ChannelDefinition → ChannelDefinition → CoverageDecision
update_fixed_capture_coverage coverage bssid advertised actual =
    let inferred = inferred_ht20 advertised actual in
    if not inferred && (not advertised.complete || advertised.ambiguous)
    then coverage
    else if inferred
        || (advertised.complete && not advertised.ambiguous && contains actual advertised)
    then cover coverage bssid
    else miss coverage bssid advertised actual

unfoldable pub pruned_status : Option String → Bool → List String → Status
pruned_status (some reason) verified missed = fallback
pruned_status none false missed = unverified
pruned_status none true missed = if is_empty missed then complete else partial

unfoldable pub prune_fixed_capture_coverage :
    CoverageDecision → List String → Option String → Bool → CoverageDecision
prune_fixed_capture_coverage coverage active fallback_reason verified =
    let covered = filter (has_text active) coverage.covered_bssids in
    let missed = filter (has_text active) coverage.partial_bssids in
    let status = pruned_status fallback_reason verified missed in
    record coverage {
      covered_bssids = sorted_set covered;
      partial_bssids = sorted_set missed;
      status = status;
      warning =
          if is_fallback status
          then fallback_reason
          else if not (is_empty missed)
          then coverage.warning
          else none;
    }

-- ===== src/Channel/Choice.antt =====
-- `choose_capture_definition` of channel.py and `RadioCapabilities.supports`. A time is an integer
-- of some unit; `latest` is the list of the dictionary's values, in its order.
pub mod Covered
pub mod Latest
use Prim.Native.String.{◌++◌}
use mathlib.Core.List.{◌++◌ as list_append}
use wlanpi_utilization.Prelude.{
  ℕ, ◌==◌, ltb, ℤ, eq_ℤ, leb_ℤ, ltb_ℤ, ◌-ℤ◌, Bool, true, false, not, ◌&&◌, ◌||◌, Option, none, some,
  is_some, List, [], ◌∷◌, map, filter, all, any, length, String, str_eq, has_text, sorted_set,
  insert_text, first_best, Result, ok, value_error, ◌>>=◌, if◌then◌else◌,
}
use wlanpi_utilization.Channel.Frequency.{frequency_to_channel}
use wlanpi_utilization.Channel.Definition.{
  ChannelWidth, mhz20, mhz, same_width, width_value, ChannelDefinition, defaults, post_init,
  active_20mhz_centers, covers, contains,
}
use wlanpi_utilization.Capture.Coverage.{
  Status, complete, partial, fallback, CoverageDecision, or_text, is_empty,
}

pub record BssidChannelObservation : Type 0 where
  pub bssid : String
  pub definition : ChannelDefinition
  pub observed_at : ℤ

-- `source_complete` is not read here.
pub record RadioCapabilities : Type 0 where
  pub supported_widths : List ChannelWidth
  pub supported_frequencies_mhz : List ℤ
  pub supports_monitor : Bool
  pub supports_puncturing : Bool

unfoldable pub supports : RadioCapabilities → ChannelDefinition → Bool × String
supports c d =
    if not d.complete || d.ambiguous
    then (false, or_text d.reason "channel definition is incomplete")
    else if not d.supported
    then (false, or_text d.reason "channel definition is not portable")
    else if not c.supports_monitor
    then (false, "phy does not advertise monitor mode")
    else if not (any (same_width d.width) c.supported_widths)
    then (false, "phy does not advertise " ++ width_value d.width ++ " MHz")
    else if not (is_empty c.supported_frequencies_mhz)
        && not (covers c.supported_frequencies_mhz (active_20mhz_centers d))
    then (false, "one or more 20 MHz segments are disabled or absent from iw phy")
    else if is_some d.puncturing_bitmap && not c.supports_puncturing
    then (false, "iw/driver puncturing support was not detected")
    else (true, "supported")

-- The guards of the first loop.
unfoldable pub is_fresh : ℤ → ℤ → ℤ → BssidChannelObservation → Bool
is_fresh target now max_age o =
    not (ltb_ℤ now o.observed_at || ltb_ℤ max_age (now -ℤ o.observed_at))
    && eq_ℤ o.definition.primary_frequency_mhz target

-- `latest[observation.bssid] = observation`, unless a later one is there.
unfoldable pub put_latest :
    BssidChannelObservation → List BssidChannelObservation → List BssidChannelObservation
put_latest o [] = o ∷ []
put_latest o (p ∷ ps) =
    let rest = put_latest o ps in
    if str_eq p.bssid o.bssid
    then (if leb_ℤ p.observed_at o.observed_at then o ∷ ps else p ∷ ps)
    else p ∷ rest

unfoldable pub collect :
    (BssidChannelObservation → Bool)
    → List BssidChannelObservation
    → List BssidChannelObservation
    → List BssidChannelObservation
collect fresh latest [] = latest
collect fresh latest (o ∷ os) = collect fresh (if fresh o then put_latest o latest else latest) os

-- The order of the sort keys (number of centres, width), and the stable descending sort.
abbrev pub is_narrower : ChannelDefinition → ChannelDefinition → Bool
is_narrower a b =
    ltb (length (active_20mhz_centers a)) (length (active_20mhz_centers b))
    || (length (active_20mhz_centers a) == length (active_20mhz_centers b)
        && ltb (mhz a.width) (mhz b.width))

unfoldable pub insert_candidate :
    ChannelDefinition → List ChannelDefinition → List ChannelDefinition
insert_candidate c [] = c ∷ []
insert_candidate c (d ∷ ds) =
    let rest = insert_candidate c ds in if is_narrower c d then d ∷ rest else c ∷ d ∷ ds

unfoldable pub sort_candidates : List ChannelDefinition → List ChannelDefinition
sort_candidates [] = []
sort_candidates (c ∷ cs) = insert_candidate c (sort_candidates cs)

-- The condition that is written out four times, without `contains` and with it.
unfoldable pub is_usable : RadioCapabilities → ChannelDefinition → Bool
is_usable c d = d.complete && d.supported && not d.ambiguous && (supports c d).0

unfoldable pub is_covered : RadioCapabilities → ChannelDefinition → BssidChannelObservation → Bool
is_covered c candidate o = is_usable c o.definition && contains candidate o.definition

unfoldable pub covered_by :
    RadioCapabilities → List BssidChannelObservation → ChannelDefinition → List String
covered_by c latest candidate =
    sorted_set (map (λ o. o.bssid) (filter (is_covered c candidate) latest))

-- The first loop over the candidates: one that covers every observation.
unfoldable pub first_complete :
    RadioCapabilities
    → List BssidChannelObservation
    → List ChannelDefinition
    → Option ChannelDefinition
first_complete c latest [] = none
first_complete c latest (candidate ∷ rest) =
    let later = first_complete c latest rest in
    if all (is_covered c candidate) latest then some candidate else later

-- The order of the scores (covered addresses, number of centres).
abbrev pub scores_more :
    RadioCapabilities → List BssidChannelObservation → ChannelDefinition → ChannelDefinition → Bool
scores_more c latest a b =
    let a_covered = length (covered_by c latest a) in
    let b_covered = length (covered_by c latest b) in
    ltb b_covered a_covered
    || (a_covered == b_covered
        && ltb (length (active_20mhz_centers b)) (length (active_20mhz_centers a)))

unfoldable pub best_scoring :
    RadioCapabilities
    → List BssidChannelObservation
    → ChannelDefinition
    → List ChannelDefinition
    → ChannelDefinition
best_scoring c latest ht20 [] = ht20
best_scoring c latest ht20 (d ∷ ds) = first_best (scores_more c latest) d ds

abbrev pub bssids_of : List BssidChannelObservation → List String
bssids_of latest = sorted_set (map (λ o. o.bssid) latest)

unfoldable pub reasons_of : RadioCapabilities → List BssidChannelObservation → List String
reasons_of c latest =
    let definitions = map (λ o. o.definition) latest in
    let refused = map (λ d. (supports c d).1) (filter (λ d. not (supports c d).0) definitions) in
    let unclear =
      map (λ d. or_text d.reason "ambiguous channel definition")
        (filter (λ d. not d.complete || d.ambiguous) definitions) in
    sorted_set (list_append refused unclear)

-- "; ".join(reasons)
unfoldable pub joined : String → List String → String
joined r [] = r
joined r (s ∷ ss) = r ++ "; " ++ joined s ss

unfoldable pub partial_warning : List String → String
partial_warning [] = "partial bonded-channel coverage; definitions conflict in one hardware channel"
partial_warning (r ∷ rs) = "partial bonded-channel coverage; " ++ joined r rs

abbrev pub or_all : List String → List String → List String
or_all [] others = others
or_all (x ∷ xs) others = x ∷ xs

unfoldable pub partial_decision :
    RadioCapabilities → List BssidChannelObservation → ChannelDefinition → CoverageDecision
partial_decision c latest selected =
    let covered = covered_by c latest selected in
    record {
      requested = selected;
      covered_bssids = covered;
      partial_bssids =
          or_all (filter (λ b. not (has_text covered b)) (bssids_of latest)) (bssids_of latest);
      status = partial;
      warning = some (partial_warning (reasons_of c latest));
    }

abbrev pub complete_decision : List BssidChannelObservation → ChannelDefinition → CoverageDecision
complete_decision latest candidate = record {
  requested = candidate;
  covered_bssids = bssids_of latest;
  partial_bssids = [];
  status = complete;
  warning = none;
}

abbrev pub fallback_decision : ChannelDefinition → CoverageDecision
fallback_decision ht20 = record {
  requested = ht20;
  covered_bssids = [];
  partial_bssids = [];
  status = fallback;
  warning = some "no fresh complete channel definitions; using HT20";
}

unfoldable pub supported_candidates :
    RadioCapabilities → List BssidChannelObservation → List ChannelDefinition
supported_candidates c latest =
    filter (λ d. (supports c d).0)
      (sort_candidates
        (filter (λ d. d.complete && not d.ambiguous) (map (λ o. o.definition) latest)))

unfoldable pub decide :
    RadioCapabilities → ChannelDefinition → List BssidChannelObservation → CoverageDecision
decide c ht20 [] = fallback_decision ht20
decide c ht20 (o ∷ os) = elim (first_complete c (o ∷ os) (supported_candidates c (o ∷ os))) [
  | some candidate ↦ complete_decision (o ∷ os) candidate
  | none ↦
      partial_decision c (o ∷ os) (best_scoring c (o ∷ os) ht20 (supported_candidates c (o ∷ os)))
]

unfoldable pub fallback_definition : ℤ → Result ChannelDefinition
fallback_definition target = post_init (record (defaults target) {
  width = mhz20;
  center_frequency1_mhz = some target;
  primary_channel = frequency_to_channel target;
  phy = "fallback";
})

unfoldable pub choose_capture_definition :
    List BssidChannelObservation → ℤ → RadioCapabilities → ℤ → ℤ → Result CoverageDecision
choose_capture_definition observations target c now max_age = do
  ht20 ← fallback_definition target
  ok (decide c ht20 (collect (is_fresh target now max_age) [] observations))

-- ===== src/Survey.antt =====
-- The counter arithmetic of beacon_live/survey.py. A percentage is kept as the fraction that the
-- source divides and multiplies by 100; the texts of `reason` are constructors.
pub mod Bounds
pub mod Pairing
use wlanpi_utilization.Prelude.{
  ℤ, pos, ◌-ℤ◌, eq_ℤ, leb_ℤ, ltb_ℤ, Bool, true, false, not, ◌&&◌, ◌||◌, Option, none, some, List,
  [], ◌∷◌, filter, is_some, if◌then◌else◌,
}

-- `SurveySample` of models.py, but for the fields that the arithmetic does not read.
pub record SurveySample : Type 0 where
  pub active_ms : Option ℤ
  pub busy_ms : Option ℤ
  pub frequency_mhz : Option ℤ
  pub in_use : Bool

-- busy / active * 100
pub record Percent : Type 0 where
  pub busy : ℤ
  pub active : ℤ

pub data Reason : Type 0 where
  valid no_paired_samples in_use_unavailable no_valid_deltas : Reason
  target_not_present target_unavailable : ℤ → Reason

pub record SurveyCuResult : Type 0 where
  pub local_cu_percent : Option Percent
  pub frequency_mhz : Option ℤ
  pub active_delta_ms : Option ℤ
  pub busy_delta_ms : Option ℤ
  pub reason : Reason

-- The two samples with all four counters.
pub record Deltas : Type 0 where
  pub active_delta : ℤ
  pub busy_delta : ℤ

-- The subtractions, where no counter is missing.
unfoldable pub deltas : SurveySample → SurveySample → Option Deltas
deltas previous current = elim previous.active_ms [
  | none ↦ none
  | some a ↦ elim previous.busy_ms [
    | none ↦ none
    | some b ↦ elim current.active_ms [
      | none ↦ none
      | some a' ↦ elim current.busy_ms [
        | none ↦ none
        | some b' ↦ some (record { active_delta = a' -ℤ a; busy_delta = b' -ℤ b })
      ]
    ]
  ]
]

-- `active_delta <= 0 or busy_delta < 0 or busy_delta > active_delta`
abbrev pub is_invalid : Deltas → Bool
is_invalid d =
    leb_ℤ d.active_delta (pos 0) || ltb_ℤ d.busy_delta (pos 0) || ltb_ℤ d.active_delta d.busy_delta

abbrev pub same_frequency : Option ℤ → Option ℤ → Bool
same_frequency none none = true
same_frequency (some a) (some b) = eq_ℤ a b
same_frequency _ _ = false

unfoldable pub compute_local_cu_percent : SurveySample → SurveySample → Option Percent
compute_local_cu_percent previous current = elim (deltas previous current) [
  | none ↦ none
  | some d ↦
      if not (same_frequency previous.frequency_mhz current.frequency_mhz)
      then none
      else if is_invalid d
      then none
      else some (record { busy = d.busy_delta; active = d.active_delta })
]

-- `_empty_result`
abbrev pub empty_result : Reason → Option ℤ → SurveyCuResult
empty_result reason frequency = record {
  local_cu_percent = none;
  frequency_mhz = frequency;
  active_delta_ms = none;
  busy_delta_ms = none;
  reason = reason;
}

-- `current.frequency_mhz or previous.frequency_mhz`
abbrev pub or_frequency : Option ℤ → Option ℤ → Option ℤ
or_frequency none b = b
or_frequency (some a) b = if eq_ℤ a (pos 0) then b else some a

abbrev pub result_of : SurveySample × SurveySample → Deltas → SurveyCuResult
result_of (previous, current) d = record {
  local_cu_percent = some (record { busy = d.busy_delta; active = d.active_delta });
  frequency_mhz = or_frequency current.frequency_mhz previous.frequency_mhz;
  active_delta_ms = some d.active_delta;
  busy_delta_ms = some d.busy_delta;
  reason = valid;
}

-- `result` replaces `best_result`.
abbrev pub is_better : Option SurveyCuResult → SurveyCuResult → Bool
is_better none result = true
is_better (some best) result = elim result.active_delta_ms [
  | none ↦ false
  | some a ↦ elim best.active_delta_ms [ none ↦ false | some b ↦ ltb_ℤ b a ]
]

-- The body of the loop.
unfoldable pub consider_pair :
    Option SurveyCuResult → SurveySample × SurveySample → Option SurveyCuResult
consider_pair best (previous, current) = elim (deltas previous current) [
  | none ↦ best
  | some d ↦
      if is_invalid d
      then best
      else if is_better best (result_of (previous, current) d)
      then some (result_of (previous, current) d)
      else best
]

unfoldable pub best_of :
    Option SurveyCuResult → List (SurveySample × SurveySample) → Option SurveyCuResult
best_of best [] = best
best_of best (pair ∷ pairs) = best_of (consider_pair best pair) pairs

-- `_best_valid_result`
unfoldable pub best_valid_result :
    List (SurveySample × SurveySample) → Reason → Option ℤ → SurveyCuResult
best_valid_result pairs unavailable frequency = elim (best_of none pairs) [
  | none ↦ empty_result unavailable frequency
  | some best ↦ best
]

-- `previous_by_frequency.get(f)`: the last sample with the frequency.
unfoldable pub with_frequency : ℤ → List SurveySample → Option SurveySample
with_frequency f [] = none
with_frequency f (s ∷ ss) =
    let later = with_frequency f ss in
    elim later [
      | some found ↦ some found
      | none ↦ elim s.frequency_mhz [ none ↦ none | some g ↦ if eq_ℤ f g then some s else none ]
    ]

abbrev pub has_frequency : List SurveySample → Bool
has_frequency [] = false
has_frequency (s ∷ ss) = is_some s.frequency_mhz || has_frequency ss

unfoldable pub pairs_by_frequency :
    List SurveySample → List SurveySample → List (SurveySample × SurveySample)
pairs_by_frequency previous [] = []
pairs_by_frequency previous (current ∷ rest) =
    let others = pairs_by_frequency previous rest in
    elim current.frequency_mhz [
      | none ↦ others
      | some f ↦ elim (with_frequency f previous) [
        | none ↦ others
        | some found ↦ (found, current) ∷ others
      ]
    ]

unfoldable pub pairs_by_position :
    List SurveySample → List SurveySample → List (SurveySample × SurveySample)
pairs_by_position (p ∷ ps) (c ∷ cs) =
    let others = pairs_by_position ps cs in
    if not (is_some p.frequency_mhz) && not (is_some c.frequency_mhz)
    then (p, c) ∷ others
    else others
pairs_by_position _ _ = []

-- `_paired_samples`
unfoldable pub paired_samples :
    List SurveySample → List SurveySample → List (SurveySample × SurveySample)
paired_samples previous current =
    if has_frequency previous && has_frequency current
    then pairs_by_frequency previous current
    else pairs_by_position previous current

abbrev pub at_frequency : ℤ → SurveySample × SurveySample → Bool
at_frequency f (previous, current) =
    same_frequency previous.frequency_mhz (some f) || same_frequency current.frequency_mhz (some f)

abbrev pub either_in_use : SurveySample × SurveySample → Bool
either_in_use (previous, current) = previous.in_use || current.in_use

-- The branches for a target frequency, and without one.
unfoldable pub target_result : ℤ → List (SurveySample × SurveySample) → SurveyCuResult
target_result target [] = empty_result (target_not_present target) none
target_result target (pair ∷ pairs) =
    best_valid_result (pair ∷ pairs) (target_unavailable target) (some target)

unfoldable pub untargeted_result :
    List (SurveySample × SurveySample) → List (SurveySample × SurveySample) → SurveyCuResult
untargeted_result pairs [] = best_valid_result pairs no_valid_deltas none
untargeted_result pairs (pair ∷ in_use) = best_valid_result (pair ∷ in_use) in_use_unavailable none

abbrev pub chosen_result : Option ℤ → List (SurveySample × SurveySample) → SurveyCuResult
chosen_result target [] = empty_result no_paired_samples none
chosen_result (some target) (pair ∷ pairs) =
    target_result target (filter (at_frequency target) (pair ∷ pairs))
chosen_result none (pair ∷ pairs) =
    untargeted_result (pair ∷ pairs) (filter either_in_use (pair ∷ pairs))

unfoldable pub compute_local_cu_result_from_samples :
    List SurveySample → List SurveySample → Option ℤ → SurveyCuResult
unfolding target_result untargeted_result
compute_local_cu_result_from_samples previous current target =
    chosen_result target (paired_samples previous current)

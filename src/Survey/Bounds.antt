-- ===== src/Survey/Bounds.antt =====
-- The percentage of survey.py is a proportion, and the result of a set of pairs is the one with the
-- longest active time.
use mathlib.Core.List.{Memᴰ}
use mathlib.Core.List.Memᴰ.{head, tail}
use mathlib.Core.List.Memᴰ
use wlanpi_utilization.Prelude.{
  ℤ, pos, ◌≤ℤ◌, ◌<ℤ◌, ltb_ℤ, ltb_ℤ→lt, ◌≡◌, refl, sym, ap, ◌∙◌, ◌⊎◌, inl, inr, Bool, true, false,
  not, Option, none, some, List, [], ◌∷◌, Bool-cases, arith, if◌then◌else◌,
}
use wlanpi_utilization.Survey.{
  SurveySample, Percent, Reason, SurveyCuResult, Deltas, deltas, is_invalid, same_frequency,
  compute_local_cu_percent, empty_result, result_of, is_better, consider_pair, best_of,
  best_valid_result,
}

-- busy is between 0 and active, and active is positive: the percentage is between 0 and 100.
abbrev pub IsProportion : ℤ → ℤ → Type 0
IsProportion busy active = (pos 0 ≤ℤ busy) × (busy ≤ℤ active) × (pos 0 <ℤ active)

is_valid-IsProportion :
    (d : Deltas) → is_invalid d ≡ false → IsProportion d.busy_delta d.active_delta
is_valid-IsProportion d h = (ground arith, ground arith, ground arith)

-- A percentage of two samples is a proportion, between 0 and 100, and is only computed between
-- samples of one frequency.
pub compute_local_cu_percent-IsProportion :
    (previous current : SurveySample) (p : Percent)
    → compute_local_cu_percent previous current ≡ some p
    → IsProportion p.busy p.active
      × (same_frequency previous.frequency_mhz current.frequency_mhz ≡ true)
unfolding compute_local_cu_percent
compute_local_cu_percent-IsProportion previous current p h =
    go (same_frequency previous.frequency_mhz current.frequency_mhz) (deltas previous current) h
  where
    go :
        (same : Bool) (o : Option Deltas)
        → elim o [
          | none ↦ none
          | some d ↦
              if not same
              then none
              else if is_invalid d
              then none
              else some (record { busy = d.busy_delta; active = d.active_delta })
        ]
          ≡ some p
        → IsProportion p.busy p.active × (same ≡ true)
    go true none h = absurd (cc)
    go false none h = absurd (cc)
    go false (some d) h = absurd (cc)
    go true (some d) h = (ground arith, refl)

-- The deltas of a pair that the loop of `_best_valid_result` compares.
abbrev valid_deltas : Option Deltas → Option Deltas
valid_deltas none = none
valid_deltas (some d) = if is_invalid d then none else some d

abbrev pub measured : SurveySample × SurveySample → Option Deltas
measured (previous, current) = valid_deltas (deltas previous current)

valid_deltas-IsProportion :
    (o : Option Deltas) (d : Deltas)
    → valid_deltas o ≡ some d
    → IsProportion d.busy_delta d.active_delta
valid_deltas-IsProportion none d h = absurd (cc)
valid_deltas-IsProportion (some d') d h = ground arith

abbrev Pair : Type 0
Pair = SurveySample × SurveySample

measured-IsProportion :
    (pair : Pair) (d : Deltas) → measured pair ≡ some d → IsProportion d.busy_delta d.active_delta
measured-IsProportion (previous, current) d h =
    valid_deltas-IsProportion (deltas previous current) d h

-- A result of one of the pairs that `P` names, as the loop builds it.
pub record IsMeasured (P : Pair → Type 0) (r : SurveyCuResult) : Type 0 where
  pub pair : Pair
  pub pair_deltas : Deltas
  pub is_member : P pair
  pub is_valid : measured pair ≡ some pair_deltas
  pub is_result : r ≡ result_of pair pair_deltas

-- No measured pair has a longer active time.
abbrev pub IsLongest : (P : Pair → Type 0) → ℤ → Type 0
IsLongest P active =
    (pair : Pair) (d : Deltas) → P pair → measured pair ≡ some d → d.active_delta ≤ℤ active

pub data Best (P : Pair → Type 0) : Option SurveyCuResult → Type 0 where
  nothing : ((pair : Pair) → P pair → measured pair ≡ none) → Best P none
  longest :
      {r : SurveyCuResult} (m : IsMeasured P r)
      → IsLongest P m.pair_deltas.active_delta
      → Best P (some r)

module _ {P Q : Pair → Type 0} where
  Best-same :
      {b : Option SurveyCuResult}
      → ((q : Pair) → P q → Q q)
      → ((q : Pair) → Q q → P q)
      → Best P b
      → Best Q b
  Best-same to from (nothing h) = nothing (λ q m. h q (from q m))
  Best-same to from (longest m l) =
      longest
        (record {
          pair = m.pair;
          pair_deltas = m.pair_deltas;
          is_member = to m.pair m.is_member;
          is_valid = m.is_valid;
          is_result = m.is_result;
        })
        (λ q d h e. l q d (from q h) e)

-- The loop's body, on the deltas that count.
abbrev take_pair : Option SurveyCuResult → Pair → Option Deltas → Option SurveyCuResult
take_pair best pair none = best
take_pair best pair (some d) =
    if is_better best (result_of pair d) then some (result_of pair d) else best

consider_pair-take_pair :
    (best : Option SurveyCuResult) (pair : Pair)
    → consider_pair best pair ≡ take_pair best pair (measured pair)
unfolding consider_pair
consider_pair-take_pair best (previous, current) = go (deltas previous current)
  where
    go :
        (o : Option Deltas)
        → elim o [
          | none ↦ best
          | some d ↦
              if is_invalid d
              then best
              else if is_better best (result_of (previous, current) d)
              then some (result_of (previous, current) d)
              else best
        ]
          ≡ take_pair best (previous, current) (valid_deltas o)
    go none = refl
    go (some d) = elim (Bool-cases (is_invalid d)) [ inl e ↦ rw e refl | inr e ↦ rw e refl ]

not-lt : (a b c : ℤ) → ltb_ℤ a b ≡ false → c ≤ℤ b → c ≤ℤ a
not-lt a b c h l = ground arith

module _ (P : Pair → Type 0) (pair : Pair) where
  abbrev Extended : Pair → Type 0
  Extended q = P q ⊎ (q ≡ pair)

  abbrev kept : {r : SurveyCuResult} → IsMeasured P r → IsMeasured Extended r
  kept m = record {
    pair = m.pair;
    pair_deltas = m.pair_deltas;
    is_member = inl m.is_member;
    is_valid = m.is_valid;
    is_result = m.is_result;
  }

  abbrev fresh : (d : Deltas) → measured pair ≡ some d → IsMeasured Extended (result_of pair d)
  fresh d e = record {
    pair = pair;
    pair_deltas = d;
    is_member = inr refl;
    is_valid = e;
    is_result = refl;
  }

  newest :
      (d d' : Deltas) (q : Pair)
      → q ≡ pair
      → measured pair ≡ some d
      → measured q ≡ some d'
      → d'.active_delta ≤ℤ d.active_delta
  newest d d' q s e f =
      let same : some d' ≡ some d = sym f ∙ ap measured s ∙ e in
      let g : d' ≡ d = ground arith in rw g (omega arith)

  is_better-active :
      {r : SurveyCuResult} (m : IsMeasured P r) (d : Deltas)
      → is_better (some r) (result_of pair d) ≡ ltb_ℤ m.pair_deltas.active_delta d.active_delta
  is_better-active m d = rw (m.is_result) refl

  take_pair-Best :
      (best : Option SurveyCuResult) (o : Option Deltas)
      → measured pair ≡ o
      → Best P best
      → Best Extended (take_pair best pair o)
  take_pair-Best none none e (nothing h) =
      nothing (λ q c. elim c [ inl p ↦ h q p | inr s ↦ ap measured s ∙ e ])
  take_pair-Best (some r) none e (longest m l) =
      longest (kept m) (λ q d c f. elim c [ inl p ↦ l q d p f | inr s ↦ absurd (cc (s, e, f)) ])
  take_pair-Best none (some d) e (nothing h) =
      longest (fresh d e)
        (λ q d' c f. elim c [ inl p ↦ absurd (cc (h q p, f)) | inr s ↦ newest d d' q s e f ])
  take_pair-Best (some r) (some d) e (longest m l) =
      elim (Bool-cases (is_better (some r) (result_of pair d))) [
        | inl b ↦
            let above =
              ltb_ℤ→lt m.pair_deltas.active_delta d.active_delta (sym (is_better-active m d) ∙ b) in
            rw b (
              longest (fresh d e) (λ q d' c f. elim c [
                | inl p ↦ omega (arith, l q d' p f, above)
                | inr s ↦ newest d d' q s e f
              ]))
        | inr b ↦ rw b (
            longest (kept m) (λ q d' c f. elim c [
              | inl p ↦ l q d' p f
              | inr s ↦
                  not-lt m.pair_deltas.active_delta d.active_delta d'.active_delta
                    (sym (is_better-active m d) ∙ b) (newest d d' q s e f)
            ]))
      ]

consider_pair-Best :
    (P : Pair → Type 0) (best : Option SurveyCuResult) (pair : Pair)
    → Best P best
    → Best (Extended P pair) (consider_pair best pair)
consider_pair-Best P best pair h =
    rw (consider_pair-take_pair best pair) (take_pair-Best P pair best (measured pair) refl h)

best_of-Best :
    (pairs : List Pair) (P : Pair → Type 0) (best : Option SurveyCuResult)
    → Best P best
    → Best (λ q. P q ⊎ Memᴰ q pairs) (best_of best pairs)
unfolding best_of
best_of-Best [] P best h =
    Best-same (λ q m. inl m) (λ q m. elim m [ inl p ↦ p | inr e ↦ absurd (Memᴰ.not-nil e) ]) h
best_of-Best (pair ∷ pairs) P best h =
    Best-same
      (λ q m. elim m [ inl (inl p) ↦ inl p | inl (inr e) ↦ inr (head e) | inr t ↦ inr (tail t) ])
      (λ q m. elim m [
        | inl p ↦ inl (inl p)
        | inr t ↦ elim (Memᴰ.cases_cons t) [ inl e ↦ inl (inr e) | inr t' ↦ inr t' ]
      ])
      (best_of-Best pairs (Extended P pair) (consider_pair best pair)
        (consider_pair-Best P best pair h))

-- The result of a list of pairs is empty, for the reason given, where no pair has usable counters.
-- Otherwise it is the result of a pair of the list: its percentage is a proportion, and no usable
-- pair of the list has a longer active time.
pub best_valid_result-Best :
    (pairs : List Pair) (unavailable : Reason) (frequency : Option ℤ)
    → ((best_valid_result pairs unavailable frequency ≡ empty_result unavailable frequency)
        × ((q : Pair) → Memᴰ q pairs → measured q ≡ none))
      ⊎ ((m : IsMeasured (λ q. Memᴰ q pairs) (best_valid_result pairs unavailable frequency))
          × IsLongest (λ q. Memᴰ q pairs) m.pair_deltas.active_delta
          × IsProportion m.pair_deltas.busy_delta m.pair_deltas.active_delta)
unfolding best_valid_result
best_valid_result-Best pairs unavailable frequency = go (best_of none pairs) (
    Best-same (λ q m. elim m [ inl a ↦ absurd a | inr t ↦ t ]) (λ q t. inr t)
      (best_of-Best pairs (λ q. ⊥) none (nothing (λ q a. absurd a))))
  where
    go :
        (o : Option SurveyCuResult)
        → Best (λ q. Memᴰ q pairs) o
        → ((elim o [ none ↦ empty_result unavailable frequency | some best ↦ best ]
              ≡ empty_result unavailable frequency)
            × ((q : Pair) → Memᴰ q pairs → measured q ≡ none))
          ⊎ ((m : IsMeasured
                (λ q. Memᴰ q pairs)
                (elim o [ none ↦ empty_result unavailable frequency | some best ↦ best ]))
              × IsLongest (λ q. Memᴰ q pairs) m.pair_deltas.active_delta
              × IsProportion m.pair_deltas.busy_delta m.pair_deltas.active_delta)
    go none (nothing h) = inl (refl, h)
    go (some r) (longest m l) = inr (m, l, measured-IsProportion m.pair m.pair_deltas m.is_valid)

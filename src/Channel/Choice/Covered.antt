-- ===== src/Channel/Choice/Covered.antt =====
-- What a chosen capture definition promises about the BSSIDs that it lists.
use mathlib.Core.List.Memᴰ.{head, tail}
use mathlib.Core.List.Memᴰ
use wlanpi_utilization.Prelude.{
  ℤ, pos, ◌<ℤ◌, leb_ℤ, ◌≡◌, refl, sym, ap, ◌∙◌, ◌⊎◌, inl, inr, Bool, true, false, not, Option, none,
  some, List, [], ◌∷◌, Memᴰ, map, filter, all, String, str_eq, eq_iff, has_text, sorted_set,
  has_text-sorted_set, first_best-mem, filter-mem, mem-filter, any-mem, mem-any, all-mem, mem-map,
  map-mem, Bool-cases, arith, ok,
}
use wlanpi_utilization.Channel.Definition.{ChannelDefinition, post_init, lacks_second_center}
use wlanpi_utilization.Channel.Choice.{
  BssidChannelObservation, RadioCapabilities, supports, is_fresh, put_latest, collect, is_covered,
  covered_by, first_complete, scores_more, best_scoring, bssids_of, or_all, partial_decision,
  complete_decision, supported_candidates, decide, fallback_definition, choose_capture_definition,
}
use wlanpi_utilization.Capture.Coverage.{complete, CoverageDecision}

abbrev bssid_of : BssidChannelObservation → String
bssid_of o = o.bssid

mem-bssids :
    (os : List BssidChannelObservation) (b : String)
    → has_text (sorted_set (map bssid_of os)) b ≡ true
    → (o : BssidChannelObservation) × Memᴰ o os × (o.bssid ≡ b)
mem-bssids os b h =
    let (t, m, e) =
      mem-any (λ t. str_eq b t) (map bssid_of os)
        (sym (has_text-sorted_set (map bssid_of os) b) ∙ h) in
    let (o, k, g) = map-mem bssid_of os m in (o, k, sym g ∙ sym ((eq_iff b t).0 e))

bssids-mem :
    (os : List BssidChannelObservation) (o : BssidChannelObservation)
    → Memᴰ o os
    → has_text (sorted_set (map bssid_of os)) o.bssid ≡ true
bssids-mem os o m =
    has_text-sorted_set (map bssid_of os) o.bssid
    ∙ any-mem (λ t. str_eq o.bssid t) (map bssid_of os) (mem-map bssid_of os m)
        ((eq_iff o.bssid o.bssid).1 refl)

has_text-filter :
    (p : String → Bool) (xs : List String) (b : String)
    → has_text xs b ≡ true
    → p b ≡ true
    → has_text (filter p xs) b ≡ true
has_text-filter p xs b h q =
    let (t, m, e) = mem-any (λ t. str_eq b t) xs h in
    let same : b ≡ t = (eq_iff b t).0 e in
    any-mem (λ t. str_eq b t) (filter p xs) (mem-filter p xs m (ap p (sym same) ∙ q)) e

or_all-mem :
    (xs ys : List String) (b : String) → has_text xs b ≡ true → has_text (or_all xs ys) b ≡ true
or_all-mem [] ys b h = absurd (cc)
or_all-mem (x ∷ xs) ys b h = h

-- The promises of a decision on the observations `latest`.
pub record Promises (c : RadioCapabilities) (ht20 : ChannelDefinition)
    (latest : List BssidChannelObservation) (d : CoverageDecision) : Type 0 where
  pub covered_are_covered :
      (b : String)
      → has_text d.covered_bssids b ≡ true
      → (o : BssidChannelObservation) × Memᴰ o latest
        × (o.bssid ≡ b)
        × (is_covered c d.requested o ≡ true)
  pub all_accounted :
      (o : BssidChannelObservation)
      → Memᴰ o latest
      → (has_text d.covered_bssids o.bssid ≡ true) ⊎ (has_text d.partial_bssids o.bssid ≡ true)
  pub complete_covers_all :
      d.status ≡ complete
      → (o : BssidChannelObservation) → Memᴰ o latest
      → is_covered c d.requested o ≡ true
  pub requested_supported : (d.requested ≡ ht20) ⊎ ((supports c d.requested).0 ≡ true)

module _ (c : RadioCapabilities) (ht20 : ChannelDefinition) where
  first_complete-covers :
      (latest : List BssidChannelObservation) (ds : List ChannelDefinition) (d : ChannelDefinition)
      → first_complete c latest ds ≡ some d
      → (all (is_covered c d) latest ≡ true) × Memᴰ d ds
  unfolding first_complete
  first_complete-covers latest [] d h = absurd (cc)
  first_complete-covers latest (x ∷ xs) d h = elim (Bool-cases (all (is_covered c x) latest)) [
    | inl e ↦
        let same : some x ≡ some d = rw (e, first_complete) at h in
        let g : d ≡ x = ground arith in (ap (λ k. all (is_covered c k) latest) g ∙ e, head g)
    | inr e ↦
        let (a, m) = first_complete-covers latest xs d (rw (e, first_complete) at h) in (a, tail m)
  ]

  candidates-supported :
      (latest : List BssidChannelObservation) (d : ChannelDefinition)
      → Memᴰ d (supported_candidates c latest)
      → (supports c d).0 ≡ true
  unfolding supported_candidates
  candidates-supported latest d m = (filter-mem (λ d. (supports c d).0) _ m).1

  best_scoring-supported :
      (latest : List BssidChannelObservation) (ds : List ChannelDefinition)
      → ((d : ChannelDefinition) → Memᴰ d ds → (supports c d).0 ≡ true)
      → (best_scoring c latest ht20 ds ≡ ht20)
        ⊎ ((supports c (best_scoring c latest ht20 ds)).0 ≡ true)
  unfolding best_scoring
  best_scoring-supported latest [] h = inl refl
  best_scoring-supported latest (d ∷ ds) h = inr (h _ (first_best-mem (scores_more c latest) d ds))

  partial_decision-Promises :
      (latest : List BssidChannelObservation) (selected : ChannelDefinition)
      → (selected ≡ ht20) ⊎ ((supports c selected).0 ≡ true)
      → Promises c ht20 latest (partial_decision c latest selected)
  unfolding partial_decision covered_by
  partial_decision-Promises latest selected s = record {
    covered_are_covered = λ b h.
        let (o, m, e) = mem-bssids (filter (is_covered c selected) latest) b h in
        let (k, g) = filter-mem (is_covered c selected) latest m in (o, k, e, g);
    all_accounted = λ o m. elim (Bool-cases (has_text (covered_by c latest selected) o.bssid)) [
      | inl e ↦ inl e
      | inr e ↦ inr (
          or_all-mem _ (bssids_of latest) o.bssid (
            has_text-filter (λ b. not (has_text (covered_by c latest selected) b))
              (bssids_of latest) o.bssid (bssids-mem latest o m) (ap not e)))
    ];
    complete_covers_all = λ h. absurd (cc);
    requested_supported = s;
  }

  complete_decision-Promises :
      (latest : List BssidChannelObservation) (candidate : ChannelDefinition)
      → all (is_covered c candidate) latest ≡ true
      → (supports c candidate).0 ≡ true
      → Promises c ht20 latest (complete_decision latest candidate)
  complete_decision-Promises latest candidate every s = record {
    covered_are_covered = λ b h.
        let (o, m, e) = mem-bssids latest b h in
        (o, m, e, all-mem (is_covered c candidate) latest every m);
    all_accounted = λ o m. inl (bssids-mem latest o m);
    complete_covers_all = λ h o m. all-mem (is_covered c candidate) latest every m;
    requested_supported = inr s;
  }

  decide-Promises :
      (latest : List BssidChannelObservation) → Promises c ht20 latest (decide c ht20 latest)
  unfolding decide
  decide-Promises [] = record {
    covered_are_covered = λ b h. absurd (cc);
    all_accounted = λ o m. absurd (Memᴰ.not-nil m);
    complete_covers_all = λ h. absurd (cc);
    requested_supported = inl refl;
  }
  decide-Promises (o ∷ os) = go (first_complete c (o ∷ os) (supported_candidates c (o ∷ os))) refl
    where
      go :
          (r : Option ChannelDefinition)
          → first_complete c (o ∷ os) (supported_candidates c (o ∷ os)) ≡ r
          → Promises c ht20 (o ∷ os) (elim r [
            | some candidate ↦ complete_decision (o ∷ os) candidate
            | none ↦
                partial_decision c
                  (o ∷ os)
                  (best_scoring c (o ∷ os) ht20 (supported_candidates c (o ∷ os)))
          ])
      go none e =
          partial_decision-Promises (o ∷ os)
            (best_scoring c (o ∷ os) ht20 (supported_candidates c (o ∷ os)))
            (best_scoring-supported (o ∷ os) (supported_candidates c (o ∷ os))
              (candidates-supported (o ∷ os)))
      go (some d) e =
          let (every, m) = first_complete-covers (o ∷ os) (supported_candidates c (o ∷ os)) d e in
          complete_decision-Promises (o ∷ os) d every (candidates-supported (o ∷ os) d m)

-- What is collected comes from the observations, and passed the guards.
put_latest-mem :
    (o : BssidChannelObservation) (ps : List BssidChannelObservation) {x : BssidChannelObservation}
    → Memᴰ x (put_latest o ps)
    → (x ≡ o) ⊎ Memᴰ x ps
unfolding put_latest
put_latest-mem o [] m = Memᴰ.cases_cons m
put_latest-mem o (p ∷ ps) m = elim (Bool-cases (str_eq p.bssid o.bssid)) [
  | inl e ↦ elim (Bool-cases (leb_ℤ p.observed_at o.observed_at)) [
    | inl g ↦ elim (Memᴰ.cases_cons (rw (e, g, put_latest) at m)) [
      | inl q ↦ inl q
      | inr t ↦ inr (tail t)
    ]
    | inr g ↦ inr (rw (e, g, put_latest) at m)
  ]
  | inr e ↦ elim (Memᴰ.cases_cons (rw (e, put_latest) at m)) [
    | inl q ↦ inr (head q)
    | inr t ↦ elim (put_latest-mem o ps t) [ inl q ↦ inl q | inr t' ↦ inr (tail t') ]
  ]
]

collect-mem :
    (fresh : BssidChannelObservation → Bool) (latest os : List BssidChannelObservation)
    {x : BssidChannelObservation}
    → Memᴰ x (collect fresh latest os)
    → Memᴰ x latest ⊎ (Memᴰ x os × (fresh x ≡ true))
unfolding collect
collect-mem fresh latest [] m = inl m
collect-mem fresh latest (o ∷ os) m = elim (Bool-cases (fresh o)) [
  | inl e ↦ elim (collect-mem fresh (put_latest o latest) os (rw (e, collect) at m)) [
    | inr (k, q) ↦ inr (tail k, q)
    | inl k ↦ elim (put_latest-mem o latest k) [
      | inl q ↦ inr (head q, ap fresh q ∙ e)
      | inr t ↦ inl t
    ]
  ]
  | inr e ↦ elim (collect-mem fresh latest os (rw (e, collect) at m)) [
    | inr (k, q) ↦ inr (tail k, q)
    | inl k ↦ inl k
  ]
]

not_low : (t : ℤ) → pos 0 <ℤ t → leb_ℤ t (pos 0) ≡ false
not_low t h = ground arith

fallback_definition-returns :
    (target : ℤ) → pos 0 <ℤ target → (d : ChannelDefinition) × (fallback_definition target ≡ ok d)
unfolding fallback_definition post_init lacks_second_center
fallback_definition-returns target positive = rw (not_low target positive) (_, refl)

-- At a positive target frequency there is a decision on the observations kept, which are among
-- those given, are of the target and are neither too old nor from the future. Every address listed
-- as covered belongs to a kept observation whose definition the radio supports and the requested
-- one contains, every kept observation's address is listed as covered or as partial, a complete
-- status means that all are covered, and what is requested is the fallback or supported.
pub choose_capture_definition-Promises :
    (observations : List BssidChannelObservation) (target : ℤ) (c : RadioCapabilities)
    (now max_age : ℤ)
    → pos 0 <ℤ target
    → (ht20 : ChannelDefinition) × (d : CoverageDecision) × (fallback_definition target ≡ ok ht20)
      × (choose_capture_definition observations target c now max_age ≡ ok d)
      × ((o : BssidChannelObservation)
          → Memᴰ o (collect (is_fresh target now max_age) [] observations)
          → Memᴰ o observations × (is_fresh target now max_age o ≡ true))
      × Promises c ht20 (collect (is_fresh target now max_age) [] observations) d
unfolding choose_capture_definition
choose_capture_definition-Promises observations target c now max_age positive =
    let (ht20, e) = fallback_definition-returns target positive in
    let latest = collect (is_fresh target now max_age) [] observations in
    (
      ht20,
      decide c ht20 latest,
      e,
      rw e refl,
      λ o m. elim (collect-mem (is_fresh target now max_age) [] observations m) [
        | inl k ↦ absurd (Memᴰ.not-nil k)
        | inr k ↦ k
      ],
      decide-Promises c ht20 latest,
    )

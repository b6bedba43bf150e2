-- ===== src/Capture/Coverage/Tracking.antt =====
-- How the coverage of the fixed capture follows the beacons that are heard.
use wlanpi_utilization.Prelude.{
  ◌≡◌, refl, Bool, true, false, not, ◌&&◌, ◌||◌, Option, List, [], ◌∷◌, filter, String, str_eq,
  eq_iff, insert_text, sorted_set, discard_text, has_text, has_text-insert, has_text-sorted_set,
  has_text-discard, if◌then◌else◌, arith, Bool-cases, inl, inr, none,
}
use wlanpi_utilization.Channel.Definition.{ChannelDefinition, contains}
use wlanpi_utilization.Capture.Coverage.{
  complete, partial, CoverageDecision, is_empty, inferred_ht20, update_fixed_capture_coverage,
  prune_fixed_capture_coverage, pruned_status, cover, miss,
}

-- The advertised definition says what the beacon's channel is, so it can be compared.
abbrev pub has_evidence : ChannelDefinition → ChannelDefinition → Bool
has_evidence advertised actual =
    inferred_ht20 advertised actual || (advertised.complete && not advertised.ambiguous)

-- The address is wholly inside the captured channel.
abbrev pub fits : ChannelDefinition → ChannelDefinition → Bool
fits advertised actual = inferred_ht20 advertised actual || contains actual advertised

module _ (c : CoverageDecision) (bssid : String) where
  has_text-cover :
      (y : String)
      → (has_text (cover c bssid).covered_bssids y
          ≡ (if str_eq y bssid then true else has_text c.covered_bssids y))
        × (has_text (cover c bssid).partial_bssids y
            ≡ (if str_eq y bssid then false else has_text c.partial_bssids y))
  unfolding cover
  has_text-cover y = (
    rw (has_text-insert, has_text-sorted_set) (ground arith),
    rw (has_text-discard, has_text-sorted_set) (ground arith),
  )

module _ (c : CoverageDecision) (bssid : String) (advertised actual : ChannelDefinition) where
  abbrev updated : CoverageDecision
  updated = update_fixed_capture_coverage c bssid advertised actual

  update_without_evidence : has_evidence advertised actual ≡ false → updated ≡ c
  unfolding update_fixed_capture_coverage
  update_without_evidence e = ground arith

  update_that_fits :
      has_evidence advertised actual ≡ true
      → fits advertised actual ≡ true
      → updated ≡ cover c bssid
  unfolding update_fixed_capture_coverage
  update_that_fits e f = ground arith

  update_that_misses :
      has_evidence advertised actual ≡ true
      → fits advertised actual ≡ false
      → updated ≡ miss c bssid advertised actual
  unfolding update_fixed_capture_coverage
  update_that_misses e f = ground arith

  has_text-miss :
      (y : String)
      → (has_text (miss c bssid advertised actual).covered_bssids y
          ≡ (if str_eq y bssid then false else has_text c.covered_bssids y))
        × (has_text (miss c bssid advertised actual).partial_bssids y
            ≡ (if str_eq y bssid then true else has_text c.partial_bssids y))
  unfolding miss
  has_text-miss y = (
    rw (has_text-discard, has_text-sorted_set) (ground arith),
    rw (has_text-insert, has_text-sorted_set) (ground arith),
  )

  -- An advertised definition that is incomplete or ambiguous, and not inferred, changes nothing. Any
  -- other puts the address among the covered ones if the actual definition contains the advertised
  -- one (or it was inferred), among the partial ones if not, and moves no other address.
  pub update_fixed_capture_coverage_lem :
      (y : String)
      → (has_evidence advertised actual ≡ false → updated ≡ c)
        × (has_evidence advertised actual ≡ true
            → (has_text updated.covered_bssids y
                ≡ (if str_eq y bssid then fits advertised actual else has_text c.covered_bssids y))
              × (has_text updated.partial_bssids y ≡ (
                  if str_eq y bssid
                  then not (fits advertised actual)
                  else has_text c.partial_bssids y)))
  update_fixed_capture_coverage_lem y = (
    update_without_evidence,
    λ e. elim (Bool-cases (fits advertised actual)) [
      | inl f ↦ rw (update_that_fits e f, f) (has_text-cover c bssid y)
      | inr f ↦ rw (update_that_misses e f, f) (has_text-miss y)
    ],
  )

-- No address is in both sets, and the status says whether the set of partial ones is empty.
pub record IsConsistent (c : CoverageDecision) : Type 0 where
  pub disjoint : (y : String) → has_text c.covered_bssids y && has_text c.partial_bssids y ≡ false
  pub when_complete : c.status ≡ complete → is_empty c.partial_bssids ≡ true
  pub when_partial : c.status ≡ partial → is_empty c.partial_bssids ≡ false

is_empty-insert_text : (x : String) (ts : List String) → is_empty (insert_text x ts) ≡ false
unfolding insert_text
is_empty-insert_text x [] = refl
is_empty-insert_text x (t ∷ ts) = ground arith

is_empty-discard_text :
    (x : String) (ts : List String)
    → is_empty ts ≡ true
    → is_empty (discard_text x (sorted_set ts)) ≡ true
unfolding discard_text sorted_set
is_empty-discard_text x [] e = refl
is_empty-discard_text x (t ∷ ts) e = absurd (cc)

module _ (c : CoverageDecision) (bssid : String) (h : IsConsistent c) where
  cover_disjoint :
      (y : String)
      → has_text (cover c bssid).covered_bssids y && has_text (cover c bssid).partial_bssids y
        ≡ false
  cover_disjoint y =
      let (a, b) = has_text-cover c bssid y in rw (a, b) (ground (arith, h.disjoint y))

  cover-IsConsistent : IsConsistent (cover c bssid)
  unfolding cover
  cover-IsConsistent = record {
    disjoint = cover_disjoint;
    when_complete =
        λ e. ground (arith, is_empty-discard_text bssid c.partial_bssids, h.when_complete);
    when_partial = λ e. ground arith;
  }

  module _ (advertised actual : ChannelDefinition) where
    miss_disjoint :
        (y : String)
        → has_text (miss c bssid advertised actual).covered_bssids y
            && has_text (miss c bssid advertised actual).partial_bssids y
          ≡ false
    miss_disjoint y =
        let (a, b) = has_text-miss c bssid advertised actual y in
        rw (a, b) (ground (arith, h.disjoint y))

    miss-IsConsistent : IsConsistent (miss c bssid advertised actual)
    unfolding miss
    miss-IsConsistent = record {
      disjoint = miss_disjoint;
      when_complete = λ e. ground arith;
      when_partial = λ e. is_empty-insert_text bssid (sorted_set c.partial_bssids);
    }

    update-IsConsistent : IsConsistent (update_fixed_capture_coverage c bssid advertised actual)
    update-IsConsistent = elim (Bool-cases (has_evidence advertised actual)) [
      | inr e ↦ rw (update_without_evidence c bssid advertised actual e) h
      | inl e ↦ elim (Bool-cases (fits advertised actual)) [
        | inl f ↦ rw (update_that_fits c bssid advertised actual e f) cover-IsConsistent
        | inr f ↦ rw (update_that_misses c bssid advertised actual e f) miss-IsConsistent
      ]
    ]

has_text-filter :
    (active ts : List String) (y : String)
    → has_text (filter (has_text active) ts) y ≡ (has_text ts y && has_text active y)
has_text-filter active [] y = refl
has_text-filter active (t ∷ ts) y = ground (arith, has_text-filter active ts y, eq_iff y t)

is_empty-sorted_set : (ts : List String) → is_empty (sorted_set ts) ≡ is_empty ts
unfolding sorted_set
is_empty-sorted_set [] = refl
is_empty-sorted_set (t ∷ ts) = is_empty-insert_text t (sorted_set ts)

pruned_status-complete :
    (reason : Option String) (verified : Bool) (missed : List String)
    → pruned_status reason verified missed ≡ complete
    → is_empty missed ≡ true
unfolding pruned_status
pruned_status-complete none true missed e = ground arith
pruned_status-complete _ _ missed e = absurd (ground arith)

pruned_status-partial :
    (reason : Option String) (verified : Bool) (missed : List String)
    → pruned_status reason verified missed ≡ partial
    → is_empty missed ≡ false
unfolding pruned_status
pruned_status-partial none true missed e = ground arith
pruned_status-partial _ _ missed e = absurd (ground arith)

prune-IsConsistent :
    (c : CoverageDecision) (active : List String) (reason : Option String) (verified : Bool)
    → IsConsistent c
    → IsConsistent (prune_fixed_capture_coverage c active reason verified)
unfolding prune_fixed_capture_coverage
prune-IsConsistent c active reason verified h = record {
  disjoint = λ y.
      rw (has_text-sorted_set, has_text-sorted_set, has_text-filter, has_text-filter)
        (ground (arith, h.disjoint y));
  when_complete = λ e. rw is_empty-sorted_set (pruned_status-complete reason verified _ e);
  when_partial = λ e. rw is_empty-sorted_set (pruned_status-partial reason verified _ e);
}

-- What the capture loop does to its coverage: a beacon with a definition, or the expiry of addresses.
pub data Event : Type 0 where
  heard : String → ChannelDefinition → ChannelDefinition → Event
  pruned : List String → Option String → Bool → Event

unfoldable pub after : CoverageDecision → Event → CoverageDecision
after c (heard bssid advertised actual) = update_fixed_capture_coverage c bssid advertised actual
after c (pruned active reason verified) = prune_fixed_capture_coverage c active reason verified

unfoldable pub track : CoverageDecision → List Event → CoverageDecision
unfolding after
track c [] = c
track c (e ∷ es) = track (after c e) es

-- Through any beacons and expiries, no address is counted as covered and partial at once, and the
-- status stays `complete` only with no partial address and `partial` only with one.
pub track-IsConsistent :
    (c : CoverageDecision) (es : List Event) → IsConsistent c → IsConsistent (track c es)
unfolding track
track-IsConsistent c [] h = h
track-IsConsistent c (heard bssid advertised actual ∷ es) h =
    track-IsConsistent (after c (heard bssid advertised actual)) es
      (update-IsConsistent c bssid h advertised actual)
track-IsConsistent c (pruned active reason verified ∷ es) h =
    track-IsConsistent (after c (pruned active reason verified)) es
      (prune-IsConsistent c active reason verified h)

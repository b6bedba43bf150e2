-- ===== src/Analyzer/Scope/Agree.antt =====
-- Both scopes find the same beacon.
use wlanpi_utilization.Prelude.{
  ℕ, zero, suc, ◌+◌, ◌-◌, ◌==◌, ℤ, leb_ℤ, ◌≡◌, refl, sym, ap, ◌∙◌, inl, inr, Bool, true, false,
  ◌&&◌, Option, none, some, List, [], ◌∷◌, ◌++◌, filter, get_elem?, String, str_eq, Bool-cases,
  if-elim, arith, if◌then◌else◌,
}
use wlanpi_utilization.Frames.{BeaconRecord}
use wlanpi_utilization.Analyzer.Scope.{
  beacons_of, reversed, has_definition, first_defined, targeted_option, streaming_matches,
  bisect_right, latest_at, batch_matches,
}

-- `first or second`, for the last element that fits.
abbrev otherwise : Option BeaconRecord → Option BeaconRecord → Option BeaconRecord
otherwise none o = o
otherwise (some r) o = some r

-- The last beacon with a definition that is not after `t`.
abbrev last_defined : ℤ → List BeaconRecord → Option BeaconRecord
last_defined t [] = none
last_defined t (r ∷ rs) =
    otherwise (last_defined t rs)
      (if leb_ℤ r.beacon_timestamp t && has_definition r then some r else none)

first_defined-append :
    (t : ℤ) (rs : List BeaconRecord) (r : BeaconRecord)
    → first_defined t (rs ++ r ∷ [])
      ≡ otherwise
          (first_defined t rs)
          (if leb_ℤ r.beacon_timestamp t && has_definition r then some r else none)
unfolding first_defined
first_defined-append t [] r = refl
first_defined-append t (x ∷ rs) r =
    elim (Bool-cases (leb_ℤ x.beacon_timestamp t && has_definition x)) [
      | inl e ↦ rw e refl
      | inr e ↦ rw e (first_defined-append t rs r)
    ]

first_defined-reversed :
    (t : ℤ) (rs : List BeaconRecord) → first_defined t (reversed rs) ≡ last_defined t rs
unfolding reversed first_defined
first_defined-reversed t [] = refl
first_defined-reversed t (r ∷ rs) =
    first_defined-append t (reversed rs) r
    ∙ ap
        (λ o. otherwise o (if leb_ℤ r.beacon_timestamp t && has_definition r then some r else none))
        (first_defined-reversed t rs)

-- The times ascend.
abbrev pub are_sorted : ℤ → List BeaconRecord → Bool
are_sorted t [] = true
are_sorted t (r ∷ rs) = leb_ℤ t r.beacon_timestamp && are_sorted r.beacon_timestamp rs

later_ℤ : (a b t : ℤ) → leb_ℤ a b ≡ true → leb_ℤ a t ≡ false → leb_ℤ b t ≡ false
later_ℤ a b t h k = ground arith

-- After a beacon that is after `t` there is none that is not.
none_after :
    (t u : ℤ) (rs : List BeaconRecord)
    → leb_ℤ u t ≡ false
    → are_sorted u rs ≡ true
    → last_defined t rs ≡ none
none_after t u [] h o = refl
none_after t u (r ∷ rs) h o =
    let late = later_ℤ u r.beacon_timestamp t (ground arith) h in
    rw (none_after t r.beacon_timestamp rs late (ground arith), late) refl

in_range :
    (rs : List BeaconRecord) (t : ℤ) (m : ℕ)
    → bisect_right rs t ≡ suc m
    → (x : BeaconRecord) × (get_elem? rs m ≡ some x)
unfolding bisect_right
in_range [] t m e = absurd (omega (arith, e))
in_range (r ∷ rs) t zero e = (r, refl)
in_range (r ∷ rs) t (suc k) e = elim (Bool-cases (leb_ℤ r.beacon_timestamp t)) [
  | inl h ↦ in_range rs t k (ground arith)
  | inr h ↦ absurd (ground arith)
]

-- The element before the index, at the index of a longer list.
element_before : List BeaconRecord → ℕ → Option BeaconRecord
element_before rs n = if n == 0 then none else get_elem? rs (n - 1)

element-next :
    (r : BeaconRecord) (rs : List BeaconRecord) (n : ℕ)
    → ((m : ℕ) → n ≡ suc m → (x : BeaconRecord) × (get_elem? rs m ≡ some x))
    → element_before (r ∷ rs) (n + 1) ≡ otherwise (element_before rs n) (some r)
unfolding element_before
element-next r rs zero h = refl
element-next r rs (suc m) h =
    let (x, e) = h m refl in
    let back : suc m + 1 - 1 ≡ suc m = omega arith in
    let back' : suc m - 1 ≡ m = omega arith in
    let some_left : (suc m + 1 == 0) ≡ false = ground arith in
    let some_left' : (suc m == 0) ≡ false = ground arith in
    rw (some_left, back, some_left', back', e) refl

latest_at-next :
    (r : BeaconRecord) (rs : List BeaconRecord) (t : ℤ)
    → leb_ℤ r.beacon_timestamp t ≡ true
    → latest_at (r ∷ rs) t ≡ otherwise (latest_at rs t) (some r)
unfolding latest_at bisect_right element_before
latest_at-next r rs t h =
    rw (latest_at, bisect_right, h) (element-next r rs (bisect_right rs t) (in_range rs t))

latest_of_nothing : (t : ℤ) → latest_at [] t ≡ none
unfolding latest_at bisect_right
latest_of_nothing t = refl

latest_at-late :
    (r : BeaconRecord) (rs : List BeaconRecord) (t : ℤ)
    → leb_ℤ r.beacon_timestamp t ≡ false
    → latest_at (r ∷ rs) t ≡ none
unfolding latest_at bisect_right
latest_at-late r rs t h = rw (latest_at, bisect_right, h) refl

otherwise-none : (o : Option BeaconRecord) → otherwise o none ≡ o
otherwise-none none = refl
otherwise-none (some r) = refl

latest_at-last :
    (t u : ℤ) (rs : List BeaconRecord)
    → are_sorted u rs ≡ true
    → latest_at (filter has_definition rs) t ≡ last_defined t rs
latest_at-last t u [] o = latest_of_nothing t
latest_at-last t u (r ∷ rs) o =
    let rest = latest_at-last t r.beacon_timestamp rs (ground arith) in
    elim (Bool-cases (leb_ℤ r.beacon_timestamp t)) [
      | inl h ↦ elim (Bool-cases (has_definition r)) [
        | inl d ↦
            rw (d, h)
              (latest_at-next r (filter has_definition rs) t h
                ∙ ap (λ o. otherwise o (some r)) rest)
        | inr d ↦ rw (d, h) (rest ∙ sym (otherwise-none (last_defined t rs)))
      ]
      | inr h ↦
          let gone = none_after t r.beacon_timestamp rs h (ground arith) in
          elim (Bool-cases (has_definition r)) [
            | inl d ↦ rw (d, h, gone) (latest_at-late r (filter has_definition rs) t h)
            | inr d ↦ rw (d, h, gone) (rest ∙ gone)
          ]
    ]

-- The beacons of every BSSID are in the order of their times.
abbrev pub all_sorted : ℤ → List (String × List BeaconRecord) → Bool
all_sorted t [] = true
all_sorted t ((b, beacons) ∷ rest) = are_sorted t beacons && all_sorted t rest

beacons-sorted :
    (t : ℤ) (records : List (String × List BeaconRecord)) (b : String)
    → all_sorted t records ≡ true
    → are_sorted t (beacons_of records b) ≡ true
unfolding beacons_of
beacons-sorted t [] b h = refl
beacons-sorted t ((k, beacons) ∷ rest) b h =
    if-elim (λ x. are_sorted t x ≡ true) (str_eq k b) (λ e. ground arith)
      (λ e. beacons-sorted t rest b (ground arith))

-- Both scopes give the same answer for every frame.
pub streaming_matches-batch :
    (records : List (String × List BeaconRecord)) (start target max_age t : ℤ) (b : Option String)
    → all_sorted start records ≡ true
    → streaming_matches records target max_age t b ≡ batch_matches records target max_age t b
unfolding streaming_matches batch_matches
streaming_matches-batch records start target max_age t none h = refl
streaming_matches-batch records start target max_age t (some b) h =
    ap (targeted_option target max_age t) (
      first_defined-reversed t (beacons_of records b)
      ∙ sym (latest_at-last t start (beacons_of records b) (beacons-sorted start records b h)))

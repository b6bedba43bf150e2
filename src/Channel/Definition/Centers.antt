-- ===== src/Channel/Definition/Centers.antt =====
-- Membership in the sets of 20 MHz centres, and `contains` as an order on definitions.
use wlanpi_utilization.Prelude.{
  ℕ, ℤ, pos, ◌+ℤ◌, ◌-ℤ◌, eq_ℤ, eq_ℤ_iff, ◌≡◌, refl, true, ◌||◌, List, [], ◌∷◌, arith, int_laws,
}
use wlanpi_utilization.Channel.Definition.{
  ChannelDefinition, insert_center, update_centers, continuous_centers, active_20mhz_centers,
  has_center, covers, contains,
}

pub has_center-insert :
    (c x : ℤ) (ds : List ℤ) → has_center (insert_center c ds) x ≡ (eq_ℤ x c || has_center ds x)
unfolding insert_center
has_center-insert c x [] = refl
has_center-insert c x (d ∷ ds) = ground (arith, has_center-insert c x ds)

pub has_center-update :
    (cs : List ℤ) (ds : List ℤ) (x : ℤ)
    → has_center (update_centers ds cs) x ≡ (has_center cs x || has_center ds x)
unfolding update_centers
has_center-update [] ds x = refl
has_center-update (c ∷ cs) ds x =
    ground (arith, has_center-update cs (insert_center c ds) x, has_center-insert c x ds)

eq_ℤ_refl : (x : ℤ) → eq_ℤ x x ≡ true
eq_ℤ_refl x = ground arith

back_up : (x : ℤ) → x -ℤ pos 10 -ℤ pos 10 +ℤ pos 20 ≡ x
back_up x = omega int_laws

stay : (x : ℤ) → x -ℤ pos 0 +ℤ pos 0 ≡ x
stay x = omega int_laws

back_down : (x : ℤ) → x +ℤ pos 10 -ℤ pos 10 +ℤ pos 0 ≡ x
back_down x = omega int_laws

-- A channel of 20 MHz has its own centre; one of 40 MHz has the centres 10 MHz to its sides.
pub has_center-narrow : (x : ℤ) → has_center (continuous_centers x 20) x ≡ true
unfolding continuous_centers
has_center-narrow x = ground (arith, stay x)

pub has_center-upper : (x : ℤ) → has_center (continuous_centers (x -ℤ pos 10) 40) x ≡ true
unfolding continuous_centers
has_center-upper x = ground (arith, back_up x)

pub has_center-lower : (x : ℤ) → has_center (continuous_centers (x +ℤ pos 10) 40) x ≡ true
unfolding continuous_centers
has_center-lower x = ground (arith, back_down x)

-- The centres of a definition of one contiguous channel without puncturing.
pub has_center-contiguous :
    (c x : ℤ) (width_mhz : ℕ)
    → has_center (continuous_centers c width_mhz) x ≡ true
    → has_center (update_centers [] (continuous_centers c width_mhz)) x ≡ true
has_center-contiguous c x w h = rw has_center-update (rw h)

-- `covers` is the inclusion of sets, so `contains` is reflexive and transitive.
covers-has_center :
    (wide narrow : List ℤ) (x : ℤ)
    → covers wide narrow ≡ true
    → has_center narrow x ≡ true
    → has_center wide x ≡ true
covers-has_center wide [] x h m = cc
covers-has_center wide (c ∷ cs) x h m = ground (arith, eq_ℤ_iff x c, covers-has_center wide cs x)

covers_of_has_center :
    (wide narrow : List ℤ)
    → ((x : ℤ) → has_center narrow x ≡ true → has_center wide x ≡ true)
    → covers wide narrow ≡ true
covers_of_has_center wide [] h = refl
covers_of_has_center wide (c ∷ cs) h =
    rw (h c (rw (eq_ℤ_refl c))) (covers_of_has_center wide cs (λ x m. h x (at_tail x m)))
  where
    at_tail : (x : ℤ) → has_center cs x ≡ true → has_center (c ∷ cs) x ≡ true
    at_tail x m = ground arith

pub contains_refl : (d : ChannelDefinition) → contains d d ≡ true
unfolding contains
contains_refl d =
    rw (eq_ℤ_refl d.primary_frequency_mhz)
      (covers_of_has_center (active_20mhz_centers d) (active_20mhz_centers d) (λ x m. m))

-- A definition that contains another contains all that the other contains.
pub contains_trans :
    (d e f : ChannelDefinition) → contains d e ≡ true → contains e f ≡ true → contains d f ≡ true
unfolding contains
contains_trans d e f de ef =
    let cover : covers (active_20mhz_centers d) (active_20mhz_centers f) ≡ true =
      covers_of_has_center _ _ λ x m.
        covers-has_center (active_20mhz_centers d) (active_20mhz_centers e) x (ground arith) (
          covers-has_center (active_20mhz_centers e) (active_20mhz_centers f) x (ground arith) m) in
    rw cover (ground arith)

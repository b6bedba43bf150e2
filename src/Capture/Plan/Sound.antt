-- ===== src/Capture/Plan/Sound.antt =====
-- What the planned definitions guarantee to the code that tunes the radio.
use wlanpi_utilization.Prelude.{
  ℤ, pos, ◌≤ℤ◌, ◌<ℤ◌, leb_ℤ, leb_ℤ→le, String, ◌≡◌, refl, ◌⊎◌, inl, inr, true, false, Option, some,
  List, [], ◌∷◌, Bool-cases, Option-cases, arith, Result, ok, value_error, ◌>>=◌, Ensures, returns,
  raises, if◌then◌else◌,
}
use wlanpi_utilization.Channel.Frequency.{Band, ghz2_4, ghz5, ghz6, other, channel_to_frequency}
use wlanpi_utilization.Channel.Definition.{
  ChannelWidth, mhz20, mhz80, same_width, ChannelDefinition, defaults, post_init,
  lacks_second_center, fill_center, active_20mhz_centers, has_center,
}
use wlanpi_utilization.Channel.Definition.Centers.{has_center-contiguous, has_center-narrow}
use wlanpi_utilization.Capture.Plan.{
  explicit_channel_definition, explicit_arguments, explicit_checked, default_channel_definition,
  default_narrow, default_block, first_block, center_channels,
}

-- A definition that the radio can be tuned to: complete, and with its primary among its centres.
pub record IsTunable (primary : ℤ) (d : ChannelDefinition) : Type 0 where
  pub primary_kept : d.primary_frequency_mhz ≡ primary
  pub is_complete : d.complete ≡ true
  pub is_unambiguous : d.ambiguous ≡ false
  pub is_supported : d.supported ≡ true
  pub primary_active : has_center (active_20mhz_centers d) primary ≡ true

-- The constructor call on arguments that mark a complete definition.
module _ (a : ChannelDefinition) where
  post_init-kept :
      (d : ChannelDefinition)
      → a.complete ≡ true
      → a.ambiguous ≡ false
      → a.supported ≡ true
      → lacks_second_center a ≡ false
      → post_init a ≡ ok d
      → (d.primary_frequency_mhz ≡ a.primary_frequency_mhz)
        × (d.width ≡ a.width)
        × (d.complete ≡ true)
        × (d.ambiguous ≡ false)
        × (d.supported ≡ true)
  unfolding post_init
  post_init-kept d c m s l e = ground arith

  post_init_low : (m : String) → post_init a ≡ value_error m → a.primary_frequency_mhz ≤ℤ pos 0
  unfolding post_init
  post_init_low m e = ground arith

-- A definition that was built and checked for its primary.
abbrev Planned : ℤ → ChannelWidth → Result ChannelDefinition → Type 0
Planned primary width r =
    Ensures (λ d. IsTunable primary d × (d.width ≡ width)) (primary ≤ℤ pos 0) r

-- One 20 MHz channel at its own primary.
narrow-Planned :
    (primary : ℤ) (channel : Option ℤ) (phy : String) (reason : Option String)
    → Planned primary mhz20 (
        post_init (record (defaults primary) {
          center_frequency1_mhz = some primary;
          primary_channel = channel;
          phy = phy;
          reason = reason;
        }))
unfolding post_init fill_center lacks_second_center active_20mhz_centers
narrow-Planned primary channel phy reason = elim (Bool-cases (leb_ℤ primary (pos 0))) [
  | inl bad ↦ rw bad (raises (leb_ℤ→le primary (pos 0) bad))
  | inr good ↦ rw good (
      returns (
        record {
          primary_kept = refl;
          is_complete = refl;
          is_unambiguous = refl;
          is_supported = refl;
          primary_active = has_center-contiguous primary primary 20 (has_center-narrow primary);
        },
        refl,
      ))
]

-- The check of the primary after a constructor call.
checked-IsTunable :
    (a d : ChannelDefinition)
    → a.complete ≡ true
    → a.ambiguous ≡ false
    → a.supported ≡ true
    → lacks_second_center a ≡ false
    → post_init a ≡ ok d
    → has_center (active_20mhz_centers d) a.primary_frequency_mhz ≡ true
    → IsTunable a.primary_frequency_mhz d × (d.width ≡ a.width)
checked-IsTunable a d c m s l e near =
    let (p, w, c', m', s') = post_init-kept a d c m s l e in
    (
      record {
        primary_kept = p;
        is_complete = c';
        is_unambiguous = m';
        is_supported = s';
        primary_active = near;
      },
      w,
    )

abbrev FixedPlan : ℤ → Result ChannelDefinition → Type 0
FixedPlan primary r =
    Ensures (λ d. IsTunable primary d × ((d.width ≡ mhz80) ⊎ (d.width ≡ mhz20))) (primary ≤ℤ pos 0)
      r

module _ (primary : ℤ) (band : Band) where
  widen : {r : Result ChannelDefinition} → Planned primary mhz20 r → FixedPlan primary r
  widen (returns (t, w)) = returns (t, inr w)
  widen (raises q) = raises q

  -- The loop gives an 80 MHz block that holds the primary, or 20 MHz at the primary.
  first_block-Planned : (channels : List ℤ) → FixedPlan primary (first_block primary band channels)
  unfolding first_block lacks_second_center
  first_block-Planned [] = widen (narrow-Planned primary _ _ _)
  first_block-Planned (channel ∷ channels) =
      elim (Option-cases (channel_to_frequency channel band)) [
        | inl e ↦ rw (e, first_block) (first_block-Planned channels)
        | inr (center, e) ↦
            rw (e, first_block)
              (block center (post_init (default_block primary center)) refl
                (first_block-Planned channels))
      ]
    where
      block :
          (center : ℤ) (r : Result ChannelDefinition)
          → post_init (default_block primary center) ≡ r
          → {rest : Result ChannelDefinition} → FixedPlan primary rest
          → FixedPlan primary (do
            definition ← r
            if has_center (active_20mhz_centers definition) primary then ok definition else rest)
      block center (value_error m) e others = raises (post_init_low _ m e)
      block center (ok d) e others =
          elim (Bool-cases (has_center (active_20mhz_centers d) primary)) [
            | inr away ↦ rw away others
            | inl near ↦
                let (t, w) =
                  checked-IsTunable (default_block primary center) d refl refl refl refl e near in
                rw near (returns (t, inl w))
          ]

  narrow-FixedPlan : FixedPlan primary (post_init (default_narrow primary))
  narrow-FixedPlan = widen (narrow-Planned primary _ _ _)

default-FixedPlan :
    (primary : ℤ) (band : Band) → FixedPlan primary (default_channel_definition primary band)
unfolding default_channel_definition
default-FixedPlan primary ghz2_4 = narrow-FixedPlan primary ghz2_4
default-FixedPlan primary ghz5 = first_block-Planned primary ghz5 (center_channels ghz5)
default-FixedPlan primary ghz6 = first_block-Planned primary ghz6 (center_channels ghz6)
default-FixedPlan primary other = first_block-Planned primary other (center_channels other)

-- At a positive primary frequency, in any band, there is a default definition: it can be tuned to,
-- its primary is among its centres, and it is 80 or 20 MHz wide.
pub default_channel_definition-IsTunable :
    (primary : ℤ) (band : Band)
    → pos 0 <ℤ primary
    → (d : ChannelDefinition) × (default_channel_definition primary band ≡ ok d)
      × IsTunable primary d
      × ((d.width ≡ mhz80) ⊎ (d.width ≡ mhz20))
default_channel_definition-IsTunable primary band positive =
    found (default_channel_definition primary band) refl (default-FixedPlan primary band)
  where
    found :
        (r : Result ChannelDefinition)
        → default_channel_definition primary band ≡ r
        → FixedPlan primary r
        → (d : ChannelDefinition) × (default_channel_definition primary band ≡ ok d)
          × IsTunable primary d
          × ((d.width ≡ mhz80) ⊎ (d.width ≡ mhz20))
    found (ok d) e (returns (t, w)) = (d, e, t, w)
    found (value_error m) e (raises low) = absurd (omega arith)

explicit_checked-IsTunable :
    (a d : ChannelDefinition)
    → a.complete ≡ true
    → a.ambiguous ≡ false
    → a.supported ≡ true
    → lacks_second_center a ≡ false
    → explicit_checked a ≡ ok d
    → IsTunable a.primary_frequency_mhz d × (d.width ≡ a.width)
unfolding explicit_checked
explicit_checked-IsTunable a d c m s l h = go (post_init a) refl h
  where
    go :
        (r : Result ChannelDefinition)
        → post_init a ≡ r
        → (do
          definition ← r
          if has_center (active_20mhz_centers definition) a.primary_frequency_mhz
              then ok definition
              else value_error
                  "the explicit center frequency does not contain the selected primary/control channel")
          ≡ ok d
        → IsTunable a.primary_frequency_mhz d × (d.width ≡ a.width)
    go (value_error e) p q = absurd (cc)
    go (ok b) p q =
        elim (Bool-cases (has_center (active_20mhz_centers b) a.primary_frequency_mhz)) [
          | inl near ↦
              let e : b ≡ d = ground arith in rw e at (checked-IsTunable a b c m s l p near)
          | inr away ↦ absurd (cc (rw away at q))
        ]

-- An explicit definition that is accepted has the width that was asked for and can be tuned to,
-- with the primary among its centres.
pub explicit_channel_definition-IsTunable :
    (primary : ℤ) (width : ChannelWidth) (center1 center2 : Option ℤ) (d : ChannelDefinition)
    → explicit_channel_definition primary width center1 center2 ≡ ok d
    → IsTunable primary d × (d.width ≡ width)
unfolding explicit_channel_definition lacks_second_center
explicit_channel_definition-IsTunable primary width center1 center2 d h =
    explicit_checked-IsTunable
      (explicit_arguments primary width (if same_width width mhz20 then some primary else center1)
        center2)
      d refl refl refl (ground arith) (ground arith)

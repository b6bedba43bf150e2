-- ===== src/Channel/Operation/Branches.antt =====
-- Every branch of `resolve_operation` gives a definition that tells the truth about its primary.
use wlanpi_utilization.Prelude.{
  ℕ, ℤ, pos, ◌≡◌, refl, inl, inr, Bool, true, not, ◌&&◌, Option, none, some, Bool-cases, arith,
  String, Result, ok, value_error, ◌>>=◌, Ensures, returns, raises, eq_ℤ, leb_ℤ, is_some, ◌+ℤ◌,
  ◌-ℤ◌, if◌then◌else◌, ◌<ℤ◌, ◌≤ℤ◌, leb_ℤ→le,
}
use wlanpi_utilization.Channel.Definition.{
  ChannelWidth, mhz160, same_width, ChannelDefinition, fill_center, lacks_second_center, post_init,
  active_20mhz_centers, has_center,
}
use wlanpi_utilization.Channel.Definition.Centers.{
  has_center-contiguous, has_center-narrow, has_center-upper, has_center-lower,
}
use wlanpi_utilization.Channel.Operation.{
  truthy, split_of, separation, he_width_code, vht_of_split, vht_of_code, vht_of_width, he_of_split,
  he_of_width, he_of_code, eht_of_width, eht_width_code, narrow_definition_of, ht_definition_of,
  ht_of_offset, resolved, conflicting, check_primary, OperationFields, Primary,
  ambiguous_definition, operation_definition, resolve_operation,
}

-- A definition that a caller may tune to: it says so, and then its active centres hold the primary;
-- or it is marked incomplete and ambiguous.
pub record IsSound (primary : ℤ) (d : ChannelDefinition) : Type 0 where
  pub primary_kept : d.primary_frequency_mhz ≡ primary
  pub positive : pos 0 <ℤ d.primary_frequency_mhz
  pub complete_or_ambiguous : d.ambiguous ≡ not d.complete
  pub primary_active :
      d.complete ≡ true → has_center (active_20mhz_centers d) d.primary_frequency_mhz ≡ true

-- A constructor call gives a sound definition, or its primary frequency is not positive.
abbrev pub Settles : ℤ → Result ChannelDefinition → Type 0
Settles primary r = Ensures (IsSound primary) (primary ≤ℤ pos 0) r

-- The centre that `__post_init__` assigns, in place.
abbrev centered : ChannelDefinition → ChannelDefinition
centered d = record d { center_frequency1_mhz = fill_center d }

module _ (d : ChannelDefinition) (marks : d.ambiguous ≡ not d.complete) where
  post_init-marks :
      (lacks : Bool) → (if lacks then true else d.ambiguous) ≡ not (d.complete && not lacks)
  post_init-marks lacks = ground arith

  post_init-IsSound :
      (d.complete ≡ true
        → has_center (active_20mhz_centers (centered d)) d.primary_frequency_mhz ≡ true)
      → Settles d.primary_frequency_mhz (post_init d)
  unfolding post_init active_20mhz_centers
  post_init-IsSound active = elim (Bool-cases (leb_ℤ d.primary_frequency_mhz (pos 0))) [
    | inl bad ↦ rw bad (raises (leb_ℤ→le d.primary_frequency_mhz (pos 0) bad))
    | inr good ↦ rw good (
        returns (record {
          primary_kept = refl;
          positive = ground arith;
          complete_or_ambiguous = post_init-marks (lacks_second_center d);
          primary_active = λ c. active (ground arith);
        }))
  ]

-- What a finished constructor call keeps and decides.
post_init_fields :
    (a d : ChannelDefinition)
    → a.ambiguous ≡ not a.complete
    → post_init a ≡ ok d
    → (d.primary_frequency_mhz ≡ a.primary_frequency_mhz)
      × (pos 0 <ℤ a.primary_frequency_mhz)
      × (d.ambiguous ≡ not d.complete)
unfolding post_init
post_init_fields a d marks e = ground arith

post_init_error :
    (a : ChannelDefinition) (m : String)
    → post_init a ≡ value_error m
    → a.primary_frequency_mhz ≤ℤ pos 0
unfolding post_init
post_init_error a m e = ground arith

ambiguous_definition-IsSound :
    (primary : ℤ) (channel : Option ℤ) (phy reason : String)
    → Settles primary (ambiguous_definition primary channel phy reason)
unfolding ambiguous_definition
ambiguous_definition-IsSound primary channel phy reason = post_init-IsSound _ refl (λ c. cc)

-- The complete mark of the first constructor call of `_operation_definition` needs no equation.
operation_definition-IsSound :
    (primary : ℤ) (channel : Option ℤ) (width : ChannelWidth) (center1 center2 : Option ℤ)
    (phy : String) (bitmap : Option ℕ)
    → Settles primary (operation_definition primary channel width center1 center2 phy bitmap)
unfolding operation_definition active_20mhz_centers
operation_definition-IsSound primary channel width center1 center2 phy bitmap =
    checked (post_init arguments) refl
  where
    arguments : ChannelDefinition
    arguments = resolved primary channel width center1 center2 phy bitmap

    refused : Settles primary (post_init (conflicting arguments))
    refused = post_init-IsSound (conflicting arguments) refl (λ c. cc)

    checked :
        (r : Result ChannelDefinition)
        → post_init arguments ≡ r
        → Settles primary (r >>= check_primary primary arguments)
    checked (value_error m) e = raises (post_init_error arguments m e)
    checked (ok d) e = elim (Bool-cases (has_center (active_20mhz_centers d) primary)) [
      | inr away ↦ rw away refused
      | inl near ↦
          let (kept, positive, marks) = post_init_fields arguments d refl e in
          rw near (
            returns (record {
              primary_kept = kept;
              positive = rw kept positive;
              complete_or_ambiguous = marks;
              primary_active = λ c. rw kept near;
            }))
    ]

module _ (o : OperationFields) (p : Primary) where
  narrow-IsSound : Settles p.frequency (narrow_definition_of o p)
  unfolding fill_center active_20mhz_centers
  narrow-IsSound =
      post_init-IsSound _ refl
        (λ c. has_center-contiguous p.frequency p.frequency 20 (has_center-narrow p.frequency))

  upper-IsSound : Settles p.frequency (ht_definition_of p (p.frequency +ℤ pos 10))
  unfolding fill_center active_20mhz_centers
  upper-IsSound = post_init-IsSound _ refl (λ c.
      has_center-contiguous (p.frequency +ℤ pos 10) p.frequency 40 (has_center-lower p.frequency))

  lower-IsSound : Settles p.frequency (ht_definition_of p (p.frequency -ℤ pos 10))
  unfolding fill_center active_20mhz_centers
  lower-IsSound = post_init-IsSound _ refl (λ c.
      has_center-contiguous (p.frequency -ℤ pos 10) p.frequency 40 (has_center-upper p.frequency))

  ht-IsSound : (offset : Option ℤ) → Settles p.frequency (ht_of_offset o p offset)
  ht-IsSound none = narrow-IsSound
  ht-IsSound (some offset) = elim (Bool-cases (eq_ℤ offset (pos 1))) [
    | inl a ↦ rw a upper-IsSound
    | inr a ↦ elim (Bool-cases (eq_ℤ offset (pos 3))) [
      | inl b ↦ rw (a, b) lower-IsSound
      | inr b ↦ elim (Bool-cases (eq_ℤ offset (pos 0))) [
        | inl c ↦ rw (a, b, c) narrow-IsSound
        | inr c ↦ rw (a, b, c) (ambiguous_definition-IsSound _ _ _ _)
      ]
    ]
  ]

  vht_split-IsSound : (split : Option ChannelWidth) → Settles p.frequency (vht_of_split o p split)
  vht_split-IsSound none = ambiguous_definition-IsSound _ _ _ _
  vht_split-IsSound (some width) = elim (Bool-cases (same_width width mhz160)) [
    | inl a ↦ rw a (operation_definition-IsSound _ _ _ _ _ _ _)
    | inr a ↦ rw a (operation_definition-IsSound _ _ _ _ _ _ _)
  ]

  vht_code-IsSound : (code : ℤ) → Settles p.frequency (vht_of_code o p code)
  vht_code-IsSound code = elim (Bool-cases (eq_ℤ code (pos 1))) [
    | inl a ↦ elim (Bool-cases (truthy o.vht_center1)) [
      | inl b ↦ elim (Bool-cases (is_some o.vht_center0)) [
        | inl c ↦ rw (a, b, c) (vht_split-IsSound _)
        | inr c ↦ rw (a, b, c) (ambiguous_definition-IsSound _ _ _ _)
      ]
      | inr b ↦ rw (a, b) (operation_definition-IsSound _ _ _ _ _ _ _)
    ]
    | inr a ↦ elim (Bool-cases (eq_ℤ code (pos 2))) [
      | inl b ↦ rw (a, b) (operation_definition-IsSound _ _ _ _ _ _ _)
      | inr b ↦ elim (Bool-cases (eq_ℤ code (pos 3))) [
        | inl c ↦ rw (a, b, c) (operation_definition-IsSound _ _ _ _ _ _ _)
        | inr c ↦ rw (a, b, c) (ambiguous_definition-IsSound _ _ _ _)
      ]
    ]
  ]

  vht-IsSound : (width : Option ℤ) → Settles p.frequency (vht_of_width o p width)
  vht-IsSound none = ht-IsSound o.ht_secondary_offset
  vht-IsSound (some code) = elim (Bool-cases (eq_ℤ code (pos 0))) [
    | inl a ↦ rw a (ht-IsSound o.ht_secondary_offset)
    | inr a ↦ rw a (vht_code-IsSound code)
  ]

  he_split-IsSound : (split : Option ChannelWidth) → Settles p.frequency (he_of_split o p split)
  he_split-IsSound none = ambiguous_definition-IsSound _ _ _ _
  he_split-IsSound (some width) = operation_definition-IsSound _ _ _ _ _ _ _

  he_width-IsSound : (width : Option ChannelWidth) → Settles p.frequency (he_of_width o p width)
  he_width-IsSound none = ambiguous_definition-IsSound _ _ _ _
  he_width-IsSound (some width) = he_split-IsSound (
      if same_width width mhz160 && truthy o.he_center1
      then split_of (separation o.he_center0 o.he_center1)
      else some width)

  he-IsSound : (code : Option ℤ) → Settles p.frequency (he_of_code o p code)
  he-IsSound none = vht-IsSound o.vht_width
  he-IsSound (some code) = he_width-IsSound (he_width_code code)

  eht_width-IsSound :
      (bitmap : Option ℕ) (width : Option ChannelWidth)
      → Settles p.frequency (eht_of_width o p bitmap width)
  eht_width-IsSound bitmap none = ambiguous_definition-IsSound _ _ _ _
  eht_width-IsSound bitmap (some width) = operation_definition-IsSound _ _ _ _ _ _ _

  pub resolve_operation-IsSound :
      (bitmap : Option ℕ) → Settles p.frequency (resolve_operation o p bitmap)
  unfolding resolve_operation
  resolve_operation-IsSound bitmap = branch o.eht_width
    where
      branch :
          (width : Option ℤ)
          → Settles p.frequency (elim width [
            | none ↦ he_of_code o p o.he_width
            | some code ↦ eht_of_width o p bitmap (eht_width_code code)
          ])
      branch none = he-IsSound o.he_width
      branch (some code) = eht_width-IsSound bitmap (eht_width_code code)

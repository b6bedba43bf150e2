-- ===== src/Channel/Operation/Sound.antt =====
-- What `definition_from_operation_fields` guarantees of a definition that it resolves, and when it
-- raises.
use wlanpi_utilization.Prelude.{
  ℤ, pos, ◌<ℤ◌, ◌≡◌, refl, Option, none, some, Option-cases, inl, inr, arith, Result, ok,
  value_error, ◌>>=◌, returns, raises, Ensures-ok,
}
use wlanpi_utilization.Channel.Frequency.{Band, channel_to_frequency}
use wlanpi_utilization.Channel.Definition.{ChannelDefinition}
use wlanpi_utilization.Channel.Operation.{
  OperationFields, Primary, resolve_operation, primary_of, definition_from_operation_fields,
  advertised_channel, nonzero_bitmap,
}
use wlanpi_utilization.Channel.Operation.Branches.{IsSound, Settles, resolve_operation-IsSound}

-- A definition that is resolved keeps the advertised primary frequency, or the fallback where no
-- channel is advertised; it is complete exactly if it is not ambiguous, and if it is complete its
-- active 20 MHz centres hold the primary.
pub definition_from_operation_fields-IsSound :
    (o : OperationFields) (d : ChannelDefinition)
    → definition_from_operation_fields o ≡ ok (some d)
    → (p : Primary) × (primary_of o (advertised_channel o) ≡ some p) × IsSound p.frequency d
unfolding definition_from_operation_fields
definition_from_operation_fields-IsSound o d h = go (primary_of o (advertised_channel o)) refl h
  where
    resolve : Primary → Result (Option ChannelDefinition)
    resolve p = do
      definition ← resolve_operation o p (nonzero_bitmap o.puncturing_bitmap)
      ok (some definition)

    inner :
        (p : Primary) (r : Result ChannelDefinition)
        → Settles p.frequency r
        → (do definition ← r; ok (some definition)) ≡ ok (some d)
        → IsSound p.frequency d
    inner p (ok e) s q = Ensures-ok s (cc)
    inner p (value_error m) s q = absurd (cc)

    go :
        (found : Option Primary)
        → primary_of o (advertised_channel o) ≡ found
        → (elim found [ none ↦ ok none | some p ↦ resolve p ]) ≡ ok (some d)
        → (p : Primary) × (primary_of o (advertised_channel o) ≡ some p) × IsSound p.frequency d
    go none e q = absurd (cc)
    go (some p) e q = (p, e, inner p _ (resolve_operation-IsSound o p _) q)

channel_to_frequency-positive :
    (c f : ℤ) (b : Band) → channel_to_frequency c b ≡ some f → pos 0 <ℤ f
unfolding channel_to_frequency
channel_to_frequency-positive (pos c) (pos f) b h = ground arith
channel_to_frequency-positive c f b h = ground arith

primary_of-positive :
    (o : OperationFields) (channel : Option ℤ) (p : Primary)
    → ((f : ℤ) → o.fallback_primary_frequency_mhz ≡ some f → pos 0 <ℤ f)
    → primary_of o channel ≡ some p
    → pos 0 <ℤ p.frequency
unfolding primary_of
primary_of-positive o none p h e = ground (arith, h p.frequency)
primary_of-positive o (some c) p h e =
    ground (arith, channel_to_frequency-positive c p.frequency o.band)

-- Where a fallback frequency that is given is positive, the function returns: it never raises.
pub definition_from_operation_fields_total :
    (o : OperationFields)
    → ((f : ℤ) → o.fallback_primary_frequency_mhz ≡ some f → pos 0 <ℤ f)
    → (r : Option ChannelDefinition) × (definition_from_operation_fields o ≡ ok r)
unfolding definition_from_operation_fields
definition_from_operation_fields_total o h =
    elim (Option-cases (primary_of o (advertised_channel o))) [
      | inl e ↦ (none, rw (e, definition_from_operation_fields))
      | inr (p, e) ↦
          rw (e, definition_from_operation_fields)
            (returned p e (resolve_operation-IsSound o p (nonzero_bitmap o.puncturing_bitmap)))
    ]
  where
    returned :
        (p : Primary)
        → primary_of o (advertised_channel o) ≡ some p
        → {r : Result ChannelDefinition} → Settles p.frequency r
        → (d : Option ChannelDefinition) × ((do definition ← r; ok (some definition)) ≡ ok d)
    returned p e (returns {a} s) = (some a, refl)
    returned p e (raises low) =
        absurd (omega (arith, primary_of-positive o (advertised_channel o) p h e, low))

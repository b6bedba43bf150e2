-- ===== src/Frames/Eligible.antt =====
-- Which frames count for retries, and the addresses of a frame.
use wlanpi_utilization.Prelude.{
  ℕ, ◌≡◌, refl, ◌∙◌, inl, inr, Bool, true, false, not, ◌&&◌, ◌||◌, Option, none, some, List, [],
  ◌∷◌, ◌++◌, String, str_eq, eq_iff, has_text, Bool-cases, arith, if◌then◌else◌,
}
use wlanpi_utilization.Frames.{
  TextOperations, FrameRecord, ExclusionReason, bad_fcs, is_group, is_retried_subtype, is_number,
  exclusion_reason, has_bad_fcs, is_beacon, retry_exclusion_reason, retry_eligible, append_address,
  mac_addresses,
}

abbrev pub is_known : Option Bool → Bool
is_known none = false
is_known (some b) = true

-- What a retry-eligible frame is, in one condition.
abbrev pub counts_for_retries : TextOperations → FrameRecord → Bool
counts_for_retries O f =
    not (has_bad_fcs f)
    && not (is_group O f.receiver_address)
    && not (is_group O f.destination_address)
    && is_known f.retry_flag
    && (is_number f.frame_type 2
        || (is_number f.frame_type 0 && is_retried_subtype f.frame_subtype))

not_both : (o : Option ℕ) → is_number o 0 ≡ true → is_number o 2 ≡ false
not_both none h = refl
not_both (some n) h = ground arith

no_reason_counts :
    (O : TextOperations) (kind subtype : Option ℕ) (flag : Option Bool) (r d : Option String)
    → elim (exclusion_reason O kind subtype flag r d) [ none ↦ true | some reason ↦ false ] ≡ (
        not (is_group O r)
        && not (is_group O d)
        && is_known flag
        && (is_number kind 2 || (is_number kind 0 && is_retried_subtype subtype)))
unfolding exclusion_reason
no_reason_counts O kind subtype none r d = ground arith
no_reason_counts O kind subtype (some b) r d = ground (arith, not_both kind)

guarded :
    (bad : Bool) (o : Option ExclusionReason)
    → elim (if bad then some bad_fcs else o) [ none ↦ true | some reason ↦ false ]
      ≡ (not bad && elim o [ none ↦ true | some reason ↦ false ])
guarded true o = refl
guarded false o = refl

retry_eligible-counts :
    (O : TextOperations) (f : FrameRecord) → retry_eligible O f ≡ counts_for_retries O f
unfolding retry_eligible retry_exclusion_reason
retry_eligible-counts O f = ground (
  arith,
  guarded (has_bad_fcs f) (
      exclusion_reason O f.frame_type f.frame_subtype f.retry_flag f.receiver_address
        f.destination_address),
  no_reason_counts O f.frame_type f.frame_subtype f.retry_flag f.receiver_address
      f.destination_address,
)

beacon_not_retried : (o : Option ℕ) → is_number o 8 ≡ true → is_retried_subtype o ≡ false
unfolding is_retried_subtype
beacon_not_retried none h = refl
beacon_not_retried (some n) h = let same : n ≡ 8 = ground arith in rw same refl

beacon_does_not_count :
    (O : TextOperations) (f : FrameRecord) → is_beacon f ≡ true → counts_for_retries O f ≡ false
beacon_does_not_count O f h =
    let management : is_number f.frame_type 0 ≡ true = ground arith in
    let subtype : is_number f.frame_subtype 8 ≡ true = ground arith in
    ground (arith, not_both f.frame_type management, beacon_not_retried f.frame_subtype subtype)

-- A frame counts for retries exactly if its checksum is not known to be bad, neither its receiver
-- nor its destination is a group address, its retry bit is known, and it is a data frame or a
-- management frame of a subtype that is retried. So a beacon never counts for retries.
pub retry_eligible-counts_for_retries :
    (O : TextOperations) (f : FrameRecord)
    → (retry_eligible O f ≡ counts_for_retries O f)
      × (is_beacon f ≡ true → retry_eligible O f ≡ false)
retry_eligible-counts_for_retries O f =
    (retry_eligible-counts O f, λ h. retry_eligible-counts O f ∙ beacon_does_not_count O f h)

-- The texts of an optional address.
abbrev pub is_text : Option String → String → Bool
is_text none a = false
is_text (some t) a = str_eq a t

pub data Distinct : List String → Type 0 where
  none_yet : Distinct []
  one_more :
      (ts : List String) (a : String)
      → Distinct ts
      → has_text ts a ≡ false
      → Distinct (ts ++ (a ∷ []))

append_address-Distinct :
    (ts : List String) (a : Option String) → Distinct ts → Distinct (append_address ts a)
unfolding append_address
append_address-Distinct ts none d = d
append_address-Distinct ts (some a) d = elim (Bool-cases (has_text ts a)) [
  | inl e ↦ rw e d
  | inr e ↦ rw e (one_more ts a d e)
]

has_text-append :
    (ts : List String) (a b : String) → has_text (ts ++ (a ∷ [])) b ≡ (has_text ts b || str_eq b a)
has_text-append [] a b = ground arith
has_text-append (t ∷ ts) a b = ground (arith, has_text-append ts a b)

has_text-append_address :
    (ts : List String) (a : Option String) (b : String)
    → has_text (append_address ts a) b ≡ (has_text ts b || is_text a b)
unfolding append_address
has_text-append_address ts none b = ground arith
has_text-append_address ts (some a) b = elim (Bool-cases (has_text ts a)) [
  | inl e ↦ rw e (elim (Bool-cases (str_eq b a)) [
    | inl g ↦ let same : b ≡ a = (eq_iff b a).0 g in rw (same, e) refl
    | inr g ↦ rw g (ground arith)
  ])
  | inr e ↦ rw e (has_text-append ts a b)
]

-- The addresses of a frame are the five that it has, each once.
pub mac_addresses-Distinct :
    (f : FrameRecord)
    → Distinct (mac_addresses f)
      × ((b : String)
          → has_text (mac_addresses f) b ≡ (
              is_text f.bssid b
              || is_text f.transmitter_address b
              || is_text f.receiver_address b
              || is_text f.source_address b
              || is_text f.destination_address b))
unfolding mac_addresses
mac_addresses-Distinct f = (
  append_address-Distinct _ f.destination_address (
      append_address-Distinct _ f.source_address (
        append_address-Distinct _ f.receiver_address (
          append_address-Distinct _ f.transmitter_address
            (append_address-Distinct [] f.bssid none_yet)))),
  λ b. rw has_text-append_address (
      rw has_text-append_address (
        rw has_text-append_address (rw has_text-append_address (rw has_text-append_address refl)))),
)

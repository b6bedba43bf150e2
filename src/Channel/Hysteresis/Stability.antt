-- ===== src/Channel/Hysteresis/Stability.antt =====
-- `consider` asks for a retune only after a stable request.
use text.Mathlib.TextPositions.{eq_refl}
use wlanpi_utilization.Prelude.{
  ℕ, suc, ◌+◌, ◌≤◌, ℤ, eq_ℤ, ◌==◌, str_eq, leb, ◌≡◌, refl, ◌∙◌, Bool, true, false, ◌&&◌, Option,
  none, some, List, [], ◌∷◌, arith, Bool-cases, inl, inr,
}
use wlanpi_utilization.Channel.Definition.{
  ChannelWidth, mhz20, ChannelDefinition, same_tuning, same_width, same_option,
}
use wlanpi_utilization.Channel.Hysteresis.{
  RetuneHysteresis, fresh, same_bool, has_settled, same_definition, is_candidate, consider,
}

-- One call of `consider`.
pub record Call : Type 0 where
  pub requested : ChannelDefinition
  pub actual : ChannelDefinition
  pub now : ℕ

-- The newest calls, newest first: `count` of them ask for a definition equal to `c` that the radio
-- does not have, and the oldest of these came at `since`.
pub data Streak (c : ChannelDefinition) : ℕ → ℕ → List Call → Type 0 where
  first :
      (e : Call) (es : List Call)
      → same_definition e.requested c ≡ true
      → same_tuning e.requested e.actual ≡ false
      → Streak c 1 e.now (e ∷ es)
  again :
      {count since : ℕ} {es : List Call} (e : Call)
      → same_definition e.requested c ≡ true
      → same_tuning e.requested e.actual ≡ false
      → Streak c count since es
      → Streak c (suc count) since (e ∷ es)

-- The calls in order; the state after the last one.
unfoldable pub run : RetuneHysteresis → List Call → RetuneHysteresis
run h [] = h
run h (e ∷ es) = let before = run h es in (consider before e.requested e.actual e.now).0

-- The state counts the streak of its candidate.
data Follows (h : RetuneHysteresis) (es : List Call) : Type 0 where
  idle : h.candidate ≡ none → Follows h es
  following :
      (c : ChannelDefinition) (count since : ℕ)
      → h.candidate ≡ some c
      → h.candidate_since ≡ some since
      → h.observations ≡ count
      → Streak c count since es
      → Follows h es

same_width_refl : (w : ChannelWidth) → same_width w w ≡ true
same_width_refl mhz20 = refl
same_width_refl _ = refl

same_option_refl {ℓ} :
    {A : Type ℓ} (same : A → A → Bool)
    → ((a : A) → same a a ≡ true)
    → (o : Option A) → same_option same o o ≡ true
same_option_refl same h none = refl
same_option_refl same h (some a) = h a

same_bool_refl : (b : Bool) → same_bool b b ≡ true
same_bool_refl true = refl
same_bool_refl false = refl

eq_ℤ_refl : (x : ℤ) → eq_ℤ x x ≡ true
eq_ℤ_refl x = ground arith

eq_ℕ_refl : (x : ℕ) → (x == x) ≡ true
eq_ℕ_refl x = ground arith

same_definition_refl : (d : ChannelDefinition) → same_definition d d ≡ true
unfolding same_definition
same_definition_refl d =
    rw
      (
        eq_ℤ_refl d.primary_frequency_mhz,
        same_width_refl d.width,
        same_option_refl eq_ℤ eq_ℤ_refl d.center_frequency1_mhz,
        same_option_refl eq_ℤ eq_ℤ_refl d.center_frequency2_mhz,
        same_option_refl eq_ℤ eq_ℤ_refl d.primary_channel,
        eq_refl d.phy,
        same_option_refl ◌==◌ eq_ℕ_refl d.puncturing_bitmap,
        same_bool_refl d.complete,
        same_bool_refl d.supported,
        same_bool_refl d.ambiguous,
      )
      (same_option_refl str_eq (λ s. eq_refl s) d.reason)

module _ (h : RetuneHysteresis) (es : List Call) (e : Call) where
  Follows-again :
      (c : ChannelDefinition) (count since : ℕ)
      → h.candidate ≡ some c
      → h.candidate_since ≡ some since
      → h.observations ≡ count
      → Streak c count since es
      → same_tuning e.requested e.actual ≡ false
      → same_definition e.requested c ≡ true
      → Follows (consider h e.requested e.actual e.now).0 (e ∷ es)
  unfolding consider
  Follows-again c count since hc hs ho k t n =
      let n' : is_candidate e.requested h.candidate ≡ true = rw hc n in
      elim (Bool-cases (
        leb h.minimum_observations (h.observations + 1)
        && has_settled h.candidate_since e.now h.stability)) [
          | inl f ↦ rw (t, n', f) (idle refl)
          | inr f ↦
              rw (t, n', f) (following c (suc count) since hc hs (omega arith) (again e n t k))
        ]

  Follows-consider : Follows h es → Follows (consider h e.requested e.actual e.now).0 (e ∷ es)
  unfolding consider
  Follows-consider f = elim (Bool-cases (same_tuning e.requested e.actual)) [
    | inl t ↦ rw t (idle refl)
    | inr t ↦ elim (Bool-cases (is_candidate e.requested h.candidate)) [
      | inr n ↦
          rw (t, n)
            (following e.requested 1 e.now refl refl refl
              (first e es (same_definition_refl e.requested) t))
      | inl n ↦ inherit n t f
    ]
  ]
    where
      inherit :
          is_candidate e.requested h.candidate ≡ true
          → same_tuning e.requested e.actual ≡ false
          → Follows h es
          → Follows (consider h e.requested e.actual e.now).0 (e ∷ es)
      inherit n t (idle hc) = absurd (ground arith)
      inherit n t (following c count since hc hs ho k) =
          Follows-again c count since hc hs ho k t (rw hc at n)

  settings-consider :
      ((consider h e.requested e.actual e.now).0.stability ≡ h.stability)
      × ((consider h e.requested e.actual e.now).0.minimum_observations ≡ h.minimum_observations)
  unfolding consider
  settings-consider = ground arith

  -- What a request for a retune says of the state.
  retune_needs :
      (consider h e.requested e.actual e.now).1 ≡ true
      → (same_tuning e.requested e.actual ≡ false)
        × (is_candidate e.requested h.candidate ≡ true)
        × (h.minimum_observations ≤ h.observations + 1)
        × (has_settled h.candidate_since e.now h.stability ≡ true)
  unfolding consider
  retune_needs r = ground arith

module _ (stability minimum : ℕ) where
  Follows-run : (es : List Call) → Follows (run (fresh stability minimum) es) es
  unfolding run
  Follows-run [] = idle refl
  Follows-run (e ∷ es) = Follows-consider (run (fresh stability minimum) es) es e (Follows-run es)

  settings-run :
      (es : List Call)
      → ((run (fresh stability minimum) es).stability ≡ stability)
        × ((run (fresh stability minimum) es).minimum_observations ≡ minimum)
  unfolding run
  settings-run [] = (refl, refl)
  settings-run (e ∷ es) =
      let (a, b) = settings-consider (run (fresh stability minimum) es) es e in
      let (c, d) = settings-run es in (a ∙ c, b ∙ d)

  -- A retune is asked for only if the newest calls, at least as many as the minimum, all asked for
  -- the same definition, which the radio did not have, over at least the stability time.
  pub consider-Streak :
      (es : List Call) (e : Call)
      → (consider (run (fresh stability minimum) es) e.requested e.actual e.now).1 ≡ true
      → (c : ChannelDefinition) × (count : ℕ) × (since : ℕ) × Streak c count since (e ∷ es)
        × (minimum ≤ count)
        × (since + stability ≤ e.now)
  consider-Streak es e r = go (Follows-run es)
    where
      h : RetuneHysteresis
      h = run (fresh stability minimum) es

      go :
          Follows h es
          → (c : ChannelDefinition) × (count : ℕ) × (since : ℕ) × Streak c count since (e ∷ es)
            × (minimum ≤ count)
            × (since + stability ≤ e.now)
      go (idle hc) = let (t, n, m, s) = retune_needs h es e r in absurd (ground arith)
      go (following c count since hc hs ho k) =
          let (t, n, m, s) = retune_needs h es e r in
          let (a, b) = settings-run es in
          (c, suc count, since, again e (rw hc at n) t k, omega arith, ground (arith, rw hs at s))

-- ===== src/Survey/Pairing.antt =====
-- Which samples survey.py subtracts from which.
use mathlib.Core.List.{Memᴰ}
use mathlib.Core.List.Memᴰ.{head, tail}
use mathlib.Core.List.Memᴰ
use wlanpi_utilization.Prelude.{
  ℤ, eq_ℤ, eq_ℤ_iff, ◌≡◌, refl, sym, ap, ◌∙◌, inl, inr, not, ◌&&◌, Option, none, some, List, [],
  ◌∷◌, is_some, Bool-cases, if◌then◌else◌,
}
use wlanpi_utilization.Survey.{
  SurveySample, with_frequency, pairs_by_frequency, pairs_by_position, paired_samples,
  has_frequency,
}

-- A pair that may be subtracted: both samples come from the dumps, and they have one frequency, or
-- both have none.
pub record IsPaired (previous current : List SurveySample) (pair : SurveySample × SurveySample)
    : Type 0 where
  pub from_previous : Memᴰ pair.0 previous
  pub from_current : Memᴰ pair.1 current
  pub one_frequency : pair.0.frequency_mhz ≡ pair.1.frequency_mhz

abbrev Found : ℤ → List SurveySample → Option SurveySample → Type 0
Found f ss none = Unit
Found f ss (some s) = Memᴰ s ss × (s.frequency_mhz ≡ some f)

with_frequency-Found : (f : ℤ) (ss : List SurveySample) → Found f ss (with_frequency f ss)
unfolding with_frequency
with_frequency-Found f [] = tt
with_frequency-Found f (s ∷ ss) = go (with_frequency f ss) (with_frequency-Found f ss)
  where
    own :
        (g : Option ℤ)
        → s.frequency_mhz ≡ g
        → Found f (s ∷ ss) (elim g [ none ↦ none | some g ↦ if eq_ℤ f g then some s else none ])
    own none e = tt
    own (some g) e = elim (Bool-cases (eq_ℤ f g)) [
      | inl same ↦ rw same (head refl, e ∙ ap (λ x. some x) (sym ((eq_ℤ_iff f g).0 same)))
      | inr other ↦ rw other tt
    ]

    go :
        (later : Option SurveySample)
        → Found f ss later
        → Found f (s ∷ ss) (elim later [
          | some found ↦ some found
          | none ↦ elim s.frequency_mhz [ none ↦ none | some g ↦ if eq_ℤ f g then some s else none ]
        ])
    go (some found) (m, e) = (tail m, e)
    go none u = own s.frequency_mhz refl

module _ (p c : SurveySample) (previous current : List SurveySample) where
  IsPaired-there :
      {pair : SurveySample × SurveySample}
      → IsPaired previous current pair
      → IsPaired (p ∷ previous) (c ∷ current) pair
  IsPaired-there h = record {
    from_previous = tail h.from_previous;
    from_current = tail h.from_current;
    one_frequency = h.one_frequency;
  }

  IsPaired-later :
      {pair : SurveySample × SurveySample}
      → IsPaired previous current pair
      → IsPaired previous (c ∷ current) pair
  IsPaired-later h = record {
    from_previous = h.from_previous;
    from_current = tail h.from_current;
    one_frequency = h.one_frequency;
  }

abbrev AllPaired :
    (previous current : List SurveySample) (pairs : List (SurveySample × SurveySample)) → Type 0
AllPaired previous current pairs =
    (pair : SurveySample × SurveySample) → Memᴰ pair pairs → IsPaired previous current pair

pairs_by_frequency-IsPaired :
    (previous current : List SurveySample)
    → AllPaired previous current (pairs_by_frequency previous current)
unfolding pairs_by_frequency
pairs_by_frequency-IsPaired previous [] = λ pair m. absurd (Memᴰ.not-nil m)
pairs_by_frequency-IsPaired previous (c ∷ current) = go c.frequency_mhz refl (λ pair m.
    IsPaired-later c c previous current (pairs_by_frequency-IsPaired previous current pair m))
  where
    at :
        (f : ℤ)
        → c.frequency_mhz ≡ some f
        → (o : Option SurveySample) → Found f previous o
        → AllPaired previous (c ∷ current) (pairs_by_frequency previous current)
        → AllPaired previous (c ∷ current) (elim o [
          | none ↦ pairs_by_frequency previous current
          | some found ↦ (found, c) ∷ pairs_by_frequency previous current
        ])
    at f e none u rest = rest
    at f e (some s) (m, e') rest = λ pair t. elim (Memᴰ.cases_cons t) [
      | inr t' ↦ rest pair t'
      | inl same ↦
          rw same
            (record { from_previous = m; from_current = head refl; one_frequency = e' ∙ sym e })
    ]

    go :
        (g : Option ℤ)
        → c.frequency_mhz ≡ g
        → AllPaired previous (c ∷ current) (pairs_by_frequency previous current)
        → AllPaired previous (c ∷ current) (elim g [
          | none ↦ pairs_by_frequency previous current
          | some f ↦ elim (with_frequency f previous) [
            | none ↦ pairs_by_frequency previous current
            | some found ↦ (found, c) ∷ pairs_by_frequency previous current
          ]
        ])
    go none e rest = rest
    go (some f) e rest = at f e (with_frequency f previous) (with_frequency-Found f previous) rest

pairs_by_position-IsPaired :
    (previous current : List SurveySample)
    → AllPaired previous current (pairs_by_position previous current)
unfolding pairs_by_position
pairs_by_position-IsPaired [] current = λ pair m. absurd (Memᴰ.not-nil m)
pairs_by_position-IsPaired (p ∷ previous) [] = λ pair m. absurd (Memᴰ.not-nil m)
pairs_by_position-IsPaired (p ∷ previous) (c ∷ current) =
    go p.frequency_mhz c.frequency_mhz refl refl (λ pair m.
      IsPaired-there p c previous current (pairs_by_position-IsPaired previous current pair m))
  where
    go :
        (f g : Option ℤ)
        → p.frequency_mhz ≡ f
        → c.frequency_mhz ≡ g
        → AllPaired (p ∷ previous) (c ∷ current) (pairs_by_position previous current)
        → AllPaired (p ∷ previous) (c ∷ current) (
            if not (is_some f) && not (is_some g)
            then (p, c) ∷ pairs_by_position previous current
            else pairs_by_position previous current)
    go (some f) g e e' rest = rest
    go none (some g) e e' rest = rest
    go none none e e' rest = λ pair t. elim (Memᴰ.cases_cons t) [
      | inr t' ↦ rest pair t'
      | inl same ↦ rw same (record {
        from_previous = head refl;
        from_current = head refl;
        one_frequency = e ∙ sym e';
      })
    ]

-- Counters are never subtracted across a change of channel: every pair takes one sample from each
-- dump, and its samples have the same frequency, or both have none.
pub paired_samples-IsPaired :
    (previous current : List SurveySample) (pair : SurveySample × SurveySample)
    → Memᴰ pair (paired_samples previous current)
    → IsPaired previous current pair
unfolding paired_samples
paired_samples-IsPaired previous current pair =
    elim (Bool-cases (has_frequency previous && has_frequency current)) [
      | inl e ↦ rw e (pairs_by_frequency-IsPaired previous current pair)
      | inr e ↦ rw e (pairs_by_position-IsPaired previous current pair)
    ]

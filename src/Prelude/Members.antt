-- ===== src/Prelude/Members.antt =====
-- Membership in the lists that the code filters, searches and takes an extremum of.
use mathlib.Core.Path.{◌≡◌, refl, sym, ap, ◌∙◌}
use mathlib.Core.Bool.{Bool, true, false}
use mathlib.Core.Logic.{inl, inr}
use mathlib.Core.List.{List, [], ◌∷◌, Memᴰ, map}
use mathlib.Core.List.Memᴰ.{head, tail}
use mathlib.Core.List.Memᴰ
use native.Mathlib.Omega.{arith}
use wlanpi_utilization.Prelude.Tests.{if◌then◌else◌, Bool-cases}
use wlanpi_utilization.Prelude.Lists.{filter, any, all}

-- The first of the best elements, as `max` and `min` with a key choose it: `better y x` holds when
-- y's key is strictly beyond x's.
unfoldable pub first_best {ℓ} : {A : Type ℓ} → (A → A → Bool) → A → List A → A
first_best better x [] = x
first_best better x (y ∷ ys) = first_best better (if better y x then y else x) ys

module _ {ℓ} {A : Type ℓ} where
  pub first_best-mem :
      (better : A → A → Bool) (x : A) (xs : List A) → Memᴰ (first_best better x xs) (x ∷ xs)
  unfolding first_best
  first_best-mem better x [] = head refl
  first_best-mem better x (y ∷ ys) = elim (Bool-cases (better y x)) [
    | inl e ↦ rw e (tail (first_best-mem better y ys))
    | inr e ↦ rw e (skip (first_best-mem better x ys))
  ]
    where
      skip : {z : A} → Memᴰ z (x ∷ ys) → Memᴰ z (x ∷ y ∷ ys)
      skip (head e) = head e
      skip (tail m) = tail (tail m)

  -- Every element is below the one that is chosen, in a preorder that the key's order refines.
  pub first_best-above :
      (better : A → A → Bool) (R : A → A → Type 0)
      → ((x : A) → R x x)
      → ((x y z : A) → R x y → R y z → R x z)
      → ((x y : A) → better y x ≡ true → R x y)
      → ((x y : A) → better y x ≡ false → R y x)
      → (x : A) (xs : List A) (y : A) → Memᴰ y (x ∷ xs)
      → R y (first_best better x xs)
  unfolding first_best
  first_best-above better R same trans up down x [] y (head e) = rw e (same x)
  first_best-above better R same trans up down x [] y (tail m) = absurd (Memᴰ.not-nil m)
  first_best-above better R same trans up down x (z ∷ ys) y m = elim (Bool-cases (better z x)) [
    | inl e ↦
        let top = first_best-above better R same trans up down z ys in
        rw e (elim (Memᴰ.cases_cons m) [
          | inl q ↦ rw q (trans x z (first_best better z ys) (up x z e) (top z (head refl)))
          | inr t ↦ top y t
        ])
    | inr e ↦
        let top = first_best-above better R same trans up down x ys in
        rw e (elim (Memᴰ.cases_cons m) [
          | inl q ↦ rw q (top x (head refl))
          | inr t ↦ elim (Memᴰ.cases_cons t) [
            | inl q ↦ rw q (trans z x (first_best better x ys) (down x z e) (top x (head refl)))
            | inr t' ↦ top y (tail t')
          ]
        ])
  ]

  pub filter-mem :
      (p : A → Bool) (xs : List A) {x : A} → Memᴰ x (filter p xs) → Memᴰ x xs × (p x ≡ true)
  filter-mem p [] m = absurd (Memᴰ.not-nil m)
  filter-mem p (y ∷ ys) m = elim (Bool-cases (p y)) [
    | inr e ↦ let (a, b) = filter-mem p ys (rw e at m) in (tail a, b)
    | inl e ↦ elim (Memᴰ.cases_cons (rw e at m)) [
      | inl same ↦ (head same, ap p same ∙ e)
      | inr t ↦ let (a, b) = filter-mem p ys t in (tail a, b)
    ]
  ]

  pub mem-filter :
      (p : A → Bool) (xs : List A) {x : A} → Memᴰ x xs → p x ≡ true → Memᴰ x (filter p xs)
  mem-filter p [] m h = absurd (Memᴰ.not-nil m)
  mem-filter p (y ∷ ys) (head same) h = let e : p y ≡ true = sym (ap p same) ∙ h in rw e (head same)
  mem-filter p (y ∷ ys) (tail m) h = elim (Bool-cases (p y)) [
    | inl e ↦ rw e (tail (mem-filter p ys m h))
    | inr e ↦ rw e (mem-filter p ys m h)
  ]

  pub any-mem : (p : A → Bool) (xs : List A) {x : A} → Memᴰ x xs → p x ≡ true → any p xs ≡ true
  any-mem p [] m h = absurd (Memᴰ.not-nil m)
  any-mem p (y ∷ ys) (head same) h = let e : p y ≡ true = sym (ap p same) ∙ h in rw e refl
  any-mem p (y ∷ ys) (tail m) h = elim (Bool-cases (p y)) [
    | inl e ↦ rw e refl
    | inr e ↦ rw (e, any-mem p ys m h) refl
  ]

  pub mem-any : (p : A → Bool) (xs : List A) → any p xs ≡ true → (x : A) × Memᴰ x xs × (p x ≡ true)
  mem-any p [] h = absurd (cc)
  mem-any p (y ∷ ys) h = elim (Bool-cases (p y)) [
    | inl e ↦ (y, head refl, e)
    | inr e ↦ let (x, m, q) = mem-any p ys (rw e at h) in (x, tail m, q)
  ]

  pub all-mem : (p : A → Bool) (xs : List A) {x : A} → all p xs ≡ true → Memᴰ x xs → p x ≡ true
  all-mem p [] h m = absurd (Memᴰ.not-nil m)
  all-mem p (y ∷ ys) h (head same) = let e : p y ≡ true = ground arith in ap p same ∙ e
  all-mem p (y ∷ ys) h (tail m) = let e : all p ys ≡ true = ground arith in all-mem p ys e m

  pub mem-map {ℓ'} :
      {B : Type ℓ'} (f : A → B) (xs : List A) {x : A} → Memᴰ x xs → Memᴰ (f x) (map f xs)
  mem-map f [] m = absurd (Memᴰ.not-nil m)
  mem-map f (y ∷ ys) (head same) = head (ap f same)
  mem-map f (y ∷ ys) (tail m) = tail (mem-map f ys m)

  pub map-mem {ℓ'} :
      {B : Type ℓ'} (f : A → B) (xs : List A) {b : B}
      → Memᴰ b (map f xs)
      → (x : A) × Memᴰ x xs × (b ≡ f x)
  map-mem f [] m = absurd (Memᴰ.not-nil m)
  map-mem f (y ∷ ys) (head same) = (y, head refl, same)
  map-mem f (y ∷ ys) (tail m) = let (x, t, e) = map-mem f ys m in (x, tail t, e)

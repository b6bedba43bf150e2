-- ===== src/Analyzer/Selection/Maxima.antt =====
-- The largest of the numbers of a list, and the numbers of the states that have one.
use mathlib.Core.List.Memᴰ.{head, tail}
use mathlib.Core.List.Memᴰ
use wlanpi_utilization.Prelude.{
  ℤ, ◌≤ℤ◌, ltb_ℤ, ◌≡◌, refl, sym, ap, ◌∙◌, inl, inr, true, false, Option, none, some, List, [], ◌∷◌,
  Memᴰ, Option-cases, arith, first_best, first_best-mem, first_best-above,
}
use wlanpi_utilization.Analyzer.Selection.{some_of, max_ℤ}

pub max_ℤ-above :
    (xs : List ℤ) (m : ℤ) → max_ℤ xs ≡ some m → Memᴰ m xs × ((x : ℤ) → Memᴰ x xs → x ≤ℤ m)
unfolding max_ℤ
max_ℤ-above [] m h = absurd (cc)
max_ℤ-above (x ∷ xs) m h =
    let e : first_best (λ y x. ltb_ℤ x y) x xs ≡ m = ground arith in
    let chosen : Memᴰ (first_best (λ y x. ltb_ℤ x y) x xs) (x ∷ xs) =
      first_best-mem (λ y x. ltb_ℤ x y) x xs in
    (
      rw e at chosen,
      λ y t. rw e at (
          first_best-above (λ y x. ltb_ℤ x y) (λ a b. a ≤ℤ b) (λ a. omega arith)
            (λ a b c p q. omega (arith, p, q)) (λ a b g. up a b g) (λ a b g. down a b g) x xs y t),
    )
  where
    up : (a b : ℤ) → ltb_ℤ a b ≡ true → a ≤ℤ b
    up a b g = ground arith

    down : (a b : ℤ) → ltb_ℤ a b ≡ false → b ≤ℤ a
    down a b g = ground arith

module _ {ℓ} {A : Type ℓ} (f : A → Option ℤ) where
  pub some_of-mem : (ss : List A) {s : A} {r : ℤ} → Memᴰ s ss → f s ≡ some r → Memᴰ r (some_of f ss)
  unfolding some_of
  some_of-mem [] m e = absurd (Memᴰ.not-nil m)
  some_of-mem (t ∷ ss) (head q) e = let g = sym (ap f q) ∙ e in rw (g, some_of) (head refl)
  some_of-mem (t ∷ ss) {r = r} (tail m) e = elim (Option-cases (f t)) [
    | inl g ↦ rw (g, some_of) (some_of-mem ss m e)
    | inr (x, g) ↦ rw (g, some_of) (tail (some_of-mem ss m e))
  ]

  pub mem-some_of :
      (ss : List A) {r : ℤ} → Memᴰ r (some_of f ss) → (s : A) × Memᴰ s ss × (f s ≡ some r)
  unfolding some_of
  mem-some_of [] m = absurd (Memᴰ.not-nil m)
  mem-some_of (t ∷ ss) m = elim (Option-cases (f t)) [
    | inl g ↦ let (s, q, e) = mem-some_of ss (rw (g, some_of) at m) in (s, tail q, e)
    | inr (x, g) ↦ elim (Memᴰ.cases_cons (rw (g, some_of) at m)) [
      | inl q ↦ (t, head refl, g ∙ ap (λ k. some k) (sym q))
      | inr m' ↦ let (s, q, e) = mem-some_of ss m' in (s, tail q, e)
    ]
  ]

pub max_ℤ-none : (xs : List ℤ) (x : ℤ) → max_ℤ xs ≡ none → Memᴰ x xs → ⊥
unfolding max_ℤ
max_ℤ-none [] x h m = Memᴰ.not-nil m
max_ℤ-none (y ∷ ys) x h m = cc

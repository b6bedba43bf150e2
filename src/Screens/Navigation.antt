-- ===== src/Screens/Navigation.antt =====
-- The active screen is one of the screens, and a step back undoes a step.
use native.Mathlib.Nat.{mod-eq_of_lt, mod-lt, mod_self}
use wlanpi_utilization.Prelude.{
  ℕ, suc, zero, ◌-◌, ◌%◌, ◌<◌, ◌==◌, ℤ, pos, negsuc, ◌+ℤ◌, ◌-ℤ◌, ltb_ℤ, floor_mod, ◌≡◌, refl, ◌∙◌,
  inl, inr, false, List, [], ◌∷◌, Bool-cases, arith,
}
use wlanpi_utilization.Screens.{
  ScreenManager, set_active_index, is_debounced, navigate, navigate_up, navigate_down,
}

-- The manager shows one of its screens.
abbrev pub IsShown : ScreenManager → Type 0
IsShown m = m.active_index < m.screen_count

floor_mod-lt : (a : ℤ) (n : ℕ) → 0 < n → floor_mod a n < n
unfolding floor_mod
floor_mod-lt (pos a) n h = mod-lt a h
floor_mod-lt (negsuc a) n h = omega (arith, h)

navigate-IsShown :
    (m : ScreenManager) (offset now : ℤ)
    → IsShown m
    → IsShown (navigate m offset now).0 × ((navigate m offset now).0.screen_count ≡ m.screen_count)
unfolding navigate set_active_index
navigate-IsShown m offset now h = elim (Bool-cases (is_debounced m now)) [
  | inl e ↦ rw e (h, refl)
  | inr e ↦
      rw e (floor_mod-lt (pos m.active_index +ℤ offset) m.screen_count (omega (arith, h)), refl)
]

-- A history of turns of the wheel, each with its offset and time.
unfoldable pub navigations : List (ℤ × ℤ) → ScreenManager → ScreenManager
navigations [] m = m
navigations ((offset, now) ∷ rest) m = navigations rest (navigate m offset now).0

-- After any turns, by any offsets at any times, the active index is that of a screen, and the
-- screens are as many as they were.
pub navigations-IsShown :
    (turns : List (ℤ × ℤ)) (m : ScreenManager)
    → IsShown m
    → IsShown (navigations turns m) × ((navigations turns m).screen_count ≡ m.screen_count)
unfolding navigations
navigations-IsShown [] m h = (h, refl)
navigations-IsShown ((offset, now) ∷ rest) m h =
    let (shown, same) = navigate-IsShown m offset now h in
    let (later, count) = navigations-IsShown rest (navigate m offset now).0 shown in
    (later, count ∙ same)

sum_next : (i : ℕ) → pos i +ℤ pos 1 ≡ pos (suc i)
unfolding ◌+ℤ◌
sum_next i = ground arith

sum_previous : (i : ℕ) → pos (suc i) +ℤ negsuc 0 ≡ pos i
unfolding ◌+ℤ◌
sum_previous i = ground arith

sum_wrap : pos 0 +ℤ negsuc 0 ≡ negsuc 0
unfolding ◌+ℤ◌
sum_wrap = refl

-- j is the index one step after i, among n.
data Follows (n : ℕ) : ℕ → ℕ → Type 0 where
  within : (i : ℕ) → suc i < n → Follows n i (suc i)
  around : (i : ℕ) → n ≡ suc i → Follows n i 0

follows : (i n : ℕ) → i < n → (j : ℕ) × Follows n i j
follows i n h = elim (Bool-cases (suc i == n)) [
  | inl e ↦ (0, around i (ground arith))
  | inr e ↦ (suc i, within i (ground arith))
]

precedes : (j n : ℕ) → j < n → (i : ℕ) × Follows n i j
precedes zero n h = (n - 1, around (n - 1) (omega (arith, h)))
precedes (suc j) n h = (j, within j h)

next : {n i j : ℕ} → Follows n i j → floor_mod (pos i +ℤ pos 1) n ≡ j
unfolding floor_mod
next (within i h) = rw (sum_next i) (mod-eq_of_lt h)
next (around i h) = rw (sum_next i, h) (mod_self (suc i))

previous : {n i j : ℕ} → Follows n i j → floor_mod (pos j +ℤ negsuc 0) n ≡ i
unfolding floor_mod
previous {n} (within i h) = rw (sum_previous i) (mod-eq_of_lt (omega (arith, h)))
previous {n} (around i h) =
    let small : 0 % n ≡ 0 = mod-eq_of_lt (omega (arith, h)) in
    rw (sum_wrap, small) (omega (arith, h))

-- Two turns that are both heard, the second by `back` after the first by `offset`.
module _ (m : ScreenManager) (first second : ℤ) where
  abbrev pub Heard : Type 0
  Heard = (is_debounced m first ≡ false) × (ltb_ℤ (second -ℤ first) m.debounce_seconds ≡ false)

  turns-index :
      (offset back : ℤ)
      → Heard
      → (navigate (navigate m offset first).0 back second).0.active_index
        ≡ floor_mod
            (pos (floor_mod (pos m.active_index +ℤ offset) m.screen_count) +ℤ back)
            m.screen_count
  unfolding navigate set_active_index
  turns-index offset back (e, g) = rw (e, g) refl

-- A turn that is heard, and one back that is heard, end at the screen that was shown, in either
-- order and past either end of the screens.
pub navigate-back :
    (m : ScreenManager) (first second : ℤ)
    → IsShown m
    → Heard m first second
    → ((navigate_up (navigate_down m first).0 second).0.active_index ≡ m.active_index)
      × ((navigate_down (navigate_up m first).0 second).0.active_index ≡ m.active_index)
navigate-back m first second shown heard =
    let (j, f) = follows m.active_index m.screen_count shown in
    let (i, g) = precedes m.active_index m.screen_count shown in
    (
      turns-index m first second (pos 1) (negsuc 0) heard ∙ rw (next f) (previous f),
      turns-index m first second (negsuc 0) (pos 1) heard ∙ rw (previous g) (next g),
    )

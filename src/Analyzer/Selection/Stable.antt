-- ===== src/Analyzer/Selection/Stable.antt =====
-- Which current BSSID a choice keeps: the screens do not move between equals.
use mathlib.Core.List.Memᴰ
use wlanpi_utilization.Prelude.{
  ℤ, pos, ◌≤ℤ◌, eq_ℤ, String, str_eq, eq_iff, ◌≡◌, refl, sym, ap, inl, inr, true, some, List, [],
  ◌∷◌, Memᴰ, filter, filter-mem, mem-filter, map, mem-map, map-mem, Option-cases, first_best,
  any-mem, ok, arith,
}
use wlanpi_utilization.Analyzer.Selection.{
  BssidState, has_bssid, retained, select_finalist, select_candidate, select_bssid, finalists,
  near_equal, qbss_present, is_stronger, station_count_key, max_ℤ,
}
use wlanpi_utilization.Analyzer.Selection.Maxima.{max_ℤ-above, max_ℤ-none}
use wlanpi_utilization.Analyzer.Selection.Extremal.{
  IsSelected, near_equal-Near, Near-near_equal, not-negative,
}

str_eq_refl : (b : String) → str_eq b b ≡ true
str_eq_refl b = (eq_iff b b).1 refl

module _ {ℓ} {A : Type ℓ} (name : A → String) (states : List A) where
  -- b is the name of one of the states.
  abbrev IsName : String → Type ℓ
  IsName b = (x : A) × Memᴰ x states × (name x ≡ b)

  pub has_bssid-name : (b : String) → IsName b → has_bssid name states b ≡ true
  has_bssid-name b (x, m, e) = any-mem (λ s. str_eq (name s) b) states m (rw e (str_eq_refl b))

  -- The name of a state in the list is kept.
  pub retained-name : (b other : String) → IsName b → retained name states (some b) other ≡ b
  retained-name b other h = rw (has_bssid-name b h) refl

eq_ℤ_of_le : (a b : ℤ) → b ≤ℤ a → a ≤ℤ b → eq_ℤ a b ≡ true
eq_ℤ_of_le a b p q = ground arith

module _ (states : List BssidState) (h : ℤ) (s : BssidState) where
  IsSelected-finalist :
      IsSelected states h s → Memᴰ s (finalists (near_equal (filter qbss_present states) h))
  unfolding finalists
  IsSelected-finalist i =
      let cs = filter qbss_present states in
      let near = near_equal cs h in
      let m =
        Near-near_equal cs h s (mem-filter qbss_present states i.is_member i.is_qbss) i.is_near in
      elim (Option-cases (max_ℤ (map station_count_key near))) [
        | inl e ↦ absurd (max_ℤ-none _ _ e (mem-map station_count_key near m))
        | inr (top, e) ↦
            let (t, w, g) = map-mem station_count_key near (max_ℤ-above _ top e).0 in
            let (c, close) = near_equal-Near cs h t w in
            let (member, qbss) = filter-mem qbss_present states c in
            let most = rw (sym g) at (i.has_most_stations t member qbss close) in
            let below = (max_ℤ-above _ top e).1 _ (mem-map station_count_key near m) in
            rw (e, finalists)
              (mem-filter (λ x. eq_ℤ (station_count_key x) top) near m
                (eq_ℤ_of_le (station_count_key s) top most below))
      ]

select_finalist-name :
    (fs : List BssidState) (s : BssidState)
    → Memᴰ s fs
    → select_finalist fs (some s.bssid) ≡ ok (some s.bssid)
unfolding select_finalist
select_finalist-name [] s m = absurd (Memᴰ.not-nil m)
select_finalist-name (f ∷ fs) s m =
    ap (λ b. ok (some b))
      (retained-name (λ t. t.bssid) (f ∷ fs) s.bssid (first_best is_stronger f fs).bssid
        (s, m, refl))

-- With a hysteresis that is not negative, the current BSSID stays selected whenever it belongs to a
-- state that reports QBSS, whose signal is within the hysteresis of every known signal of such
-- states, and that has no fewer stations than any such state with a signal as near: a stronger
-- signal of another one, or a smaller name, does not move the display.
pub select_bssid-keeps :
    (states : List BssidState) (s : BssidState) (h : ℤ)
    → pos 0 ≤ℤ h
    → IsSelected states h s
    → select_bssid states (some s.bssid) h ≡ ok (some s.bssid)
unfolding select_bssid select_candidate
select_bssid-keeps states s h positive i = rw (not-negative h positive) (
    go (filter qbss_present states) (mem-filter qbss_present states i.is_member i.is_qbss) (
      select_finalist-name (finalists (near_equal (filter qbss_present states) h)) s
        (IsSelected-finalist states h s i)))
  where
    go :
        (cs : List BssidState)
        → Memᴰ s cs
        → select_finalist (finalists (near_equal cs h)) (some s.bssid) ≡ ok (some s.bssid)
        → select_candidate cs (some s.bssid) h ≡ ok (some s.bssid)
    go [] m e = absurd (Memᴰ.not-nil m)
    go (c ∷ cs) m e = e

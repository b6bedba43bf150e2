-- ===== src/Analyzer/Selection/Extremal.antt =====
-- What is special about the choice: the signal and the counts that it is made by.
use mathlib.Core.List.Memᴰ.{head}
use mathlib.Core.List.Memᴰ
use wlanpi_utilization.Prelude.{
  ℤ, pos, ◌-ℤ◌, -ℤ_parts, ◌≤ℤ◌, ltb_ℤ, eq_ℤ, eq_ℤ_iff, leb_ℤ, leb_ℤ→le, String, str_eq, eq_iff, ◌≡◌,
  refl, sym, ap, ◌⊎◌, inl, inr, true, false, Option, none, some, List, [], ◌∷◌, Memᴰ, filter, map,
  Bool-cases, Option-cases, arith, first_best, first_best-mem, filter-mem, mem-filter, mem-map,
  map-mem, ok, mem-any,
}
use wlanpi_utilization.Analyzer.Selection.Maxima.{max_ℤ-above, max_ℤ-none, some_of-mem, mem-some_of}
use wlanpi_utilization.Analyzer.Selection.{
  BssidState, qbss_present, some_of, max_ℤ, station_count_key, is_near, near_equal, finalists,
  is_stronger, has_bssid, select_finalist, select_candidate, select_bssid,
}

-- t's signal is known and within h of every known signal of the candidates.
abbrev pub Near : List BssidState → ℤ → BssidState → Type 0
Near candidates h t =
    (u : BssidState) (r : ℤ)
    → Memᴰ u candidates
    → u.peak_rssi_dbm ≡ some r
    → (rt : ℤ) × (t.peak_rssi_dbm ≡ some rt) × (r -ℤ rt ≤ℤ h)

is_near-rssi :
    (strongest h : ℤ) (o : Option ℤ)
    → is_near strongest h o ≡ true
    → (rt : ℤ) × (o ≡ some rt) × (strongest -ℤ rt ≤ℤ h)
is_near-rssi strongest h none e = absurd (cc)
is_near-rssi strongest h (some rt) e = (rt, refl, leb_ℤ→le (strongest -ℤ rt) h e)

le_of-sub : (a b c h : ℤ) → a ≤ℤ b → b -ℤ c ≤ℤ h → a -ℤ c ≤ℤ h
le_of-sub a b c h p q = omega (arith, p, q, -ℤ_parts a c, -ℤ_parts b c)

le→leb_ℤ : (a b : ℤ) → a ≤ℤ b → leb_ℤ a b ≡ true
le→leb_ℤ a b h = ground arith

module _ (cs : List BssidState) (h : ℤ) where
  pub near_equal-Near : (t : BssidState) → Memᴰ t (near_equal cs h) → Memᴰ t cs × Near cs h t
  unfolding near_equal
  near_equal-Near t m = elim (Option-cases (max_ℤ (some_of (λ s. s.peak_rssi_dbm) cs))) [
    | inl e ↦ (
      rw (e, near_equal) at m,
      λ u r q g. absurd (max_ℤ-none _ r e (some_of-mem (λ s. s.peak_rssi_dbm) cs q g)),
    )
    | inr (top, e) ↦
        let (q, n) = filter-mem (λ s. is_near top h s.peak_rssi_dbm) cs (rw (e, near_equal) at m) in
        let (rt, g, l) = is_near-rssi top h t.peak_rssi_dbm n in
        (
          q,
          λ u r k w. (
            rt,
            g,
            le_of-sub r top rt h
                ((max_ℤ-above _ top e).1 r (some_of-mem (λ s. s.peak_rssi_dbm) cs k w)) l,
          ),
        )
  ]

  pub Near-near_equal : (t : BssidState) → Memᴰ t cs → Near cs h t → Memᴰ t (near_equal cs h)
  unfolding near_equal
  Near-near_equal t m n = elim (Option-cases (max_ℤ (some_of (λ s. s.peak_rssi_dbm) cs))) [
    | inl e ↦ rw (e, near_equal) m
    | inr (top, e) ↦
        let (u, q, g) = mem-some_of (λ s. s.peak_rssi_dbm) cs (max_ℤ-above _ top e).0 in
        let (rt, w, l) = n u top q g in
        let fits : is_near top h t.peak_rssi_dbm ≡ true = rw w (le→leb_ℤ (top -ℤ rt) h l) in
        rw (e, near_equal) (mem-filter (λ s. is_near top h s.peak_rssi_dbm) cs m fits)
  ]

finalists-most :
    (near : List BssidState) (s : BssidState)
    → Memᴰ s (finalists near)
    → Memᴰ s near × ((t : BssidState) → Memᴰ t near → station_count_key t ≤ℤ station_count_key s)
unfolding finalists
finalists-most near s m = elim (Option-cases (max_ℤ (map station_count_key near))) [
  | inl e ↦ absurd (Memᴰ.not-nil (rw (e, finalists) at m))
  | inr (top, e) ↦
      let (q, g) = filter-mem (λ s. eq_ℤ (station_count_key s) top) near (rw (e, finalists) at m) in
      let same : station_count_key s ≡ top = (eq_ℤ_iff (station_count_key s) top).0 g in
      (q, λ t w. rw same ((max_ℤ-above _ top e).1 _ (mem-map station_count_key near w)))
]

-- There is a finalist where there is a near-equal candidate.
finalists-some :
    (near : List BssidState) (t : BssidState)
    → Memᴰ t near
    → (s : BssidState) × Memᴰ s (finalists near)
unfolding finalists
finalists-some near t m = elim (Option-cases (max_ℤ (map station_count_key near))) [
  | inl e ↦ absurd (max_ℤ-none _ _ e (mem-map station_count_key near m))
  | inr (top, e) ↦
      let (s, w, g) = map-mem station_count_key near (max_ℤ-above _ top e).0 in
      (
        s,
        rw (e, finalists)
            (mem-filter (λ s. eq_ℤ (station_count_key s) top) near w
              ((eq_ℤ_iff (station_count_key s) top).1 (sym g))),
      )
]

near_equal-some :
    (cs : List BssidState) (h : ℤ) (c : BssidState)
    → pos 0 ≤ℤ h
    → Memᴰ c cs
    → (s : BssidState) × Memᴰ s (near_equal cs h)
unfolding near_equal
near_equal-some cs h c positive m =
    elim (Option-cases (max_ℤ (some_of (λ s. s.peak_rssi_dbm) cs))) [
      | inl e ↦ (c, rw (e, near_equal) m)
      | inr (top, e) ↦
          let (u, q, g) = mem-some_of (λ s. s.peak_rssi_dbm) cs (max_ℤ-above _ top e).0 in
          let small : top -ℤ top ≤ℤ h = omega (arith, positive, -ℤ_parts top top) in
          let fits : is_near top h u.peak_rssi_dbm ≡ true = rw g (le→leb_ℤ (top -ℤ top) h small) in
          (u, rw (e, near_equal) (mem-filter (λ s. is_near top h s.peak_rssi_dbm) cs q fits))
    ]

pub not-negative : (h : ℤ) → pos 0 ≤ℤ h → ltb_ℤ h (pos 0) ≡ false
not-negative h p = ground arith

-- The state that a selection stands for.
pub record IsSelected (states : List BssidState) (h : ℤ) (s : BssidState) : Type 0 where
  pub is_member : Memᴰ s states
  pub is_qbss : qbss_present s ≡ true
  pub is_near : Near (filter qbss_present states) h s
  pub has_most_stations :
      (t : BssidState)
      → Memᴰ t states
      → qbss_present t ≡ true
      → Near (filter qbss_present states) h t
      → station_count_key t ≤ℤ station_count_key s

finalist-IsSelected :
    (states : List BssidState) (h : ℤ) (s : BssidState)
    → Memᴰ s (finalists (near_equal (filter qbss_present states) h))
    → IsSelected states h s
finalist-IsSelected states h s m =
    let cs = filter qbss_present states in
    let (near, most) = finalists-most (near_equal cs h) s m in
    let (c, close) = near_equal-Near cs h s near in
    let (member, qbss) = filter-mem qbss_present states c in
    record {
      is_member = member;
      is_qbss = qbss;
      is_near = close;
      has_most_stations =
          λ t k q n. most t (Near-near_equal cs h t (mem-filter qbss_present states k q) n);
    }

select_finalist-mem :
    (fs : List BssidState) (current : Option String) (s : BssidState)
    → Memᴰ s fs
    → (f : BssidState) × Memᴰ f fs × (select_finalist fs current ≡ ok (some f.bssid))
unfolding select_finalist
select_finalist-mem [] current s m = absurd (Memᴰ.not-nil m)
select_finalist-mem (f ∷ fs) none s m =
    (first_best is_stronger f fs, first_best-mem is_stronger f fs, refl)
select_finalist-mem (f ∷ fs) (some b) s m =
    elim (Bool-cases (has_bssid (λ s. s.bssid) (f ∷ fs) b)) [
      | inl e ↦
          let (t, w, g) = mem-any (λ s. str_eq s.bssid b) (f ∷ fs) e in
          (t, w, rw e (ap (λ x. ok (some x)) (sym ((eq_iff t.bssid b).0 g))))
      | inr e ↦ (first_best is_stronger f fs, first_best-mem is_stronger f fs, rw e refl)
    ]

-- With a hysteresis that is not negative the call returns. It returns no BSSID exactly where no
-- state reports QBSS. Otherwise the BSSID is that of a state that reports QBSS, whose signal is
-- within the hysteresis of every known signal of such states, and no such state with a signal as
-- near has more stations.
pub select_bssid-IsSelected :
    (states : List BssidState) (current : Option String) (h : ℤ)
    → pos 0 ≤ℤ h
    → ((select_bssid states current h ≡ ok none)
        × ((t : BssidState) → Memᴰ t states → qbss_present t ≡ false))
      ⊎ ((s : BssidState) × (select_bssid states current h ≡ ok (some s.bssid))
          × IsSelected states h s)
unfolding select_bssid select_candidate
select_bssid-IsSelected states current h positive =
    rw (not-negative h positive) (go (filter qbss_present states) refl)
  where
    go :
        (cs : List BssidState)
        → filter qbss_present states ≡ cs
        → ((select_candidate cs current h ≡ ok none)
            × ((t : BssidState) → Memᴰ t states → qbss_present t ≡ false))
          ⊎ ((s : BssidState) × (select_candidate cs current h ≡ ok (some s.bssid))
              × IsSelected states h s)
    go [] e = inl (
      refl,
      λ t m. elim (Bool-cases (qbss_present t)) [
        | inr q ↦ q
        | inl q ↦ absurd (Memᴰ.not-nil (rw e at (mem-filter qbss_present states m q)))
      ],
    )
    go (c ∷ cs) e =
        let (n, near) = near_equal-some (c ∷ cs) h c positive (head refl) in
        let (s, m) = finalists-some (near_equal (c ∷ cs) h) n near in
        let (f, w, g) = select_finalist-mem (finalists (near_equal (c ∷ cs) h)) current s m in
        inr (f, g, finalist-IsSelected states h f (rw (sym e) at w))

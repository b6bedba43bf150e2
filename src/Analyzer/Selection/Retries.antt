-- ===== src/Analyzer/Selection/Retries.antt =====
-- Which current BSSID the choice of the retry screen keeps.
use native.Mathlib.Nat.{mul-le-mul_right, le_of_mul-le-mul_left}
use mathlib.Core.List.Memᴰ.{head, tail}
use mathlib.Core.List.Memᴰ
use wlanpi_utilization.Prelude.{
  ◌*◌, ◌≤◌, ◌<◌, ℤ, ◌≤ℤ◌, eq_ℤ, ◌≡◌, refl, sym, ap, inl, inr, true, String, Option, some, List, [],
  ◌∷◌, Memᴰ, filter, filter-mem, mem-filter, Bool-cases, Option-cases, first_best, first_best-mem,
  arith,
}
use wlanpi_utilization.Analyzer.Selection.{
  BssidState, RetryBssidState, has_retries, retries_more, retries_same, is_louder, retry_finalist,
  retry_candidate, select_retry_bssid, some_of, max_ℤ, has_rssi, smallest_bssid, strongest_of,
  strongest_signal_bssid,
}
use wlanpi_utilization.Analyzer.Selection.Maxima.{max_ℤ-above, some_of-mem, mem-some_of}
use wlanpi_utilization.Analyzer.Selection.Stable.{retained-name}

-- The share of retries of x is at most that of y, by cross products.
abbrev pub RetriesAtMost : RetryBssidState → RetryBssidState → Type 0
RetriesAtMost x y =
    x.window_retry_frame_count * y.retry_eligible_frame_count
    ≤ y.window_retry_frame_count * x.retry_eligible_frame_count

-- A state with retries whose share of retries is the highest of such states.
pub record RetriesMost (retries : List RetryBssidState) (s : RetryBssidState) : Type 0 where
  pub is_member : Memᴰ s retries
  pub retried : has_retries s ≡ true
  pub is_highest : (t : RetryBssidState) → Memᴰ t retries → has_retries t ≡ true → RetriesAtMost t s

-- A state with the strongest signal that is known, if any is.
pub record HasStrongest (beacons : List BssidState) (t : BssidState) : Type 0 where
  pub is_member : Memᴰ t beacons
  pub is_strongest :
      (u : BssidState) (r : ℤ)
      → Memᴰ u beacons
      → u.peak_rssi_dbm ≡ some r
      → (rt : ℤ) × (t.peak_rssi_dbm ≡ some rt) × (r ≤ℤ rt)

RetriesAtMost-trans :
    (x y z : RetryBssidState)
    → 0 < y.window_retry_frame_count
    → RetriesAtMost x y
    → RetriesAtMost y z
    → RetriesAtMost x z
RetriesAtMost-trans x y z some_retry p q =
    let p' = mul-le-mul_right z.window_retry_frame_count p in
    let q' = mul-le-mul_right x.window_retry_frame_count q in
    le_of_mul-le-mul_left {k = y.window_retry_frame_count} (omega (arith, p', q')) some_retry

first_retries-highest :
    (x : RetryBssidState) (xs : List RetryBssidState)
    → ((z : RetryBssidState) → Memᴰ z (x ∷ xs) → 0 < z.window_retry_frame_count)
    → (y : RetryBssidState) → Memᴰ y (x ∷ xs)
    → RetriesAtMost y (first_best retries_more x xs)
unfolding first_best
first_retries-highest x [] some_retry y m = elim (Memᴰ.cases_cons m) [
  | inl q ↦ rw q (omega arith)
  | inr t ↦ absurd (Memᴰ.not-nil t)
]
first_retries-highest x (z ∷ zs) some_retry y m = elim (Bool-cases (retries_more z x)) [
  | inl e ↦
      let top = first_retries-highest z zs (λ w k. some_retry w (tail k)) in
      let up : RetriesAtMost x z = ground arith in
      rw (first_best, e)
        (elim (Memᴰ.cases_cons m) [
          | inl q ↦ rw q (
              RetriesAtMost-trans x z (first_best retries_more z zs)
                (some_retry z (tail (head refl))) up (top z (head refl)))
          | inr t ↦ top y t
        ])
  | inr e ↦
      let top = first_retries-highest x zs (λ w k. some_retry w (skip k)) in
      let down : RetriesAtMost z x = ground arith in
      rw (first_best, e)
        (elim (Memᴰ.cases_cons m) [
          | inl q ↦ rw q (top x (head refl))
          | inr t ↦ elim (Memᴰ.cases_cons t) [
            | inl q ↦ rw q (
                RetriesAtMost-trans z x (first_best retries_more x zs) (some_retry x (head refl))
                  down (top x (head refl)))
            | inr t' ↦ top y (tail t')
          ]
        ])
]
  where
    skip : {w : RetryBssidState} → Memᴰ w (x ∷ zs) → Memᴰ w (x ∷ z ∷ zs)
    skip (head q) = head q
    skip (tail k) = tail (tail k)

retry_finalist-name :
    (ss : List RetryBssidState) (s : RetryBssidState)
    → Memᴰ s ss
    → retry_finalist ss (some s.retry_bssid) ≡ some s.retry_bssid
unfolding retry_finalist
retry_finalist-name [] s m = absurd (Memᴰ.not-nil m)
retry_finalist-name (f ∷ fs) s m =
    ap (λ b. some b)
      (retained-name (λ t. t.retry_bssid) (f ∷ fs) s.retry_bssid
        (first_best is_louder f fs).retry_bssid (s, m, refl))

strongest_of-name :
    (ss : List BssidState) (t : BssidState)
    → Memᴰ t ss
    → strongest_of ss (some t.bssid) ≡ some t.bssid
unfolding strongest_of
strongest_of-name [] t m = absurd (Memᴰ.not-nil m)
strongest_of-name (f ∷ fs) t m =
    ap (λ b. some b)
      (retained-name (λ u. u.bssid) (f ∷ fs) t.bssid (smallest_bssid f fs) (t, m, refl))

eq_ℤ_of_le : (a b : ℤ) → a ≤ℤ b → b ≤ℤ a → eq_ℤ a b ≡ true
eq_ℤ_of_le a b p q = ground arith

strongest_signal_bssid-keeps :
    (beacons : List BssidState) (t : BssidState)
    → HasStrongest beacons t
    → strongest_signal_bssid beacons (some t.bssid) ≡ some t.bssid
unfolding strongest_signal_bssid
strongest_signal_bssid-keeps beacons t s =
    elim (Option-cases (max_ℤ (some_of (λ s. s.peak_rssi_dbm) beacons))) [
      | inl e ↦ rw (strongest_signal_bssid, e) (strongest_of-name beacons t s.is_member)
      | inr (top, e) ↦
          let (u, m, g) = mem-some_of (λ s. s.peak_rssi_dbm) beacons (max_ℤ-above _ top e).0 in
          let (rt, w, l) = s.is_strongest u top m g in
          let below =
            (max_ℤ-above _ top e).1 rt (some_of-mem (λ s. s.peak_rssi_dbm) beacons s.is_member w) in
          let has : has_rssi top t.peak_rssi_dbm ≡ true = rw w (eq_ℤ_of_le rt top below l) in
          rw (strongest_signal_bssid, e)
            (strongest_of-name (filter (λ s. has_rssi top s.peak_rssi_dbm) beacons) t
              (mem-filter (λ s. has_rssi top s.peak_rssi_dbm) beacons s.is_member has))
    ]

retry_candidate-keeps :
    (retries : List RetryBssidState) (s : RetryBssidState) (cs : List RetryBssidState)
    → RetriesMost retries s
    → filter has_retries retries ≡ cs
    → retry_candidate cs (some s.retry_bssid) ≡ some s.retry_bssid
unfolding retry_candidate
retry_candidate-keeps retries s [] i e =
    absurd (Memᴰ.not-nil (rw e at (mem-filter has_retries retries i.is_member i.retried)))
retry_candidate-keeps retries s (c ∷ cs) i e =
    let m = rw e at (mem-filter has_retries retries i.is_member i.retried) in
    let best = first_best retries_more c cs in
    let (member, retried) =
      filter-mem has_retries retries (rw (sym e) at (first_best-mem retries_more c cs)) in
    let below = i.is_highest best member retried in
    let above =
      first_retries-highest c cs
        (λ z k. let (j, r) = filter-mem has_retries retries (rw (sym e) at k) in ground arith) s
        m in
    let same : retries_same s best ≡ true = ground arith in
    retry_finalist-name (filter (λ x. retries_same x best) (c ∷ cs)) s
      (mem-filter (λ x. retries_same x best) (c ∷ cs) m same)

-- The current BSSID of the retry screen stays selected whenever it belongs to a state with retries
-- that no other such state exceeds in its share of retries, and, where no state has retries, whenever
-- it belongs to a state with the strongest known signal, or to any state if no signal is known.
pub select_retry_bssid-keeps :
    (retries : List RetryBssidState) (beacons : List BssidState)
    → ((s : RetryBssidState)
        → RetriesMost retries s
        → select_retry_bssid retries beacons (some s.retry_bssid) ≡ some s.retry_bssid)
      × ((t : BssidState)
          → filter has_retries retries ≡ []
          → HasStrongest beacons t
          → select_retry_bssid retries beacons (some t.bssid) ≡ some t.bssid)
unfolding select_retry_bssid
select_retry_bssid-keeps retries beacons = (
  λ s i. retried s i (filter has_retries retries) refl,
  λ t e i. rw (select_retry_bssid, e) (strongest_signal_bssid-keeps beacons t i),
)
  where
    retried :
        (s : RetryBssidState)
        → RetriesMost retries s
        → (cs : List RetryBssidState) → filter has_retries retries ≡ cs
        → (elim cs as (λ x. Option String) [
          | [] ↦ strongest_signal_bssid beacons (some s.retry_bssid)
          | c ∷ cs' ↦ retry_candidate (c ∷ cs') (some s.retry_bssid)
        ])
          ≡ some s.retry_bssid
    retried s i [] e =
        absurd (Memᴰ.not-nil (rw e at (mem-filter has_retries retries i.is_member i.retried)))
    retried s i (c ∷ cs) e = retry_candidate-keeps retries s (c ∷ cs) i e

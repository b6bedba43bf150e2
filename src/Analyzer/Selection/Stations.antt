-- ===== src/Analyzer/Selection/Stations.antt =====
-- The top station count.
use mathlib.Core.List.Memᴰ.{head}
use mathlib.Core.List.Memᴰ
use wlanpi_utilization.Prelude.{
  ℕ, ◌≤◌, ◌<◌, lt→ltb, ◌≡◌, refl, sym, ap, ◌∙◌, ◌⊎◌, inl, inr, true, false, none, some, List, [],
  ◌∷◌, ◌++◌, Memᴰ, arith, first_best, first_best-mem, first_best-above,
}
use wlanpi_utilization.Analyzer.Selection.{
  BssidState, TopStationSelection, qbss_stations, mac_stations, station_candidates, is_busier,
  top_station,
}

-- n is a count that the state reports: the stations of its QBSS element, or the clients that were
-- heard, if any were.
abbrev pub Counts : BssidState → ℕ → Type 0
Counts s n =
    (s.latest_station_count ≡ some n)
    ⊎ ((s.window_unique_client_mac_count ≡ n) × (0 < s.window_unique_client_mac_count))

abbrev Candidate : List BssidState → ℕ → Type 0
Candidate states n = (c : TopStationSelection) × Memᴰ c (station_candidates states) × (c.count ≡ n)

qbss_stations-count :
    (s : BssidState) (n : ℕ)
    → s.latest_station_count ≡ some n
    → (c : TopStationSelection) × Memᴰ c (qbss_stations s) × (c.count ≡ n)
qbss_stations-count s n e = rw e (_, head refl, refl)

mac_stations-count :
    (s : BssidState) (n : ℕ)
    → s.window_unique_client_mac_count ≡ n
    → 0 < s.window_unique_client_mac_count
    → (c : TopStationSelection) × Memᴰ c (mac_stations s) × (c.count ≡ n)
mac_stations-count s n e p = rw (lt→ltb 0 s.window_unique_client_mac_count p) (_, head refl, e)

station_candidates-count :
    (states : List BssidState) (s : BssidState) (n : ℕ)
    → Memᴰ s states
    → Counts s n
    → Candidate states n
unfolding station_candidates
station_candidates-count [] s n m c = absurd (Memᴰ.not-nil m)
station_candidates-count (t ∷ ts) s n m c = elim (Memᴰ.cases_cons m) [
  | inr m' ↦
      let (x, k, e) = station_candidates-count ts s n m' c in
      (x, Memᴰ.append_right (qbss_stations t ++ mac_stations t) k, e)
  | inl same ↦ elim c [
    | inl q ↦
        let (x, k, e) = qbss_stations-count t n (ap (λ y. y.latest_station_count) (sym same) ∙ q) in
        (x, Memᴰ.append_left (station_candidates ts) (Memᴰ.append_left (mac_stations t) k), e)
    | inr (q, p) ↦
        let (x, k, e) =
          mac_stations-count t n (ap (λ y. y.window_unique_client_mac_count) (sym same) ∙ q)
            (rw same at p) in
        (x, Memᴰ.append_left (station_candidates ts) (Memᴰ.append_right (qbss_stations t) k), e)
  ]
]

busier-count : (x y : TopStationSelection) → is_busier y x ≡ true → x.count ≤ y.count
busier-count x y h = ground arith

not_busier-count : (x y : TopStationSelection) → is_busier y x ≡ false → y.count ≤ x.count
not_busier-count x y h = ground arith

-- Where some state reports a count, there is a top station, and its count is at least every count
-- that a state reports, of either source.
pub top_station-most :
    (states : List BssidState) (s : BssidState) (n : ℕ)
    → Memᴰ s states
    → Counts s n
    → (c : TopStationSelection) × (top_station states ≡ some c)
      × Memᴰ c (station_candidates states)
      × (n ≤ c.count)
unfolding top_station
top_station-most states s n m counts =
    let (x, k, e) = station_candidates-count states s n m counts in
    let (c, g, q, l) = go (station_candidates states) refl x k in (c, g, q, omega (arith, e, l))
  where
    go :
        (cs : List TopStationSelection)
        → station_candidates states ≡ cs
        → (x : TopStationSelection) → Memᴰ x cs
        → (c : TopStationSelection) × (elim cs [
          | [] ↦ none
          | c ∷ cs ↦ some (first_best is_busier c cs)
        ]
            ≡ some c)
          × Memᴰ c cs
          × (x.count ≤ c.count)
    go [] e x k = absurd (Memᴰ.not-nil k)
    go (d ∷ ds) e x k = (
      first_best is_busier d ds,
      refl,
      first_best-mem is_busier d ds,
      first_best-above is_busier (λ a b. a.count ≤ b.count) (λ a. omega arith)
          (λ a b c p q. omega (arith, p, q)) busier-count not_busier-count d ds x k,
    )

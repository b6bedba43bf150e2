-- ===== src/Runtime/Retention.antt =====
-- What `_publish_stats` keeps of the completed rows.
use wlanpi_utilization.Prelude.{
  ℕ, ◌+◌, ◌-◌, ◌≤◌, ◌<◌, max, ◌≡◌, refl, ◌∙◌, ap, Bool, all, ltb, List, [], ◌∷◌, filter, length,
  length-drop, arith,
}
use wlanpi_utilization.Runtime.{Payload, last_rows}
use wlanpi_utilization.Runtime.Session.{last_second, in_window, kept_rows}

-- The seconds of the rows rise, all above `low`.
abbrev pub Rising : (T : Payload) → ℕ → List T.Row → Type 0
Rising T low [] = Unit
Rising T low (row ∷ rest) = (low < T.second row) × Rising T (T.second row) rest

length-last_rows {ℓ} : {A : Type ℓ} (n : ℕ) (xs : List A) → 0 < n → length (last_rows n xs) ≤ n
unfolding last_rows
length-last_rows n xs h = ground (arith, length-drop (length xs - n) xs)

last_rows_of_short {ℓ} : {A : Type ℓ} (n : ℕ) (xs : List A) → length xs ≤ n → last_rows n xs ≡ xs
unfolding last_rows
last_rows_of_short n xs h = let e : length xs - n ≡ 0 = omega arith in rw e (ground arith)

module _ (T : Payload) where
  second-le-last :
      (low : ℕ) (row : T.Row) (rest : List T.Row)
      → Rising T low (row ∷ rest)
      → T.second row ≤ last_second T row rest
  second-le-last low row [] r = omega arith
  second-le-last low row (next ∷ rest) r =
      omega (arith, second-le-last (T.second row) next rest r.1)

  -- Rising seconds up to `last` have at most `window` in the window.
  length-in_window :
      (window last low : ℕ) (row : T.Row) (rest : List T.Row)
      → Rising T low (row ∷ rest)
      → last_second T row rest ≡ last
      → length (filter (in_window T last window) (row ∷ rest)) + max low (last - window) ≤ last
  length-in_window window last low row [] r e = ground arith
  length-in_window window last low row (next ∷ rest) r e = ground (
    arith,
    length-in_window window last (T.second row) next rest r.1 e,
    second-le-last low row (next ∷ rest) r,
  )

  -- The newest of rising seconds is the last.
  all-last_second :
      (low bound : ℕ) (row : T.Row) (rest : List T.Row)
      → Rising T low (row ∷ rest)
      → all (λ x. ltb (T.second x) bound) (row ∷ rest) ≡ ltb (last_second T row rest) bound
  all-last_second low bound row [] r = ground arith
  all-last_second low bound row (next ∷ rest) r = ground (
    arith,
    all-last_second (T.second row) bound next rest r.1,
    second-le-last low row (next ∷ rest) r,
  )

  -- No row is `window` seconds or more after this one.
  abbrev pub is_recent : ℕ → List T.Row → T.Row → Bool
  is_recent window rows x = all (λ y. ltb (T.second y) (T.second x + window)) rows

  in_window-is_recent :
      (window low : ℕ) (row : T.Row) (rest : List T.Row)
      → Rising T low (row ∷ rest)
      → (x : T.Row)
      → in_window T (last_second T row rest) window x ≡ is_recent window (row ∷ rest) x
  in_window-is_recent window low row rest r x =
      ground (arith, all-last_second low (T.second x + window) row rest r)

  -- With a window of at least one second, the rows that are kept are never more than the window has
  -- seconds. Where the seconds rise, they are exactly, and in their order, the rows that no row
  -- follows by `window` seconds or more: the slice drops nothing of these.
  pub kept_rows_lem :
      (window : ℕ) (row : T.Row) (rest : List T.Row)
      → 0 < window
      → (length (kept_rows T window (row ∷ rest)) ≤ window)
        × ((low : ℕ)
            → Rising T low (row ∷ rest)
            → kept_rows T window (row ∷ rest) ≡ filter (is_recent window (row ∷ rest)) (row ∷ rest))
  unfolding kept_rows
  kept_rows_lem window row rest h = (
    length-last_rows window _ h,
    λ low r.
        last_rows_of_short window _
          (omega (arith, length-in_window window (last_second T row rest) low row rest r refl))
        ∙ ap (λ p. filter p (row ∷ rest)) (λ i x. in_window-is_recent window low row rest r x i),
  )

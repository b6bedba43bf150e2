-- ===== src/Capture/Startup/Kept.antt =====
-- Which seconds the start of a capture excludes.
use wlanpi_utilization.Prelude.{
  ℤ, ltb_ℤ, ◌≡◌, refl, ap, true, Option, none, some, List, [], ◌∷◌, filter,
}
use wlanpi_utilization.Capture.Startup.{
  LiveStartupFilter, new_filter, collecting, observe_start, include_history, filter_rows,
}

all_rows_kept : (rows : List ℤ) → rows ≡ filter (λ row. true) rows
all_rows_kept [] = refl
all_rows_kept (row ∷ rows) = ap (λ rest. row ∷ rest) (all_rows_kept rows)

-- The frames of a capture, by their seconds.
unfoldable pub observe_all : LiveStartupFilter → List ℤ → LiveStartupFilter
observe_all f [] = f
observe_all f (second ∷ seconds) = observe_all (observe_start f second).0 seconds

observe_all_known :
    (f : LiveStartupFilter) (known : ℤ) (seconds : List ℤ)
    → f.partial_second ≡ some known
    → (observe_all f seconds).partial_second ≡ some known
unfolding observe_all observe_start
observe_all_known f known [] e = e
observe_all_known f known (second ∷ seconds) e =
    rw (e, observe_all, observe_start) (observe_all_known f known seconds e)

same_rows :
    (o : Option ℤ) (rows : List ℤ)
    → elim o [ none ↦ rows | some known ↦ filter (λ row. ltb_ℤ known row) rows ]
      ≡ filter (λ s. elim o [ none ↦ true | some known ↦ ltb_ℤ known s ]) rows
same_rows none rows = all_rows_kept rows
same_rows (some known) rows = refl

first_second :
    (second : ℤ) (seconds : List ℤ)
    → (observe_all new_filter (second ∷ seconds)).partial_second ≡ some second
unfolding observe_all observe_start
first_second second seconds =
    observe_all_known (record { partial_second = some second }) second seconds refl

-- The rows that are shown are those that the history includes. Whatever frames follow the first one
-- of a capture, exactly the rows after the second of the first frame are shown, and the filter is
-- collecting.
pub filter_rows-include_history :
    (f : LiveStartupFilter) (rows : List ℤ) (second : ℤ) (seconds : List ℤ)
    → (filter_rows f rows ≡ filter (include_history f) rows)
      × (filter_rows (observe_all new_filter (second ∷ seconds)) rows ≡ filter (ltb_ℤ second) rows)
      × (collecting (observe_all new_filter (second ∷ seconds)) ≡ true)
unfolding filter_rows include_history
filter_rows-include_history f rows second seconds = (
  same_rows f.partial_second rows,
  rw (first_second second seconds) refl,
  rw (first_second second seconds) refl,
)

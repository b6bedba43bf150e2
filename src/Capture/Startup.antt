-- ===== src/Capture/Startup.antt =====
-- `LiveStartupFilter` of live.py: the second in which a capture starts is only partly seen. A frame's
-- time enters as `int(timestamp)`, and a row as its second.
pub mod Kept
use wlanpi_utilization.Prelude.{
  ℤ, ltb_ℤ, Bool, true, false, Option, none, some, is_some, List, [], ◌∷◌, filter,
}

pub record LiveStartupFilter : Type 0 where
  pub partial_second : Option ℤ

abbrev pub new_filter : LiveStartupFilter
new_filter = record { partial_second = none }

abbrev pub collecting : LiveStartupFilter → Bool
collecting f = is_some f.partial_second

unfoldable pub observe_start : LiveStartupFilter → ℤ → LiveStartupFilter × Bool
observe_start f second = elim f.partial_second [
  | none ↦ (record { partial_second = some second }, true)
  | some known ↦ (f, false)
]

unfoldable pub include_history : LiveStartupFilter → ℤ → Bool
include_history f second = elim f.partial_second [ none ↦ true | some known ↦ ltb_ℤ known second ]

unfoldable pub filter_rows : LiveStartupFilter → List ℤ → List ℤ
filter_rows f rows = elim f.partial_second [
  | none ↦ rows
  | some known ↦ filter (λ row. ltb_ℤ known row) rows
]

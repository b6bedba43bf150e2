-- ===== src/Screens.antt =====
-- The screen selection of screen_manager.py. The renderers and the snapshot that they draw are not
-- part of the state: a screen is its position. A reading of the clock is an integer of some unit.
pub mod Navigation
use wlanpi_utilization.Prelude.{
  ℕ, ◌==◌, ℤ, pos, negsuc, ◌+ℤ◌, ◌-ℤ◌, ltb_ℤ, floor_mod, Bool, true, false, not, Option, none, some,
  Result, ok, value_error, if◌then◌else◌,
}

pub record ScreenManager : Type 0 where
  pub screen_count : ℕ
  pub active_index : ℕ
  pub debounce_seconds : ℤ
  pub last_navigation_ts : Option ℤ

-- `__init__`
unfoldable pub screen_manager : ℕ → ℤ → Result ScreenManager
screen_manager screens debounce =
    if screens == 0
    then value_error "screens must not be empty"
    else if ltb_ℤ debounce (pos 0)
    then value_error "debounce_seconds must not be negative"
    else ok (record {
      screen_count = screens;
      active_index = 0;
      debounce_seconds = debounce;
      last_navigation_ts = none;
    })

unfoldable pub set_active_index : ScreenManager → ℤ → ScreenManager × Bool
set_active_index m index =
    let new_index = floor_mod index m.screen_count in
    (record m { active_index = new_index }, not (new_index == m.active_index))

-- `timestamp - last < debounce`
abbrev pub is_debounced : ScreenManager → ℤ → Bool
is_debounced m now = elim m.last_navigation_ts [
  | none ↦ false
  | some last ↦ ltb_ℤ (now -ℤ last) m.debounce_seconds
]

unfoldable pub navigate : ScreenManager → ℤ → ℤ → ScreenManager × Bool
navigate m offset now =
    if is_debounced m now
    then (m, false)
    else set_active_index (record m { last_navigation_ts = some now })
        (pos m.active_index +ℤ offset)

abbrev pub navigate_up : ScreenManager → ℤ → ScreenManager × Bool
navigate_up m now = navigate m (negsuc 0) now

abbrev pub navigate_down : ScreenManager → ℤ → ScreenManager × Bool
navigate_down m now = navigate m (pos 1) now

-- ===== src/Tests/Displays.antt =====
-- Applications to the screens, the host details and the radio groups.
use wlanpi_utilization.Prelude.{
  ℕ, ◌≤◌, ◌<◌, ℤ, pos, negsuc, ◌≡◌, refl, ◌⊎◌, Bool, true, false, Option, none, some, List, [], ◌∷◌,
  Memᴰ, length, String, str_eq, arith,
}
use wlanpi_utilization.Screens.{ScreenManager, navigate_up, navigate_down}
use wlanpi_utilization.Screens.Navigation.{
  IsShown, navigations, navigations-IsShown, Heard, navigate-back,
}
use wlanpi_utilization.Hosts.{
  max_host_details, HostFrame, HostSummary, new_host, observe, merge, get_host, observe_host,
}
use wlanpi_utilization.Hosts.Bounds.{IsCounted, observe-merge-IsCounted, observe_host_lem}
use wlanpi_utilization.Radios.{RadioMember, group_members}
use wlanpi_utilization.Radios.Grouping.{Linked, Grouped, group_members-Linked}

abbrev screens : ScreenManager
screens = record {
  screen_count = 4;
  active_index = 0;
  debounce_seconds = pos 2;
  last_navigation_ts = none;
}

screens-IsShown : IsShown screens
screens-IsShown = omega arith

abbrev turns : List (ℤ × ℤ)
turns = (negsuc 0, pos 1) ∷ (pos 1, pos 2) ∷ (pos 1, pos 9) ∷ []

navigations-IsShown_example :
    IsShown (navigations turns screens)
    × ((navigations turns screens).screen_count ≡ screens.screen_count)
navigations-IsShown_example = navigations-IsShown turns screens screens-IsShown

heard : Heard screens (pos 1) (pos 4)
unfolding wlanpi_utilization.Prelude.◌-ℤ◌
heard = (refl, refl)

navigate-back_example :
    ((navigate_up (navigate_down screens (pos 1)).0 (pos 4)).0.active_index ≡ 0)
    × ((navigate_down (navigate_up screens (pos 1)).0 (pos 4)).0.active_index ≡ 0)
navigate-back_example = navigate-back screens (pos 1) (pos 4) screens-IsShown heard

abbrev frame : HostFrame
frame = record {
  timestamp = pos 7;
  transmitter_address = some "h";
  receiver_address = some "a";
  is_retry = true;
  rssi_dbm = some (negsuc 49);
  transmitter_vendor = some "v";
  receiver_vendor = none;
}

abbrev host : HostSummary
host = new_host "a" (pos 5)

host-IsCounted : IsCounted host
host-IsCounted = (omega arith, omega arith)

observe-merge-IsCounted_example :
    IsCounted (observe host "h" frame "a" true) × IsCounted (merge host host)
observe-merge-IsCounted_example =
    observe-merge-IsCounted host host "h" frame "a" true host-IsCounted host-IsCounted

no_hosts : length {A = String × HostSummary} [] ≤ max_host_details
no_hosts = omega arith

observe_host_lem_example :
    (length (observe_host [] "h" frame "a" true).0 ≤ max_host_details)
    × (((observe_host [] "h" frame "a" true ≡ ([], true))
          × (get_host [] "h" ≡ none)
          × (length {A = String × HostSummary} [] ≡ max_host_details))
        ⊎ (((observe_host [] "h" frame "a" true).1 ≡ false)
            × ((h : HostSummary) × (get_host (observe_host [] "h" frame "a" true).0 "h" ≡ some h))))
observe_host_lem_example = observe_host_lem [] "h" frame "a" true no_hosts

abbrev member : String → RadioMember
member b = record { bssid = b; peak_rssi_dbm = none; latest_ap_name = none; latest_vendor = none }

abbrev same : RadioMember → RadioMember → Bool
same a b = str_eq a.bssid b.bssid

abbrev members : List RadioMember
members = member "a" ∷ member "b" ∷ member "a" ∷ []

group_members-Linked_example :
    ((g : List RadioMember) → Memᴰ g (group_members same [] members) → Linked same g)
    × ((x : RadioMember) → Memᴰ x members → Grouped same x (group_members same [] members))
group_members-Linked_example = group_members-Linked same members

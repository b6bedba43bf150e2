-- ===== src/Radios.antt =====
-- The grouping of BSSIDs into estimated radios in radio_grouping.py. The three views of texts, which
-- need Python's Unicode case folding and hexadecimal digits, are an argument of the heuristics.
pub mod Grouping
use wlanpi_utilization.Prelude.{
  ℤ, pos, ltb_ℤ, leb_ℤ, eq_ℤ, ◌-ℤ◌, abs_ℤ, is_some, Bool, true, false, not, ◌&&◌, ◌||◌, Option,
  none, some, List, [], ◌∷◌, ◌++◌, map, filter, all, any, String, str_eq, str_lt, first_best,
  Result, ok, value_error, if◌then◌else◌,
}

-- The fields of `BssidState` that the grouping reads.
pub record RadioMember : Type 0 where
  pub bssid : String
  pub peak_rssi_dbm : Option ℤ
  pub latest_ap_name : Option String
  pub latest_vendor : Option String

pub record EstimatedRadio : Type 0 where
  pub group_id : String
  pub members : List RadioMember
  pub best_rssi_dbm : Option ℤ
  pub ap_name : Option String
  pub vendor : Option String

-- A stable sort by an order of keys.
unfoldable pub insert_by {ℓ} : {A : Type ℓ} → (A → A → Bool) → A → List A → List A
insert_by before x [] = x ∷ []
insert_by before x (y ∷ ys) =
    let rest = insert_by before x ys in if before y x then y ∷ rest else x ∷ y ∷ ys

unfoldable pub sort_by {ℓ} : {A : Type ℓ} → (A → A → Bool) → List A → List A
sort_by before [] = []
sort_by before (x ∷ xs) = insert_by before x (sort_by before xs)

abbrev pub by_bssid : RadioMember → RadioMember → Bool
by_bssid a b = str_lt a.bssid b.bssid

-- The first group whose members are all compatible takes the state; a new group is the last.
unfoldable pub place :
    (RadioMember → RadioMember → Bool)
    → RadioMember
    → List (List RadioMember)
    → List (List RadioMember)
place same state [] = (state ∷ []) ∷ []
place same state (group ∷ groups) =
    let rest = place same state groups in
    if all (same state) group then (group ++ (state ∷ [])) ∷ groups else group ∷ rest

unfoldable pub group_members :
    (RadioMember → RadioMember → Bool)
    → List (List RadioMember)
    → List RadioMember
    → List (List RadioMember)
group_members same groups [] = groups
group_members same groups (s ∷ ss) = group_members same (place same s groups) ss

-- `_member_strength_key`
abbrev pub rssi_or : Option ℤ → ℤ → ℤ
rssi_or none d = d
rssi_or (some r) d = r

unfoldable pub is_stronger_member : ℤ → RadioMember → RadioMember → Bool
is_stronger_member least a b =
    if eq_ℤ (rssi_or a.peak_rssi_dbm least) (rssi_or b.peak_rssi_dbm least)
    then str_lt a.bssid b.bssid
    else ltb_ℤ (rssi_or b.peak_rssi_dbm least) (rssi_or a.peak_rssi_dbm least)

unfoldable pub max_rssi : List RadioMember → Option ℤ
max_rssi [] = none
max_rssi (m ∷ ms) =
    let rest = max_rssi ms in
    elim m.peak_rssi_dbm [
      | none ↦ rest
      | some r ↦ elim rest [ none ↦ some r | some q ↦ if ltb_ℤ r q then some q else some r ]
    ]

-- The first text that is neither missing nor empty.
unfoldable pub first_text : List (Option String) → Option String
first_text [] = none
first_text (t ∷ ts) =
    let rest = first_text ts in
    elim t [ none ↦ rest | some x ↦ if str_eq x "" then rest else some x ]

-- A group has a first member; a sorted group is never empty.
unfoldable pub group_id_of : List RadioMember → String
group_id_of [] = ""
group_id_of (m ∷ ms) = m.bssid

-- `_estimated_radio`
unfoldable pub estimated_radio : ℤ → List RadioMember → EstimatedRadio
estimated_radio least members =
    let ordered_members = sort_by by_bssid members in
    let strongest_first = sort_by (is_stronger_member least) ordered_members in
    record {
      group_id = group_id_of ordered_members;
      members = ordered_members;
      best_rssi_dbm = max_rssi ordered_members;
      ap_name = first_text (map (λ m. m.latest_ap_name) strongest_first);
      vendor = first_text (map (λ m. m.latest_vendor) strongest_first);
    }

-- The key's value for a missing signal is -200.
abbrev pub no_signal : ℤ
no_signal = pos 0 -ℤ pos 200

unfoldable pub estimate_radio_groups :
    (ℤ → RadioMember → RadioMember → Bool) → List RadioMember → ℤ → Result (List EstimatedRadio)
estimate_radio_groups likely_same_radio states tolerance =
    if ltb_ℤ tolerance (pos 0)
    then value_error "rssi_tolerance_db must not be negative"
    else ok (
        map (estimated_radio no_signal)
          (group_members (likely_same_radio tolerance) [] (sort_by by_bssid states)))

-- What the heuristics read of the texts: the vendor part of an address, the normalised name, and
-- whether two addresses are related.
pub record TextViews : Type 0 where
  pub vendor_oui : String → Option String
  pub normalized_text : Option String → Option String
  pub related_bssid_macs : String → String → Bool

abbrev pub same_text : Option String → Option String → Bool
same_text none none = true
same_text (some a) (some b) = str_eq a b
same_text _ _ = false

-- `abs(a - b)`, where both are known.
unfoldable pub rssi_difference : RadioMember → RadioMember → Option ℤ
rssi_difference first second = elim first.peak_rssi_dbm [
  | none ↦ none
  | some a ↦ elim second.peak_rssi_dbm [ none ↦ none | some b ↦ some (pos (abs_ℤ (a -ℤ b))) ]
]

abbrev pub within_or : Bool → ℤ → Option ℤ → Bool
within_or unknown limit none = unknown
within_or unknown limit (some d) = leb_ℤ d limit

-- AP_NAME_RSSI_LIMIT_DB
abbrev pub ap_name_rssi_limit_db : ℤ
ap_name_rssi_limit_db = pos 10

unfoldable pub likely_same_radio : TextViews → ℤ → RadioMember → RadioMember → Bool
likely_same_radio V tolerance first second =
    let first_oui = V.vendor_oui first.bssid in
    let first_name = V.normalized_text first.latest_ap_name in
    let second_name = V.normalized_text second.latest_ap_name in
    let difference = rssi_difference first second in
    if str_eq first.bssid second.bssid
    then true
    else if not (is_some first_oui) || not (same_text first_oui (V.vendor_oui second.bssid))
    then false
    else if is_some first_name && is_some second_name && not (same_text first_name second_name)
    then false
    else if is_some first_name && same_text first_name second_name
    then within_or true ap_name_rssi_limit_db difference
    else within_or false tolerance difference && V.related_bssid_macs first.bssid second.bssid

-- `select_strongest_radio`
abbrev pub has_best : ℤ → EstimatedRadio → Bool
has_best strongest g = elim g.best_rssi_dbm [ none ↦ false | some r ↦ eq_ℤ r strongest ]

unfoldable pub strongest_best : List EstimatedRadio → Option ℤ
strongest_best [] = none
strongest_best (g ∷ gs) =
    let rest = strongest_best gs in
    elim g.best_rssi_dbm [
      | none ↦ rest
      | some r ↦ elim rest [ none ↦ some r | some q ↦ if ltb_ℤ r q then some q else some r ]
    ]

unfoldable pub radio_finalists : List EstimatedRadio → List EstimatedRadio
radio_finalists groups = elim (strongest_best groups) [
  | none ↦ groups
  | some strongest ↦ filter (has_best strongest) groups
]

abbrev pub has_current : List String → EstimatedRadio → Bool
has_current current g = any (λ m. any (str_eq m.bssid) current) g.members

abbrev pub by_group_id : EstimatedRadio → EstimatedRadio → Bool
by_group_id a b = str_lt a.group_id b.group_id

abbrev pub first_group : List EstimatedRadio → Option EstimatedRadio
first_group [] = none
first_group (g ∷ gs) = some (first_best by_group_id g gs)

unfoldable pub select_strongest_radio : List EstimatedRadio → List String → Option EstimatedRadio
select_strongest_radio groups current =
    let finalists = radio_finalists groups in
    elim (first_group (filter (has_current current) finalists)) [
      | some g ↦ some g
      | none ↦ first_group finalists
    ]

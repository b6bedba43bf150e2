-- ===== src/Hosts/Bounds.antt =====
-- The host details stay bounded, and a host never has more retries than eligible frames.
use wlanpi_utilization.Prelude.{
  suc, ◌≤◌, ◌<◌, leb, leb→le, ℤ, leb_ℤ, ◌≡◌, refl, ◌⊎◌, inl, inr, Bool, true, false, not, ◌&&◌,
  Option, none, some, List, [], ◌∷◌, length, String, str_eq, eq_iff, Bool-cases, Option-cases,
  arith,
}
use wlanpi_utilization.Hosts.{
  max_host_details, HostFrame, HostSummary, new_host, is_address, is_since, put_activity,
  put_transmission, put_vendor, count_frame, put_sent, put_merged, observe, merge, get_host,
  put_host, observe_host,
}

-- A host's retries are among its eligible frames, and these among the frames that it sent: its
-- percentage of retries is at most 100.
abbrev pub IsCounted : HostSummary → Type 0
IsCounted h = (h.tx_retries ≤ h.tx_eligible) × (h.tx_eligible ≤ h.tx_frames)

put_activity-IsCounted :
    (h : HostSummary) (bssid : String) (t : ℤ) → IsCounted h → IsCounted (put_activity h bssid t)
unfolding put_activity
put_activity-IsCounted h bssid t c = elim (Bool-cases (leb_ℤ h.last_activity t)) [
  | inl e ↦ rw e c
  | inr e ↦ rw e c
]

put_transmission-IsCounted :
    (h : HostSummary) (t : ℤ) (rssi : Option ℤ)
    → IsCounted h
    → IsCounted (put_transmission h t rssi)
unfolding put_transmission
put_transmission-IsCounted h t rssi c = elim (Bool-cases (is_since h.last_tx_timestamp t)) [
  | inl e ↦ rw e c
  | inr e ↦ rw e c
]

put_vendor-IsCounted :
    (h : HostSummary) (v : Option String) (t : Option ℤ)
    → IsCounted h
    → IsCounted (put_vendor h v t)
unfolding put_vendor
put_vendor-IsCounted h none t c = c
put_vendor-IsCounted h (some v) none c = ground arith
put_vendor-IsCounted h (some v) (some t) c =
    elim (Bool-cases (not (str_eq v "") && is_since h.vendor_timestamp t)) [
      | inl e ↦ rw e c
      | inr e ↦ rw e c
    ]

count_frame-IsCounted :
    (h : HostSummary) (sent received eligible retry : Bool)
    → IsCounted h
    → IsCounted (count_frame h sent received eligible retry)
unfolding count_frame
count_frame-IsCounted h sent received eligible retry c = ground arith

put_sent-IsCounted :
    (h : HostSummary) (sent : Bool) (frame : HostFrame)
    → IsCounted h
    → IsCounted (put_sent h sent frame)
unfolding put_sent
put_sent-IsCounted h true frame c = put_transmission-IsCounted h frame.timestamp frame.rssi_dbm c
put_sent-IsCounted h false frame c = c

put_merged-IsCounted :
    (h : HostSummary) (t rssi : Option ℤ) → IsCounted h → IsCounted (put_merged h t rssi)
unfolding put_merged
put_merged-IsCounted h none rssi c = c
put_merged-IsCounted h (some t) rssi c = put_transmission-IsCounted h t rssi c

-- Observing a frame and merging another summary keep a host's retries among its eligible frames,
-- and these among the frames that it sent.
pub observe-merge-IsCounted :
    (h source : HostSummary) (mac : String) (frame : HostFrame) (bssid : String) (eligible : Bool)
    → IsCounted h
    → IsCounted source
    → IsCounted (observe h mac frame bssid eligible) × IsCounted (merge h source)
unfolding observe merge
observe-merge-IsCounted h source mac frame bssid eligible c d = (
  put_vendor-IsCounted _ _ (some frame.timestamp) (
      put_sent-IsCounted _ (is_address mac frame.transmitter_address) frame (
        count_frame-IsCounted (put_activity h bssid frame.timestamp) _ _ eligible frame.is_retry
          (put_activity-IsCounted h bssid frame.timestamp c))),
  put_vendor-IsCounted _ source.vendor source.vendor_timestamp (
      put_merged-IsCounted _ source.last_tx_timestamp source.last_tx_rssi_dbm (
        put_activity-IsCounted _ source.bssid source.last_activity
          (omega (arith, c, d), omega (arith, c, d)))),
)

length-put_host :
    (hosts : List (String × HostSummary)) (mac : String) (host : HostSummary)
    → length (put_host hosts mac host) ≤ suc (length hosts)
      × ((found : HostSummary)
          → get_host hosts mac ≡ some found
          → length (put_host hosts mac host) ≡ length hosts)
unfolding put_host get_host
length-put_host [] mac host = (omega arith, λ found e. absurd (cc))
length-put_host ((m, h) ∷ hosts) mac host =
    let (l, k) = length-put_host hosts mac host in
    elim (Bool-cases (str_eq m mac)) [
      | inl e ↦ rw e (omega arith, λ found g. refl)
      | inr e ↦ rw e (omega (arith, l), λ found g. omega (arith, k found g))
    ]

get_host-put_host :
    (hosts : List (String × HostSummary)) (mac : String) (host : HostSummary)
    → get_host (put_host hosts mac host) mac ≡ some host
unfolding put_host get_host
get_host-put_host [] mac host = rw ((eq_iff mac mac).1 refl) refl
get_host-put_host ((m, h) ∷ hosts) mac host = elim (Bool-cases (str_eq m mac)) [
  | inl e ↦ rw (e, put_host, get_host) (rw e refl)
  | inr e ↦ rw (e, put_host, get_host) (rw e (get_host-put_host hosts mac host))
]

-- The map never outgrows its bound. Details are omitted exactly where the host is unknown and the
-- map is full, and then the map stays; otherwise the host is in the map.
pub observe_host_lem :
    (hosts : List (String × HostSummary)) (mac : String) (frame : HostFrame) (bssid : String)
    (eligible : Bool)
    → length hosts ≤ max_host_details
    → (length (observe_host hosts mac frame bssid eligible).0 ≤ max_host_details)
      × (((observe_host hosts mac frame bssid eligible ≡ (hosts, true))
            × (get_host hosts mac ≡ none)
            × (length hosts ≡ max_host_details))
          ⊎ (((observe_host hosts mac frame bssid eligible).1 ≡ false)
              × ((h : HostSummary) × (get_host (observe_host hosts mac frame bssid eligible).0 mac
                    ≡ some h))))
unfolding observe_host
observe_host_lem hosts mac frame bssid eligible bound = elim (Option-cases (get_host hosts mac)) [
  | inr (host, e) ↦
      let next = observe host mac frame bssid eligible in
      let same = (length-put_host hosts mac next).1 host e in
      rw (e, observe_host)
        (omega (arith, bound, same), inr (refl, (next, get_host-put_host hosts mac next)))
  | inl e ↦ elim (Bool-cases (leb max_host_details (length hosts))) [
    | inl full ↦
        let above : max_host_details ≤ length hosts = leb→le max_host_details (length hosts) full in
        rw (e, observe_host, full) (bound, inl (refl, refl, omega (arith, bound, above)))
    | inr room ↦
        let below : length hosts < max_host_details = ground arith in
        let next = observe (new_host bssid frame.timestamp) mac frame bssid eligible in
        let grown = (length-put_host hosts mac next).0 in
        rw (e, observe_host, room)
          (omega (arith, below, grown), inr (refl, (next, get_host-put_host hosts mac next)))
  ]
]

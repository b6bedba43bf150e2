-- ===== src/Analyzer/Projection/Batch.antt =====
-- `_project_frames`: the frames of a tuple in one pass. `none` is a `KeyError`.
use wlanpi_utilization.Prelude.{
  ℤ, ltb_ℤ, Bool, ◌&&◌, ◌||◌, Option, none, some, is_some, List, [], ◌∷◌, length, String, has_text,
  insert_text, if◌then◌else◌,
}
use wlanpi_utilization.Frames.{is_true, is_number}
use wlanpi_utilization.Hosts.{observe_host}
use wlanpi_utilization.Analyzer.Projection.{
  AddressOperations, RetainedFrame, BssidFrameSummary, Tally, FrameProjection, empty_tally,
  get_summary, put_summary, known_bssid, is_eligible, associated_bssid, known_frame_bssid,
  link_addresses, host_frame,
}
use wlanpi_utilization.Analyzer.Projection.Live.{get_or_new, count_in, is_client, count_all}

-- The earliest and the latest time.
unfoldable pub put_extremes : BssidFrameSummary → ℤ → BssidFrameSummary
put_extremes s t = record s {
  first_timestamp = elim s.first_timestamp [
    | none ↦ some t
    | some first ↦ if ltb_ℤ t first then some t else some first
  ];
  last_timestamp = elim s.last_timestamp [
    | none ↦ some t
    | some last ↦ if ltb_ℤ last t then some t else some last
  ];
}

-- `by_bssid[client_bssid].unique_client_macs.add(address)`
unfoldable pub add_client_at :
    List (String × BssidFrameSummary) → String → String → Option (List (String × BssidFrameSummary))
add_client_at summaries b a = elim (get_summary summaries b) [
  | none ↦ none
  | some s ↦ some (put_summary summaries b (record s { client_macs = insert_text a s.client_macs }))
]

unfoldable pub count_batch : Tally → RetainedFrame → String → Bool → Bool → Bool → Tally
unfolding put_extremes
count_batch t f b observed eligible retry = record t {
  by_bssid = put_summary t.by_bssid b (
      put_extremes (count_in (get_or_new (get_summary t.by_bssid b)) observed eligible retry)
        f.timestamp);
}

-- The summary of the frame's BSSID, if it has one.
abbrev pub summarise_batch : Tally → RetainedFrame → Option String → Bool → Bool → Bool → Tally
summarise_batch t f none observed eligible retry = t
summarise_batch t f (some b) observed eligible retry = count_batch t f b observed eligible retry

module _ (O : AddressOperations) (known : List (String × String)) where
  unfoldable pub batch_client : Tally → RetainedFrame → String → Bool → String → Option Tally
  unfolding add_client_at
  batch_client t f frame_bssid eligible a =
      let (hosts, omitted) = observe_host t.hosts a (host_frame f) frame_bssid eligible in
      elim (known_bssid known frame_bssid) [
        | none ↦ none
        | some b ↦ elim (add_client_at t.by_bssid b a) [
          | none ↦ none
          | some summaries ↦ some (record t {
            unique_client_macs = insert_text a t.unique_client_macs;
            hosts = hosts;
            hosts_limited = t.hosts_limited || omitted;
            by_bssid = summaries;
          })
        ]
      ]

  unfoldable pub batch_clients : Tally → RetainedFrame → String → Bool → List String → Option Tally
  unfolding batch_client
  batch_clients t f frame_bssid eligible [] = some t
  batch_clients t f frame_bssid eligible (a ∷ rest) =
      elim (if is_client O known frame_bssid a
        then batch_client t f frame_bssid eligible a
        else some t) [ none ↦ none | some t' ↦ batch_clients t' f frame_bssid eligible rest ]

  unfoldable pub clients_batch : Tally → RetainedFrame → Bool → Option Tally
  unfolding batch_clients
  clients_batch t f eligible = elim (known_frame_bssid O known f) [
    | none ↦ some t
    | some frame_bssid ↦
        if has_text (link_addresses O f) frame_bssid
        then batch_clients t f frame_bssid eligible (link_addresses O f)
        else some t
  ]

  unfoldable pub batch_in_scope : Tally → RetainedFrame → Option Tally
  unfolding count_batch clients_batch
  batch_in_scope t f =
      let observed = is_some f.retry_flag in
      let eligible = is_eligible O f in
      let retry = eligible && is_true f.retry_flag in
      let all_counted = count_all t observed eligible retry in
      let b = associated_bssid O known f in
      let summarised = summarise_batch all_counted f b observed eligible retry in
      if is_number f.frame_type 2 then clients_batch summarised f eligible else some summarised

  -- The loop, and the result with the number of all frames.
  unfoldable pub project_tally :
      (RetainedFrame → Option String → Bool) → Tally → List RetainedFrame → Option Tally
  unfolding batch_in_scope
  project_tally in_scope t [] = some t
  project_tally in_scope t (f ∷ fs) =
      elim (if f.has_bad_fcs
        then some t
        else if in_scope f (associated_bssid O known f)
        then batch_in_scope t f
        else some t) [ none ↦ none | some t' ↦ project_tally in_scope t' fs ]

  unfoldable pub project_frames :
      (RetainedFrame → Option String → Bool) → List RetainedFrame → Option FrameProjection
  unfolding project_tally
  project_frames in_scope fs = elim (project_tally in_scope empty_tally fs) [
    | none ↦ none
    | some t ↦ some (record { frame_count = length fs; tally = t })
  ]

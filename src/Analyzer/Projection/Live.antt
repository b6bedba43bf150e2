-- ===== src/Analyzer/Projection/Live.antt =====
-- `_accumulate_streaming_frame`: one frame of a live second.
use wlanpi_utilization.Prelude.{
  ◌+◌, ℤ, Bool, not, ◌&&◌, ◌||◌, Option, none, some, is_some, List, [], ◌∷◌, String, str_eq,
  has_text, insert_text, if◌then◌else◌,
}
use wlanpi_utilization.Frames.{is_true, is_number}
use wlanpi_utilization.Hosts.{counted, observe_host}
use wlanpi_utilization.Analyzer.Projection.{
  AddressOperations, RetainedFrame, BssidFrameSummary, new_summary, Tally, FrameProjection,
  get_summary, put_summary, known_bssid, is_eligible, associated_bssid, known_frame_bssid,
  is_unicast_mac, link_addresses, host_frame,
}

abbrev pub get_or_new : Option BssidFrameSummary → BssidFrameSummary
get_or_new none = new_summary
get_or_new (some s) = s

-- What is added to the summary of a BSSID.
unfoldable pub count_in : BssidFrameSummary → Bool → Bool → Bool → BssidFrameSummary
count_in s observed eligible retry = record s {
  frames = s.frames + 1;
  observed = s.observed + counted observed;
  eligible = s.eligible + counted eligible;
  retries = s.retries + counted retry;
}

-- A live stream is in order, so that its last frame is the latest.
unfoldable pub put_times : BssidFrameSummary → ℤ → BssidFrameSummary
put_times s t = elim s.first_timestamp [
  | none ↦ record s { first_timestamp = some t; last_timestamp = some t }
  | some first ↦ record s { last_timestamp = some t }
]

unfoldable pub add_client :
    List (String × BssidFrameSummary) → String → String → List (String × BssidFrameSummary)
add_client summaries b a = elim (get_summary summaries b) [
  | none ↦ summaries
  | some s ↦ put_summary summaries b (record s { client_macs = insert_text a s.client_macs })
]

-- The client's address, in the sets and the host details; `b` has the summary, if there is one.
unfoldable pub see_client : Tally → RetainedFrame → Option String → String → Bool → String → Tally
unfolding add_client
see_client t f b frame_bssid eligible a =
    let (hosts, omitted) = observe_host t.hosts a (host_frame f) frame_bssid eligible in
    record t {
      unique_client_macs = insert_text a t.unique_client_macs;
      hosts = hosts;
      hosts_limited = t.hosts_limited || omitted;
      by_bssid = elim b [ none ↦ t.by_bssid | some bssid ↦ add_client t.by_bssid bssid a ];
    }

-- The counts over all frames, and those of the frame's BSSID.
abbrev pub count_all : Tally → Bool → Bool → Bool → Tally
count_all t observed eligible retry = record t {
  retry_observed_count = t.retry_observed_count + counted observed;
  retry_eligible_count = t.retry_eligible_count + counted eligible;
  retry_count = t.retry_count + counted retry;
}

unfoldable pub count_live : Tally → RetainedFrame → String → Bool → Bool → Bool → Tally
unfolding count_in put_times
count_live t f b observed eligible retry = record t {
  by_bssid = put_summary t.by_bssid b (
      put_times (count_in (get_or_new (get_summary t.by_bssid b)) observed eligible retry)
        f.timestamp);
}

-- The summary of the frame's BSSID, if it has one.
abbrev pub summarise_live : Tally → RetainedFrame → Option String → Bool → Bool → Bool → Tally
summarise_live t f none observed eligible retry = t
summarise_live t f (some b) observed eligible retry = count_live t f b observed eligible retry

module _ (O : AddressOperations) (known : List (String × String)) where
  -- `address != frame_bssid and address not in known and _is_unicast_mac(address)`
  unfoldable pub is_client : String → String → Bool
  is_client frame_bssid a =
      not (str_eq a frame_bssid) && not (is_some (known_bssid known a)) && is_unicast_mac O a

  unfoldable pub see_clients :
      Tally → RetainedFrame → Option String → String → Bool → List String → Tally
  unfolding is_client see_client
  see_clients t f b frame_bssid eligible [] = t
  see_clients t f b frame_bssid eligible (a ∷ rest) =
      see_clients (if is_client frame_bssid a then see_client t f b frame_bssid eligible a else t) f
        b frame_bssid eligible rest

  -- What follows the counts: the clients of a data frame that is in scope.
  unfoldable pub clients_live : Tally → RetainedFrame → Option String → Bool → Tally
  unfolding see_clients
  clients_live t f b eligible = elim (known_frame_bssid O known f) [
    | none ↦ t
    | some frame_bssid ↦
        if has_text (link_addresses O f) frame_bssid
        then see_clients t f b frame_bssid eligible (link_addresses O f)
        else t
  ]

  -- A frame out of scope counts for nothing; one that is has its BSSID's summary, if it has a BSSID.
  unfoldable pub live_in_scope : Tally → RetainedFrame → Tally
  unfolding count_live clients_live
  live_in_scope t f =
      let observed = is_some f.retry_flag in
      let eligible = is_eligible O f in
      let retry = eligible && is_true f.retry_flag in
      let b = associated_bssid O known f in
      let all_counted = count_all t observed eligible retry in
      let summarised = summarise_live all_counted f b observed eligible retry in
      if is_number f.frame_type 2 then clients_live summarised f b eligible else summarised

  unfoldable pub accumulate :
      (RetainedFrame → Option String → Bool) → FrameProjection → RetainedFrame → FrameProjection
  unfolding live_in_scope
  accumulate in_scope p f = record {
    frame_count = p.frame_count + 1;
    tally =
        if f.has_bad_fcs
        then p.tally
        else if in_scope f (associated_bssid O known f)
        then live_in_scope p.tally f
        else p.tally;
  }

  unfoldable pub accumulate_all :
      (RetainedFrame → Option String → Bool)
      → FrameProjection
      → List RetainedFrame
      → FrameProjection
  unfolding accumulate
  accumulate_all in_scope p [] = p
  accumulate_all in_scope p (f ∷ fs) = accumulate_all in_scope (accumulate in_scope p f) fs

-- ===== src/Analyzer/Projection/Agree.antt =====
-- The live projection and the one in one pass are the same.
use wlanpi_utilization.Prelude.{
  ◌+◌, ℤ, leb_ℤ, ◌≡◌, refl, ap, ◌∙◌, inl, inr, Bool, true, false, ◌&&◌, Option, none, some, is_some,
  List, [], ◌∷◌, length, String, has_text, insert_text, Option-cases, if-elim, arith, if◌then◌else◌,
}
use wlanpi_utilization.Frames.{is_true, is_number}
use wlanpi_utilization.Analyzer.Projection.{
  AddressOperations, RetainedFrame, BssidFrameSummary, Tally, FrameProjection, empty_projection,
  get_summary, put_summary, is_eligible, associated_bssid, known_frame_bssid, link_addresses,
}
use wlanpi_utilization.Analyzer.Projection.Live.{
  get_or_new, count_in, put_times, add_client, see_client, is_client, see_clients, count_all,
  count_live, clients_live, summarise_live, live_in_scope, accumulate, accumulate_all,
}
use wlanpi_utilization.Analyzer.Projection.Batch.{project_tally, project_frames}
use wlanpi_utilization.Analyzer.Projection.Times.{
  AllBy, get-IsBy, put-AllBy, put_times-IsBy, AllBy-later,
}
use wlanpi_utilization.Analyzer.Projection.Clients.{batch_in_scope-live}

chosen :
    (c d : Bool) (t : Tally) {x : Option Tally} {y : Tally}
    → x ≡ some y
    → (if c then some t else if d then x else some t) ≡ some (if c then t else if d then y else t)
chosen true d t e = refl
chosen false true t e = e
chosen false false t e = refl

-- The frames come in the order of their times, none of them before `t`.
abbrev pub are_ordered : ℤ → List RetainedFrame → Bool
are_ordered t [] = true
are_ordered t (f ∷ fs) = leb_ℤ t f.timestamp && are_ordered f.timestamp fs

module _ (O : AddressOperations) (known : List (String × String)) where
  -- The times after a frame.
  add_client-AllBy :
      (t : ℤ) (l : List (String × BssidFrameSummary)) (b a : String)
      → AllBy t l
      → AllBy t (add_client l b a)
  unfolding add_client
  add_client-AllBy t l b a h = with_summary (get_summary l b) refl
    where
      with_summary :
          (o : Option BssidFrameSummary)
          → get_summary l b ≡ o
          → AllBy t (elim o [
            | none ↦ l
            | some s ↦ put_summary l b (record s { client_macs = insert_text a s.client_macs })
          ])
      with_summary none e = h
      with_summary (some s) e =
          put-AllBy t l b (record s { client_macs = insert_text a s.client_macs })
            (let k = get-IsBy t l b h in rw e at k) h

  see_clients-AllBy :
      (addresses : List String) (t : Tally) (f : RetainedFrame) (b : Option String)
      (frame_bssid : String) (eligible : Bool) (time : ℤ)
      → AllBy time t.by_bssid
      → AllBy time (see_clients O known t f b frame_bssid eligible addresses).by_bssid
  unfolding see_clients see_client
  see_clients-AllBy [] t f b frame_bssid eligible time h = h
  see_clients-AllBy (a ∷ rest) t f b frame_bssid eligible time h =
      see_clients-AllBy rest _ f b frame_bssid eligible time (
        if-elim {A = Tally} (λ x. AllBy time x.by_bssid) (is_client O known frame_bssid a)
          (λ e. seen b) (λ e. h))
    where
      seen : (b : Option String) → AllBy time (see_client t f b frame_bssid eligible a).by_bssid
      seen none = h
      seen (some b) = add_client-AllBy time t.by_bssid b a h

  summarise-AllBy :
      (t : Tally) (f : RetainedFrame) (b : Option String) (observed eligible retry : Bool)
      → AllBy f.timestamp t.by_bssid
      → AllBy f.timestamp (summarise_live t f b observed eligible retry).by_bssid
  unfolding count_live put_times count_in
  summarise-AllBy t f none observed eligible retry h = h
  summarise-AllBy t f (some b) observed eligible retry h =
      let s = get_or_new (get_summary t.by_bssid b) in
      put-AllBy f.timestamp t.by_bssid b _
        (put_times-IsBy f.timestamp (count_in s observed eligible retry) s.first_timestamp
          s.last_timestamp (get-IsBy f.timestamp t.by_bssid b h))
        h

  clients_live-AllBy :
      (t : Tally) (f : RetainedFrame) (b : Option String) (eligible : Bool)
      → AllBy f.timestamp t.by_bssid
      → AllBy f.timestamp (clients_live O known t f b eligible).by_bssid
  unfolding clients_live
  clients_live-AllBy t f b eligible h = elim (Option-cases (known_frame_bssid O known f)) [
    | inl n ↦ rw (clients_live, n) h
    | inr (c, e) ↦
        rw (clients_live, e)
          (if-elim {A = Tally} (λ x. AllBy f.timestamp x.by_bssid) (has_text (link_addresses O f) c)
            (λ e'. see_clients-AllBy (link_addresses O f) t f b c eligible f.timestamp h) (λ e'. h))
  ]

  live_in_scope-AllBy :
      (t : Tally) (f : RetainedFrame)
      → AllBy f.timestamp t.by_bssid
      → AllBy f.timestamp (live_in_scope O known t f).by_bssid
  unfolding live_in_scope
  live_in_scope-AllBy t f h =
      let observed = is_some f.retry_flag in
      let eligible = is_eligible O f in
      let retry = eligible && is_true f.retry_flag in
      let b = associated_bssid O known f in
      let c = count_all t observed eligible retry in
      let counted = summarise-AllBy c f b observed eligible retry h in
      if-elim {A = Tally} (λ x. AllBy f.timestamp x.by_bssid) (is_number f.frame_type 2)
        (λ e. clients_live-AllBy _ f b eligible counted) (λ e. counted)

  -- The loop from any state whose times are all past.
  project_tally-live :
      (in_scope : RetainedFrame → Option String → Bool) (fs : List RetainedFrame) (t : ℤ)
      (p : FrameProjection)
      → are_ordered t fs ≡ true
      → AllBy t p.tally.by_bssid
      → (project_tally O known in_scope p.tally fs
          ≡ some (accumulate_all O known in_scope p fs).tally)
        × ((accumulate_all O known in_scope p fs).frame_count ≡ p.frame_count + length fs)
  unfolding project_tally accumulate_all accumulate
  project_tally-live in_scope [] t p o h = (refl, omega arith)
  project_tally-live in_scope (f ∷ fs) t p o h =
      let past = AllBy-later t f.timestamp p.tally.by_bssid (ground arith) h in
      let scoped = in_scope f (associated_bssid O known f) in
      let stepped =
        chosen f.has_bad_fcs scoped p.tally (batch_in_scope-live O known p.tally f past) in
      let next =
        if-elim {A = Tally} (λ x. AllBy f.timestamp x.by_bssid) f.has_bad_fcs (λ e. past)
          (λ e.
            if-elim {A = Tally} (λ x. AllBy f.timestamp x.by_bssid) scoped
              (λ e'. live_in_scope-AllBy p.tally f past) (λ e'. past)) in
      let (same, count) =
        project_tally-live in_scope fs f.timestamp (accumulate O known in_scope p f) (ground arith)
          next in
      (
        ap
              (λ x. elim x as (λ y. Option Tally) [
                | none ↦ none
                | some t' ↦ project_tally O known in_scope t' fs
              ])
              stepped
            ∙ same,
        omega (arith, count),
      )

  -- The pass over a tuple is the accumulation, for any scope that both use.
  pub project_frames-accumulate :
      (in_scope : RetainedFrame → Option String → Bool) (t : ℤ) (fs : List RetainedFrame)
      → are_ordered t fs ≡ true
      → project_frames O known in_scope fs
        ≡ some (accumulate_all O known in_scope empty_projection fs)
  unfolding project_frames
  project_frames-accumulate in_scope t fs o =
      let (same, count) = project_tally-live in_scope fs t empty_projection o tt in
      let number : length fs ≡ (accumulate_all O known in_scope empty_projection fs).frame_count =
        omega (arith, count) in
      ap
        (λ x. elim x as (λ y. Option FrameProjection) [
          | none ↦ none
          | some t' ↦ some (record { frame_count = length fs; tally = t' })
        ])
        same
      ∙ ap
          (λ n. some (record {
            frame_count = n;
            tally = (accumulate_all O known in_scope empty_projection fs).tally;
          }))
          number

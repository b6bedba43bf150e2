-- ===== src/Runtime/Lifecycle.antt =====
-- The life of a session, under any interleaving of calls.
use mathlib.Core.List.Memᴰ.{head, tail}
use wlanpi_utilization.Prelude.{
  ◌≢◌, sym, ap, Memᴰ, Bool-cases, ◌+◌, ◌≤◌, ◌≡◌, refl, ◌∙◌, ◌⊎◌, inl, inr, Bool, true, false, not,
  ◌&&◌, Option, none, some, List, [], ◌∷◌, String, str_eq, eq_iff, all, Option-cases, arith,
}
use wlanpi_utilization.Runtime.{stopping, is_active, Payload, ManagedRuntime}
use wlanpi_utilization.Runtime.Session.{
  set_snapshot, Event, started, published, captured, rows, asked, finished, Outcome, returned,
  is_current, start, stop, publish, capture_started, publish_stats, finish, step, run,
}

module _ {T : Payload} where
  -- Whatever the call, the publication is as it was, or its revision is the next one.
  step-revision :
      (r : ManagedRuntime T) (e : Event T)
      → ((step r e).publication ≡ r.publication)
        ⊎ ((step r e).publication.revision ≡ r.publication.revision + 1)
  unfolding step start stop publish capture_started publish_stats finish
  step-revision r e = ground arith

  -- Revisions never go down, and where the revision is the same nothing that is published has changed:
  -- a consumer that compares revisions misses no change.
  pub run-revision :
      (r : ManagedRuntime T) (es : List (Event T))
      → (r.publication.revision ≤ (run r es).publication.revision)
        × ((run r es).publication.revision ≡ r.publication.revision
            → (run r es).publication ≡ r.publication)
  unfolding run
  run-revision r [] = (omega arith, λ e. refl)
  run-revision r (e ∷ es) =
      let (up, same) = run-revision (step r e) es in
      elim (step-revision r e) [
        | inl p ↦ (ground arith, λ h. same (ground arith) ∙ p)
        | inr p ↦ (omega arith, λ h. absurd (omega arith))
      ]

  -- The session that an event is about.
  abbrev pub session_of : Event T → Option String
  session_of (started config id) = none
  session_of (published id change) = some id
  session_of (captured id) = some id
  session_of (rows id new_rows) = some id
  session_of (asked id) = some id
  session_of (finished id outcome) = some id

  step_of_stale :
      (r : ManagedRuntime T) (e : Event T) (id : String)
      → session_of e ≡ some id
      → is_current r id ≡ false
      → step r e ≡ r
  unfolding step start stop publish capture_started publish_stats finish
  step_of_stale r (started config s) id e h = absurd (cc)
  step_of_stale r (rows s []) id e h = refl
  step_of_stale r (rows s (row ∷ rest)) id e h = ground arith
  step_of_stale r _ id e h = ground arith

  -- The event is a call for some session that is not the published one.
  abbrev pub IsStale : ManagedRuntime T → Event T → Type 0
  IsStale r e = (id : String) × (session_of e ≡ some id) × (r.publication.session_id ≢ some id)

  not_current :
      (r : ManagedRuntime T) (id : String)
      → r.publication.session_id ≢ some id
      → is_current r id ≡ false
  unfolding is_current
  not_current r id other = elim (Option-cases r.publication.session_id) [
    | inl e ↦ rw (is_current, e) refl
    | inr (s, e) ↦ elim (Bool-cases (str_eq id s)) [
      | inr c ↦ rw (is_current, e) c
      | inl c ↦ absurd (other (e ∙ ap some (sym ((eq_iff id s).0 c))))
    ]
  ]

  -- Calls for other sessions than the published one, whatever they are and however many, leave the
  -- whole runtime as it is.
  pub run_of_stale :
      (r : ManagedRuntime T) (es : List (Event T))
      → ((e : Event T) → Memᴰ e es → IsStale r e)
      → run r es ≡ r
  unfolding run
  run_of_stale r [] stale = refl
  run_of_stale r (e ∷ es) stale =
      let (id, about, other) = stale e (head refl) in
      let same : step r e ≡ r = step_of_stale r e id about (not_current r id other) in
      ap (λ x. run x es) same ∙ run_of_stale r es (λ e' m. stale e' (tail m))

  -- The event is the end of the session `id`.
  abbrev pub ends : String → Event T → Bool
  ends id (finished s outcome) = str_eq s id
  ends id _ = false

  -- What an active session keeps until its end.
  record IsOwned (id : String) (r : ManagedRuntime T) : Type 0 where
    current : r.publication.session_id ≡ some id
    active : is_active r.publication.phase ≡ true

  -- No event of the list ends the session `id`.
  abbrev pub no_end : String → List (Event T) → Bool
  no_end id [] = true
  no_end id (e ∷ es) = not (ends id e) && no_end id es

  IsOwned-step :
      (id : String) (r : ManagedRuntime T) (e : Event T)
      → ends id e ≡ false
      → IsOwned id r
      → IsOwned id (step r e)
  unfolding step start stop publish capture_started publish_stats finish is_current
  IsOwned-step id r (published s (set_snapshot x)) n o = ground arith
  IsOwned-step id r (published s _) n o = ground arith
  IsOwned-step id r (rows s []) n o = o
  IsOwned-step id r (finished s (returned code)) n o = ground (arith, eq_iff s id)
  IsOwned-step id r _ n o = ground arith

  IsOwned-run :
      (id : String) (r : ManagedRuntime T) (es : List (Event T))
      → no_end id es ≡ true
      → IsOwned id r
      → IsOwned id (run r es)
  unfolding run
  IsOwned-run id r [] n o = o
  IsOwned-run id r (e ∷ es) n o =
      IsOwned-run id (step r e) es (ground arith) (IsOwned-step id r e (ground arith) o)

  -- Until it ends, an active session stays the current one and active: no start by anyone replaces it.
  pub run-session_id :
      (id : String) (r : ManagedRuntime T) (es : List (Event T))
      → r.publication.session_id ≡ some id
      → is_active r.publication.phase ≡ true
      → no_end id es ≡ true
      → ((run r es).publication.session_id ≡ some id)
        × (is_active (run r es).publication.phase ≡ true)
  run-session_id id r es c a n =
      let o = IsOwned-run id r es n (record { current = c; active = a }) in (o.current, o.active)

  -- A stop that was accepted.
  pub record IsStopping (id : String) (r : ManagedRuntime T) : Type 0 where
    pub current : r.publication.session_id ≡ some id
    pub phase : r.publication.phase ≡ stopping
    pub requested : r.stop_requested ≡ true

  IsStopping-step :
      (id : String) (r : ManagedRuntime T) (e : Event T)
      → ends id e ≡ false
      → IsStopping id r
      → IsStopping id (step r e)
  unfolding step start stop publish capture_started publish_stats finish is_current
  IsStopping-step id r (published s (set_snapshot x)) n o = ground arith
  IsStopping-step id r (published s _) n o = ground arith
  IsStopping-step id r (rows s []) n o = o
  IsStopping-step id r (finished s (returned code)) n o = ground (arith, eq_iff s id)
  IsStopping-step id r _ n o = ground arith

  IsStopping-run :
      (id : String) (r : ManagedRuntime T) (es : List (Event T))
      → no_end id es ≡ true
      → IsStopping id r
      → IsStopping id (run r es)
  unfolding run
  IsStopping-run id r [] n o = o
  IsStopping-run id r (e ∷ es) n o =
      IsStopping-run id (step r e) es (ground arith) (IsStopping-step id r e (ground arith) o)

  session_of_current :
      (id : String) (r : ManagedRuntime T)
      → is_current r id ≡ true
      → r.publication.session_id ≡ some id
  unfolding is_current
  session_of_current id r h = elim (Option-cases r.publication.session_id) [
    | inl e ↦ absurd (ground arith)
    | inr (s, e) ↦ ground (arith, eq_iff id s)
  ]

  stop-IsStopping :
      (id : String) (r : ManagedRuntime T) → (stop r id).1 ≡ true → IsStopping id (stop r id).0
  unfolding stop
  stop-IsStopping id r h =
      let c : is_current r id ≡ true = ground arith in
      let s = session_of_current id r c in ground arith

  -- Once a stop of a session is accepted, the session stays in the phase `stopping` with the request
  -- set until it ends: no late start of the capture and no publication puts it back to running.
  pub run-IsStopping :
      (id : String) (r : ManagedRuntime T) (es : List (Event T))
      → (stop r id).1 ≡ true
      → no_end id es ≡ true
      → IsStopping id (run (stop r id).0 es)
  run-IsStopping id r es h n = IsStopping-run id (stop r id).0 es n (stop-IsStopping id r h)

  -- The events of a session's time after its end: no start, and no second end.
  abbrev pub is_quiet : Event T → Bool
  is_quiet (started config id) = false
  is_quiet (finished id outcome) = false
  is_quiet _ = true

  step_of_inactive :
      (r : ManagedRuntime T) (e : Event T)
      → is_quiet e ≡ true
      → is_active r.publication.phase ≡ false
      → step r e ≡ r
  unfolding step stop publish capture_started publish_stats
  step_of_inactive r (started config id) q h = absurd (cc)
  step_of_inactive r (rows id []) q h = refl
  step_of_inactive r _ q h = ground arith

  run_of_inactive :
      (r : ManagedRuntime T) (es : List (Event T))
      → all is_quiet es ≡ true
      → is_active r.publication.phase ≡ false
      → run r es ≡ r
  unfolding run
  run_of_inactive r [] q h = refl
  run_of_inactive r (e ∷ es) q h =
      rw (step_of_inactive r e (ground arith) h) (run_of_inactive r es (ground arith) h)

  finish_settles :
      (r : ManagedRuntime T) (id : String) (outcome : Outcome)
      → is_current r id ≡ true
      → (is_active (finish r id outcome).publication.phase ≡ false)
        × ((finish r id outcome).publication.logging.active ≡ false)
        × ((finish r id outcome).publication.export_active ≡ false)
  unfolding finish
  finish_settles r id (returned code) h = ground arith
  finish_settles r id _ h = ground arith

  -- The end of the current session leaves it in an inactive phase with logging and export off, and
  -- nothing that its capture or a late stop still calls changes what was published last.
  pub run-finish :
      (r : ManagedRuntime T) (id : String) (outcome : Outcome) (es : List (Event T))
      → is_current r id ≡ true
      → all is_quiet es ≡ true
      → (run (finish r id outcome) es ≡ finish r id outcome)
        × (is_active (finish r id outcome).publication.phase ≡ false)
        × ((finish r id outcome).publication.logging.active ≡ false)
        × ((finish r id outcome).publication.export_active ≡ false)
  run-finish r id outcome es h q =
      let (a, l, x) = finish_settles r id outcome h in
      (run_of_inactive (finish r id outcome) es q a, a, l, x)

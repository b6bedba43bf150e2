-- ===== src/Runtime/Session.antt =====
-- The methods of `ManagedRuntime`, and the calls that its capture makes through the adapter.
use wlanpi_utilization.Prelude.{
  ℕ, ◌+◌, ℤ, pos, eq_ℤ, Bool, true, false, ◌&&◌, ◌||◌, not, Option, none, some, List, [], ◌∷◌, ◌++◌,
  filter, leb, String, str_eq, if◌then◌else◌,
}
use wlanpi_utilization.Runtime.{
  starting, running, stopping, stopped, failed, is_active, is_starting, is_stopping, LoggingStatus,
  Payload, RuntimePublication, ManagedRuntime, last_rows, new_publication, exited, raised,
}

-- The keyword arguments that the adapter passes to `_publish`.
pub data Change (T : Payload) : Type 0 where
  set_snapshot : T.Snapshot → Change T
  set_collecting : Bool → Change T
  set_capture_width : String → Change T
  set_logging : LoggingStatus → Change T
  set_notice : String → Change T
  set_export : Bool → T.Export → T.Others → Change T
  set_others : T.Others → Change T

-- How the runner of a session ends.
pub data Outcome : Type 0 where
  returned : ℤ → Outcome
  interrupted : Outcome
  failed_with : String → Outcome

-- The step of one call, whoever makes it: `run` makes the first and the last of its session, its
-- capture the ones between, and any thread a `stop`.
pub data Event (T : Payload) : Type 0 where
  started : T.Config → String → Event T
  published : String → Change T → Event T
  captured : String → Event T
  rows : String → List T.Row → Event T
  asked : String → Event T
  finished : String → Outcome → Event T

-- The newest second of a list that is not empty.
abbrev pub last_second : (T : Payload) → T.Row → List T.Row → ℕ
last_second T row [] = T.second row
last_second T row (next ∷ rest) = last_second T next rest

-- `row.second >= last - window + 1`
abbrev pub in_window : (T : Payload) → ℕ → ℕ → T.Row → Bool
in_window T last window row = leb (last + 1) (T.second row + window)

-- The rows that `_publish_stats` keeps of the combined ones.
unfoldable pub kept_rows : (T : Payload) → ℕ → List T.Row → List T.Row
kept_rows T window [] = []
kept_rows T window (row ∷ rest) =
    last_rows window (filter (in_window T (last_second T row rest) window) (row ∷ rest))

module _ {T : Payload} where
  -- `replace(publication, **changes)`
  unfoldable pub replace : RuntimePublication T → Change T → RuntimePublication T
  replace p (set_snapshot s) = record p { snapshot = s }
  replace p (set_collecting b) = record p { collecting = b }
  replace p (set_capture_width w) = record p { capture_width = some w }
  replace p (set_logging l) = record p { logging = l }
  replace p (set_notice m) = record p { notice = some m }
  replace p (set_export active e o) = record p { export_active = active; export = e; others = o }
  replace p (set_others o) = record p { others = o }

  -- `session_id == self._publication.session_id`
  unfoldable pub is_current : ManagedRuntime T → String → Bool
  is_current r id = elim r.publication.session_id [ none ↦ false | some s ↦ str_eq id s ]

  -- `_update_locked`, on the publication with its changes.
  unfoldable pub update_locked : ManagedRuntime T → RuntimePublication T → ManagedRuntime T
  update_locked r p = record r { publication = record p { revision = r.publication.revision + 1 } }

  -- `_publish`
  unfoldable pub publish : ManagedRuntime T → String → Change T → ManagedRuntime T
  unfolding update_locked replace
  publish r id change =
      if is_current r id && is_active r.publication.phase
      then update_locked r (replace r.publication change)
      else r

  -- The first locked block of `run`; `none` is `SessionConflictError`.
  unfoldable pub start : ManagedRuntime T → T.Config → String → Option (ManagedRuntime T)
  start r config id =
      if is_active r.publication.phase
      then none
      else some (record {
        publication =
            new_publication T (some id) (r.publication.revision + 1) starting (some config);
        stop_requested = false;
      })

  -- `stop`: the new state, and whether the request was accepted.
  unfoldable pub stop : ManagedRuntime T → String → ManagedRuntime T × Bool
  unfolding update_locked
  stop r id =
      if not (is_current r id) || not (is_active r.publication.phase)
      then (r, false)
      else let noted = record r { stop_requested = true } in
        if is_stopping r.publication.phase
        then (noted, true)
        else (update_locked noted (record noted.publication { phase = stopping }), true)

  -- `_capture_started`
  unfoldable pub capture_started : ManagedRuntime T → String → ManagedRuntime T
  unfolding update_locked
  capture_started r id =
      if is_current r id && is_starting r.publication.phase
      then update_locked r (record r.publication { phase = running })
      else r

  -- `_publish_stats`
  unfoldable pub publish_stats : ManagedRuntime T → String → List T.Row → ManagedRuntime T
  unfolding update_locked
  publish_stats r id [] = r
  publish_stats r id (row ∷ rest) =
      if not (is_current r id) || not (is_active r.publication.phase)
      then r
      else let window = T.window_seconds r.publication.snapshot in
        let combined = r.publication.completed_stats ++ row ∷ rest in
        update_locked r (record r.publication { completed_stats = kept_rows T window combined })

  -- The keyword arguments of `_finish` in the branches of `run`.
  unfoldable pub outcome_of : RuntimePublication T → Outcome → RuntimePublication T
  outcome_of p (returned code) =
      if eq_ℤ code (pos 0)
      then record p { phase = stopped; exit_code = some code; error = none }
      else record p { phase = failed; exit_code = some code; error = some (exited code) }
  outcome_of p interrupted = record p { phase = stopped; exit_code = some (pos 130) }
  outcome_of p (failed_with message) = record p { phase = failed; error = some (raised message) }

  -- `_finish`
  unfoldable pub finish : ManagedRuntime T → String → Outcome → ManagedRuntime T
  unfolding update_locked outcome_of
  finish r id outcome =
      if is_current r id
      then update_locked r (
          outcome_of
            (record r.publication {
              logging = record (r.publication.logging) { active = false };
              export_active = false;
            })
            outcome)
      else r

  -- A start that conflicts leaves the runtime as it is.
  unfoldable pub step : ManagedRuntime T → Event T → ManagedRuntime T
  unfolding start
  step r (started config id) = elim (start r config id) [ none ↦ r | some r' ↦ r' ]
  step r (published id change) = publish r id change
  step r (captured id) = capture_started r id
  step r (rows id new_rows) = publish_stats r id new_rows
  step r (asked id) = (stop r id).0
  step r (finished id outcome) = finish r id outcome

  unfoldable pub run : ManagedRuntime T → List (Event T) → ManagedRuntime T
  run r [] = r
  run r (e ∷ es) = run (step r e) es

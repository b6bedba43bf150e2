-- ===== src/Tests/Sessions.antt =====
-- Applications to a session of the runtime that is started, captures and ends.
use mathlib.Core.List.Memᴰ
use wlanpi_utilization.Prelude.{
  ◌≢◌, inl, inr, String, str_eq, eq_iff, sym, ◌∙◌, Memᴰ, ℕ, ◌≤◌, ◌<◌, pos, ◌≡◌, refl, true, false,
  some, List, [], ◌∷◌, filter, length, arith,
}
use wlanpi_utilization.Runtime.{Payload, ManagedRuntime, init, is_active}
use wlanpi_utilization.Runtime.Session.{
  Event, started, finished, captured, rows, published, asked, set_notice, returned, kept_rows,
  is_current, stop, finish, step, run,
}
use wlanpi_utilization.Runtime.Lifecycle.{
  run-revision, IsStale, run_of_stale, run-session_id, IsStopping, run-IsStopping, run-finish,
}
use wlanpi_utilization.Runtime.Retention.{Rising, is_recent, kept_rows_lem}

-- A snapshot is its window, and a row is its second.
abbrev payload : Payload
payload = record {
  Config = ℕ;
  Snapshot = ℕ;
  Row = ℕ;
  Export = ℕ;
  Others = ℕ;
  window_seconds = λ s. s;
  second = λ s. s;
  empty_snapshot = 120;
  default_export = 0;
  default_others = 0;
}

abbrev session : ManagedRuntime payload
session = run (init payload) (started 0 "s" ∷ [])

abbrev events : List (Event payload)
events = captured "s" ∷ rows "s" (7 ∷ []) ∷ published "s" (set_notice "n") ∷ []

run-revision_example :
    (session.publication.revision ≤ (run session events).publication.revision)
    × ((run session events).publication.revision ≡ session.publication.revision
        → (run session events).publication ≡ session.publication)
run-revision_example = run-revision session events

-- A request to stop another session, and its end.
abbrev late_calls : List (Event payload)
late_calls = asked "t" ∷ finished "t" (returned (pos 0)) ∷ []

published_s : session.publication.session_id ≡ some "s"
unfolding run step
published_s = refl

other_session : session.publication.session_id ≢ some "t"
other_session e =
    let same : "s" ≡ "t" = inner (sym published_s ∙ e) in
    absurd (let differ : str_eq "s" "t" ≡ false = refl in let b = (eq_iff "s" "t").1 same in cc)
  where
    inner : {a b : String} → some a ≡ some b → a ≡ b
    inner q = cc

stale : (e : Event payload) → Memᴰ e late_calls → IsStale session e
stale e m = elim (Memᴰ.cases_cons m) [
  | inl q ↦ rw q ("t", refl, other_session)
  | inr m' ↦ elim (Memᴰ.cases_cons m') [
    | inl q ↦ rw q ("t", refl, other_session)
    | inr n ↦ absurd (Memᴰ.not-nil n)
  ]
]

run_of_stale_example : run session late_calls ≡ session
run_of_stale_example = run_of_stale session late_calls stale

current : session.publication.session_id ≡ some "s"
unfolding run step
current = refl

active : is_active session.publication.phase ≡ true
unfolding run step
active = refl

run-session_id_example :
    ((run session events).publication.session_id ≡ some "s")
    × (is_active (run session events).publication.phase ≡ true)
run-session_id_example = run-session_id "s" session events current active refl

accepted : (stop session "s").1 ≡ true
unfolding stop run step is_current
accepted = refl

run-IsStopping_example : IsStopping "s" (run (stop session "s").0 events)
run-IsStopping_example = run-IsStopping "s" session events accepted refl

still_current : is_current session "s" ≡ true
unfolding is_current run step
still_current = refl

run-finish_example :
    (run (finish session "s" (returned (pos 0))) events ≡ finish session "s" (returned (pos 0)))
    × (is_active (finish session "s" (returned (pos 0))).publication.phase ≡ false)
    × ((finish session "s" (returned (pos 0))).publication.logging.active ≡ false)
    × ((finish session "s" (returned (pos 0))).publication.export_active ≡ false)
run-finish_example = run-finish session "s" (returned (pos 0)) events still_current refl

some_window : 0 < 3
some_window = omega arith

kept_rows_lem_example :
    (length (kept_rows payload 3 (1 ∷ 4 ∷ 5 ∷ [])) ≤ 3)
    × ((low : ℕ)
        → Rising payload low (1 ∷ 4 ∷ 5 ∷ [])
        → kept_rows payload 3 (1 ∷ 4 ∷ 5 ∷ [])
          ≡ filter (is_recent payload 3 (1 ∷ 4 ∷ 5 ∷ [])) (1 ∷ 4 ∷ 5 ∷ []))
kept_rows_lem_example = kept_rows_lem payload 3 1 (4 ∷ 5 ∷ []) some_window

-- ===== src/Tests/Services.antt =====
-- Applications to a broker whose session starts, runs and is stopped.
use wlanpi_utilization.Prelude.{
  ℕ, ℤ, pos, ◌≡◌, refl, false, true, ◌&&◌, Option, some, none, List, [], ◌∷◌, any, all, String, ok,
  value_error, if◌then◌else◌,
}
use wlanpi_utilization.Runtime.{SessionPhase, running, stopped, is_active, new_publication}
use wlanpi_utilization.Service.Config.{ExportLimits, direct, LiveSessionConfig}
use wlanpi_utilization.Service.Broker.{
  ServicePayload, payload, ServiceBroker, created, PollAnswers, poll_owner,
}
use wlanpi_utilization.Service.Dispatch.{
  start_session, stop, Request, published, refused, RequestAnswers, is_version, is_joinable,
  dispatch,
}
use wlanpi_utilization.Service.Shutdown.{shutdown}
use wlanpi_utilization.Service.Refusals.{is_control, is_about, dispatch-refused}
use wlanpi_utilization.Service.Invariant.{IsSound}
use wlanpi_utilization.Service.Lifecycle.{Event, polled, requested, run, run-IsSound}
use wlanpi_utilization.Service.Ending.{shows_exit, raises_nothing, shutdown-ends}
use wlanpi_utilization.Service.Late.{reported, poll_all}
use wlanpi_utilization.Service.Reports.{end_once}
use wlanpi_utilization.Service.Stopping.{dispatch-stop}

abbrev values : ServicePayload
values = record {
  Snapshot = ℕ;
  Row = ℕ;
  Export = ℕ;
  Others = ℕ;
  Closed = String;
  window_seconds = λ s. s;
  second = λ s. s;
  empty_snapshot = 120;
  default_export = 0;
  default_others = 0;
  closed = λ o. "a.csv" ∷ [];
  path_of = λ c. c;
  key_of = λ session c. c;
}

abbrev limits : ExportLimits
limits = record {
  segment_bytes = pos 1000;
  rotation_seconds = some (pos 3600);
  retained_bytes = pos 0;
  retained_files = pos 0;
  limit_free_bytes = pos 0;
  queue_bytes = pos 1000;
  queue_records = pos 64;
}

abbrev source : LiveSessionConfig
source = record {
  iface = "wlan0";
  netns = none;
  capture_backend = direct;
  core_diagnostics_path = none;
  channel = "36";
  frequency_mhz = none;
  band = none;
  channel_width = none;
  center_frequency1_mhz = none;
  center_frequency2_mhz = none;
  raw_capture_path = none;
  interval_seconds = pos 1;
  local_cu = false;
  survey_debug = false;
  stats_csv = none;
  beacons_jsonl = none;
  logging_control_path = none;
  logging_status_path = none;
  initial_logging_enabled = none;
  min_free_bytes = pos 0;
  disk_check_interval_seconds = pos 1;
  rotation_interval_seconds = pos 1;
  export_directory = none;
  initial_export_enabled = false;
  export_limits = limits;
}

abbrev int_of : String → Option ℤ
int_of t = some (pos 36)

abbrev quiet : PollAnswers values
quiet = record {
  publications = [];
  failure = none;
  escaped = none;
  alive = true;
  code = none;
  eof = false;
  closed = none;
  removed = none;
}

-- The owner says that the session is in the phase.
abbrev says : SessionPhase → PollAnswers values
says phase = record quiet {
  publications = new_publication (payload values) (some "s") 1 phase (some source) ∷ [];
}

abbrev exits : PollAnswers values
exits = record quiet { alive = false; code = some (pos 0); eof = true }

abbrev answers : RequestAnswers values
answers = record {
  polled = quiet;
  started = record {
    new_id = "s";
    socketpair = none;
    written = none;
    popen = none;
    sent = none;
    parent_closed = none;
    ended_in_time = true;
    removed = none;
    child_closed = none;
  };
  written = none;
}

abbrev ask_start : Request
ask_start = record {
  version = some (pos 1);
  op = start_session;
  session_id = none;
  config = ok source;
  enabled = none;
}

abbrev ask_stop : Request
ask_stop = record ask_start { op = stop; session_id = some "s" }

abbrev stale_stop : Request
stale_stop = record ask_start { op = stop; session_id = some "t" }

abbrev events : List (Event values)
events = requested ask_start answers ∷ polled (says running) ∷ []

abbrev live : ServiceBroker values
live = run int_of (created values "/run") events

live-IsSound : IsSound true live
live-IsSound = run-IsSound int_of "/run" events

dispatch-refused_example :
    ((m : String)
      → (dispatch int_of live stale_stop answers).1 ≡ refused m
      → (dispatch int_of live stale_stop answers).0
        ≡ (if is_version stale_stop.version then (poll_owner live answers.polled).0 else live))
    × (is_version stale_stop.version ≡ true
        → (poll_owner live answers.polled).1 ≡ none
        → is_control stale_stop.op ≡ true
        → is_about (poll_owner live answers.polled).0 stale_stop ≡ false
        → (m : String) × (dispatch int_of live stale_stop answers
            ≡ ((poll_owner live answers.polled).0, refused m)))
dispatch-refused_example = dispatch-refused int_of live stale_stop answers

abbrev late : List (PollAnswers values)
late = says running ∷ says stopped ∷ []

abbrev after_stop : ServiceBroker values
after_stop = (dispatch int_of live (record ask_stop { op = stop }) answers).0

accepted :
    (dispatch int_of live (record ask_stop { op = stop }) answers).1
    ≡ published after_stop.publication false
unfolding dispatch run wlanpi_utilization.Service.Config.validate_config
    wlanpi_utilization.Prelude.◌*ℤ◌ wlanpi_utilization.Prelude.◌+ℤ◌
accepted = refl

in_order : end_once (poll_owner live answers.polled).0.publication.session_id (reported late) ≡ true
unfolding poll_owner run dispatch wlanpi_utilization.Service.Config.validate_config
    wlanpi_utilization.Prelude.◌*ℤ◌ wlanpi_utilization.Prelude.◌+ℤ◌
in_order = refl

dispatch-stop_example :
    is_joinable
      (poll_all
        (dispatch int_of live (record ask_stop { op = stop }) answers).0
        late).publication.phase
    ≡ false
dispatch-stop_example =
    dispatch-stop int_of live ask_stop answers late after_stop.publication false accepted in_order

abbrev ending : List (PollAnswers values)
ending = says stopped ∷ exits ∷ []

shutdown-ends_example :
    ((shutdown live quiet true ending true quiet).1 ≡ none
      → ((shutdown live quiet true ending true quiet).0.process ≡ false)
        × (is_active (shutdown live quiet true ending true quiet).0.publication.phase ≡ false))
    × (any shows_exit (quiet ∷ ending) ≡ true
        → all raises_nothing (quiet ∷ ending) ≡ true
        → (shutdown live quiet true ending true quiet).1 ≡ none)
shutdown-ends_example = shutdown-ends live quiet true ending true quiet live-IsSound

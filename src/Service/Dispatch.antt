-- ===== src/Service/Dispatch.antt =====
-- `dispatch`: one request of a client.
use wlanpi_utilization.Prelude.{
  ℤ, pos, eq_ℤ, Bool, true, false, not, ◌&&◌, ◌||◌, Option, none, some, is_some, List, [], ◌∷◌,
  ◌++◌, filter, has_text, String, Result, ok, value_error, if◌then◌else◌,
}
use wlanpi_utilization.Runtime.{
  SessionPhase, starting, running, stopping, is_active, is_starting, is_stopping,
}
use wlanpi_utilization.Service.Config.{LiveSessionConfig, validate_config, same_source}
use wlanpi_utilization.Service.Broker.{
  ServicePayload, Publication, Entry, interrupted, ServiceBroker, PollAnswers, same_session,
  do_effect, update, write_logging, poll_owner,
}
use wlanpi_utilization.Service.Start.{StartAnswers, start}

-- `op` of a request; `other_op` is any other value.
pub data Operation : Type 0 where
  list_files read start_session ensure join stop set_logging set_export other_op : Operation

-- `version` is `none` where it is no integer, `config` what `from_wire` gives for it, and `enabled`
-- `none` where it is no Boolean.
pub record Request : Type 0 where
  pub version : Option ℤ
  pub op : Operation
  pub session_id : Option String
  pub config : Result LiveSessionConfig
  pub enabled : Option Bool

-- The response, a `ValueError` of the checks, or what a call of the system raised.
pub data Response (S : ServicePayload) : Type 0 where
  files : List (Entry S) → Response S
  published : Publication S → Bool → Response S
  refused : String → Response S
  raised : String → Response S

-- `PROTOCOL_VERSION`
abbrev pub protocol_version : ℤ
protocol_version = pos 1

-- What the world answers during a request.
pub record RequestAnswers (S : ServicePayload) : Type 0 where
  pub polled : PollAnswers S
  pub started : StartAnswers
  pub written : Option String

abbrev pub is_version : Option ℤ → Bool
is_version none = false
is_version (some v) = eq_ℤ v protocol_version

-- `phase in {STARTING, RUNNING}`
abbrev pub is_joinable : SessionPhase → Bool
is_joinable starting = true
is_joinable running = true
is_joinable _ = false

abbrev pub is_join : Operation → Bool
is_join join = true
is_join _ = false

abbrev pub is_ensure : Operation → Bool
is_ensure ensure = true
is_ensure _ = false

abbrev pub option_list : Option String → List String
option_list none = []
option_list (some p) = p ∷ []

-- `config.stats_csv is None and config.beacons_jsonl is None`, and `config.export_directory is None`;
-- an active session has a configuration.
abbrev pub has_formats : Option LiveSessionConfig → Bool
has_formats none = false
has_formats (some c) = is_some c.stats_csv || is_some c.beacons_jsonl

abbrev pub has_export : Option LiveSessionConfig → Bool
has_export none = false
has_export (some c) = is_some c.export_directory

abbrev pub log_paths : Option LiveSessionConfig → List String
log_paths none = []
log_paths (some c) = option_list c.stats_csv ++ option_list c.beacons_jsonl

abbrev pub matches_source : LiveSessionConfig → Option LiveSessionConfig → Bool
matches_source c none = false
matches_source c (some now) = same_source c now

abbrev pub with_local_cu : LiveSessionConfig → LiveSessionConfig
with_local_cu c = record c { local_cu = c.local_cu || c.survey_debug }

abbrev pub is_export : Operation → Bool
is_export set_export = true
is_export _ = false

module _ {S : ServicePayload} where
  -- The paths that are not offered, and the entries that are.
  unfoldable pub active_paths : ServiceBroker S → List String
  active_paths b =
      (if b.publication.logging.active then b.publication.logging.paths else [])
      ++ (if is_starting b.publication.phase then log_paths b.publication.config else [])

  unfoldable pub closed_files : ServiceBroker S → List (Entry S)
  unfolding active_paths
  closed_files b = filter (λ e. not (has_text (active_paths b) (S.path_of e.log))) b.catalog

  abbrev pub reply : ServiceBroker S → Bool → ServiceBroker S × Response S
  reply b attached = (b, published b.publication attached)

  -- `compatible`
  unfoldable pub is_compatible : ServiceBroker S → Operation → LiveSessionConfig → Bool
  is_compatible b op c =
      (is_ensure op || is_join op)
      && is_joinable b.publication.phase
      && (is_join op || matches_source c b.publication.config)

  -- What is answered where a call raised something or did not.
  abbrev pub reply_unless : ServiceBroker S × Option String → ServiceBroker S × Response S
  reply_unless (b, none) = reply b false
  reply_unless (b, some m) = (b, raised m)

  -- What follows the validation: a session is joined, refused or started.
  unfoldable pub dispatch_valid :
      ServiceBroker S → Operation → LiveSessionConfig → StartAnswers → ServiceBroker S × Response S
  unfolding is_compatible start
  dispatch_valid b op c a =
      if b.process || is_active b.publication.phase
      then (if is_compatible b op c
          then reply b true
          else (b, refused "A Utilization session owns the radio; stop it before changing source"))
      else reply_unless (start b c a)

  -- The branch of `start`, `ensure` and `join`.
  unfoldable pub dispatch_start :
      (String → Option ℤ)
      → ServiceBroker S
      → Operation
      → Result LiveSessionConfig
      → StartAnswers
      → ServiceBroker S × Response S
  unfolding dispatch_valid
  dispatch_start int_of b op (value_error m) a = (b, refused m)
  dispatch_start int_of b op (ok given) a = elim (validate_config int_of (with_local_cu given)) [
    | value_error m ↦ (b, refused m)
    | ok checked ↦ dispatch_valid b op (with_local_cu given) a
  ]

  -- `stop` of the session that is current and active.
  unfoldable pub request_stop : ServiceBroker S → ServiceBroker S
  unfolding update
  request_stop b =
      if is_stopping b.publication.phase
      then b
      else update (do_effect interrupted b) (record b.publication { phase = stopping })

  unfoldable pub dispatch_export :
      ServiceBroker S → Bool → Option String → ServiceBroker S × Response S
  unfolding write_logging
  dispatch_export b enabled w =
      if enabled && not (has_export b.publication.config)
      then (b, refused "This session has no beacon export source configured; start a new session")
      else reply_unless
          (write_logging (record b { export_requested = enabled }) b.logging_requested w)

  unfoldable pub dispatch_logging :
      ServiceBroker S → Bool → Option String → ServiceBroker S × Response S
  unfolding write_logging
  dispatch_logging b enabled w =
      if enabled && not (has_formats b.publication.config)
      then (b, refused "This session has no logging formats configured")
      else reply_unless (write_logging b enabled w)

  -- What follows the checks of the session.
  unfoldable pub dispatch_current :
      ServiceBroker S → Operation → Option Bool → Option String → ServiceBroker S × Response S
  unfolding request_stop dispatch_export dispatch_logging
  dispatch_current b stop enabled w = reply (request_stop b) false
  dispatch_current b op none w = (b, refused "Logging enabled must be boolean")
  dispatch_current b op (some enabled) w =
      if is_stopping b.publication.phase
      then (b, refused "Session is stopping")
      else if is_export op
      then dispatch_export b enabled w
      else dispatch_logging b enabled w

  -- The requests about the current session: `stop`, `logging` and `export`.
  unfoldable pub dispatch_control :
      ServiceBroker S → Operation → Request → Option String → ServiceBroker S × Response S
  unfolding dispatch_current
  dispatch_control b op r w =
      if not (same_session r.session_id b.publication.session_id)
      then (b, refused "Stale Utilization session ID")
      else if not b.process || not (is_active b.publication.phase)
      then (b, refused "No active Utilization session")
      else dispatch_current b op r.enabled w

  -- What follows the version and the poll.
  unfoldable pub dispatch_polled :
      (String → Option ℤ)
      → ServiceBroker S
      → Request
      → StartAnswers
      → Option String
      → ServiceBroker S × Response S
  unfolding closed_files dispatch_start dispatch_control
  dispatch_polled int_of b r a w = branch r.op
    where
      branch : Operation → ServiceBroker S × Response S
      branch list_files = (b, files (closed_files b))
      branch read = reply b false
      branch start_session = dispatch_start int_of b start_session r.config a
      branch ensure = dispatch_start int_of b ensure r.config a
      branch join = dispatch_start int_of b join r.config a
      branch stop = dispatch_control b stop r w
      branch set_logging = dispatch_control b set_logging r w
      branch set_export = dispatch_control b set_export r w
      branch other_op = (b, refused "Unknown Utilization service operation")

  unfoldable pub dispatch :
      (String → Option ℤ)
      → ServiceBroker S
      → Request
      → RequestAnswers S
      → ServiceBroker S × Response S
  unfolding poll_owner dispatch_polled
  dispatch int_of b r a =
      if not (is_version r.version)
      then (b, refused "Unsupported Utilization IPC protocol version")
      else let (polled, raise) = poll_owner b a.polled in
        elim raise [
          | some m ↦ (polled, raised m)
          | none ↦ dispatch_polled int_of polled r a.started a.written
        ]

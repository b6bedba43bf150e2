-- ===== src/Service/Start.antt =====
-- `_start`: the start of a capture owner, and what its handler leaves.
use Prim.Native.String.{◌++◌ as str_append}
use wlanpi_utilization.Prelude.{
  ◌+◌, Bool, true, false, not, ◌&&◌, Option, none, some, String, if◌then◌else◌,
}
use wlanpi_utilization.Runtime.{starting, failed, new_publication, raised}
use wlanpi_utilization.Service.Config.{LiveSessionConfig}
use wlanpi_utilization.Service.Broker.{
  ServicePayload, payload, ServiceBroker, control_removed, interrupted, do_effect, update,
  write_logging,
}

-- The answers while a session is started: its new identifier, and the text of what each call raises,
-- if it does; for the handler, what closing the parent's end raises, whether the process that is
-- interrupted ends in time, and what removing the control file raises; and what closing the child's
-- end raises.
pub record StartAnswers : Type 0 where
  pub new_id : String
  pub socketpair : Option String
  pub written : Option String
  pub popen : Option String
  pub sent : Option String
  pub parent_closed : Option String
  pub ended_in_time : Bool
  pub removed : Option String
  pub child_closed : Option String

-- `bool` of an optional Boolean.
abbrev pub truth : Option Bool → Bool
truth none = false
truth (some b) = b

module _ {S : ServicePayload} where
  -- `self.directory / f"{session_id}.logging.json"`
  abbrev pub control_file : ServiceBroker S → String → String
  control_file b id = str_append b.directory (str_append "/" (str_append id ".logging.json"))

  -- The end of the handler of `_start`, where removing the control file raises or does not.
  unfoldable pub clean_up :
      ServiceBroker S → Option String → String → ServiceBroker S × Option String
  unfolding update
  clean_up b (some m') m = (b, some m')
  clean_up b none m =
      let gone = do_effect control_removed b in
      (update gone (record gone.publication { phase = failed; error = some (raised m) }), some m)

  -- The handler of `_start`: what it raises again, or what one of its own calls raises, as that the
  -- wait for the process timed out, which leaves the rest undone.
  unfoldable pub abandon : ServiceBroker S → StartAnswers → String → ServiceBroker S × Option String
  unfolding clean_up
  abandon b a m = elim a.parent_closed [
    | some m' ↦ (b, some m')
    | none ↦
        let ended = if b.process then do_effect interrupted b else b in
        if b.process && not a.ended_in_time
        then (ended, some "timed out")
        else clean_up (record ended { process = false; owner = false }) a.removed m
  ]

  abbrev pub launched : ServiceBroker S → ServiceBroker S
  launched b = record b { process = true; owner = true; at_eof = false }

  -- The `try` of `_start`, after the control file.
  unfoldable pub launch : ServiceBroker S → StartAnswers → ServiceBroker S × Option String
  unfolding abandon
  launch b a = elim a.popen [
    | some m ↦ abandon b a m
    | none ↦ elim a.sent [ some m ↦ abandon (launched b) a m | none ↦ (launched b, none) ]
  ]

  -- The `finally` of `_start`.
  abbrev pub close_child :
      Option String → ServiceBroker S × Option String → ServiceBroker S × Option String
  close_child none x = x
  close_child (some m) (b, raise) = (b, some m)

  -- `_start`: what it raises, if it does.
  unfoldable pub start :
      ServiceBroker S → LiveSessionConfig → StartAnswers → ServiceBroker S × Option String
  unfolding write_logging abandon launch
  start b given a =
      let path = control_file b a.new_id in
      let config = record given { logging_control_path = some path; logging_status_path = none } in
      let prepared = record b {
        control_path = some path;
        export_requested = config.initial_export_enabled;
      } in
      elim a.socketpair [
        | some m ↦ (prepared, some m)
        | none ↦
            let published = record prepared {
              publication =
                  new_publication (payload S) (some a.new_id) (b.publication.revision + 1) starting
                    (some config);
            } in
            let (written, raise) =
              write_logging published (truth config.initial_logging_enabled) a.written in
            close_child a.child_closed
              (elim raise [ some m ↦ abandon written a m | none ↦ launch written a ])
      ]

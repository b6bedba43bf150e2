-- ===== src/Lib.antt =====
-- WLAN Pi Utilization: a verification library.
--
-- The program listens to one Wi-Fi channel and shows how busy it is. A capture is planned for the
-- channel, its beacons are decoded into channel definitions and rolling states of BSSIDs, survey
-- counters give the local utilization, and a runtime publishes immutable snapshots of a session to
-- displays. This library models the decisions of the package beacon_live, file by file:
--
-- - Channel.Frequency, Channel.Definition and Channel.Operation: beacon_live/channel.py, the channel
--   numbers, `ChannelDefinition` (its constructor call is `post_init`, which may raise), and
--   `definition_from_operation_fields`, which reads the HT, VHT, HE and EHT operation fields of a
--   beacon.
-- - Channel.Hysteresis: `RetuneHysteresis`. Channel.Choice: `choose_capture_definition` with
--   `RadioCapabilities.supports`.
-- - Capture.Plan, Capture.Bands, Capture.Coverage and Capture.Startup: beacon_live/live.py, the
--   definition that a capture is tuned to, the numbers of a band, the record of the BSSIDs that the
--   fixed capture covers, and the exclusion of the first, partial second.
-- - Runtime and Runtime.Session: beacon_live/runtime.py, `ManagedRuntime`. Every method runs under
--   its lock, so a method is one step on the state, and threads are lists of steps in any order.
-- - Survey: beacon_live/survey.py, pairs of counters and the utilization between them.
-- - Analyzer.Selection: beacon_live/analyzer.py, the BSSIDs that the screens feature.
--   Analyzer.Projection: the counts of a second's frames, once as a live stream is accumulated (Live)
--   and once in a pass over a tuple (Batch), with the scope of the targeted primary from
--   Analyzer.Scope; it counts by the retry exclusion of Frames and the host details of Hosts.
-- - Frames: beacon_live/models.py, the frame records and the shared retry exclusion.
-- - Hosts: beacon_live/host_tracking.py. Radios: beacon_live/radio_grouping.py. Screens:
--   beacon_live/screen_manager.py.
-- - Ipc: beacon_live/ipc.py. Ipc.Wire: `to_wire` and `from_wire` over the classes of values and the
--   declared types that they know. Ipc.Channel: `encode`, `decode` and `FramedSocket`, whose reads and
--   writes get the socket's answers as arguments.
-- - Pcapng: beacon_live/pcapng.py, the iteration over the blocks of a capture file.
-- - Service: beacon_live/service.py. Service.Config: `LiveSessionConfig`, `ExportLimits` and
--   `validate_config`, which uses Capture.Plan and Capture.Bands. Service.Broker (the state and
--   `poll_owner`), Service.Start (`_start`), Service.Dispatch and Service.Shutdown: `ServiceBroker`,
--   which publishes the publications of Runtime. A call of the system gets what it answers, or what
--   it raises, as an argument.
--
-- Python's integers are the integers of Prelude over native numbers, its exceptions are
-- `value_error` of `Result`, sets of texts are ascending lists, and dictionaries are association
-- lists in their order. A time is an integer of some unit; a percentage is the fraction that is
-- multiplied by 100. All loops run over finite lists and are structural recursion, but for two
-- loops over bytes, that of frames in a buffer and that of blocks in a file: their fuel is the number
-- of bytes, and each round takes more than four of them or is the last. The messages of errors leave out the values that they quote.
--
-- The lists' extrema are `first_best` of Prelude, which returns the first of equals, as `max` and
-- `min` do. In Radios three views of texts are an argument, since they rest on
-- Unicode tables, and in Frames and Analyzer.Projection the
-- operations of Python's texts are.
--
-- `json`, the operating system's calls and the digest of the catalog's keys are arguments; what is
-- relied on of `json` is that it reads back the plain data that it wrote, which is all that `to_wire`
-- gives, and refuses the empty text. A signal to the capture owner raises nothing, since the owner is
-- a child of the service that is not reaped yet.
--
-- Not modelled: the work of processes, sockets, files and displays themselves, the parsers of tools'
-- texts, the writers of logs and captures, and the rolling window of the analyzer.
pub mod Prelude
pub mod Channel
pub mod Capture
pub mod Runtime
pub mod Survey
pub mod Analyzer
pub mod Screens
pub mod Hosts
pub mod Radios
pub mod Frames
pub mod Tests
pub mod Ipc
pub mod Service
pub mod Pcapng

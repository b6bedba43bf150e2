-- ===== src/Runtime.antt =====
-- `ManagedRuntime` of beacon_live/runtime.py. Every method holds the condition's lock, so a call is
-- one step. The callback `on_publication` only reads what is published and is left out.
pub mod Session
pub mod Lifecycle
pub mod Retention
use wlanpi_utilization.Prelude.{
  ℕ, ◌-◌, ℤ, Bool, true, false, Option, none, List, [], drop, length, ◌==◌, String, if◌then◌else◌,
}

pub data SessionPhase : Type 0 where
  idle starting running stopping stopped failed : SessionPhase

-- `phase in ACTIVE_PHASES`
abbrev pub is_active : SessionPhase → Bool
is_active starting = true
is_active running = true
is_active stopping = true
is_active idle = false
is_active stopped = false
is_active failed = false

abbrev pub is_starting : SessionPhase → Bool
is_starting starting = true
is_starting _ = false

abbrev pub is_stopping : SessionPhase → Bool
is_stopping stopping = true
is_stopping _ = false

pub record LoggingStatus : Type 0 where
  pub active : Bool
  pub paths : List String
  pub message : Option String

-- The texts of `error`: `exited n` is "Live capture exited with status n", `raised` the exception's, and two
-- are the service broker's: "Owner publication failed: ..." with the exception's text, and "Capture
-- owner exited before final publication (n)".
pub data ErrorText : Type 0 where
  exited : ℤ → ErrorText
  raised : String → ErrorText
  publication_failed : String → ErrorText
  owner_exited : ℤ → ErrorText

-- What the runtime hands on unread, as any types: the configuration, the snapshot (of which it reads
-- `window_seconds`), a completed row (of which it reads `second`), the fields of
-- `BeaconExportStatus` but `active`, and the fields `closed_logs`, `capture_health`,
-- `capture_definition`, `capture_definition_verified`, `capture_target` and `closed_exports`. The
-- values are those that a new publication starts from.
pub record Payload : Type 1 where
  pub Config : Type 0
  pub Snapshot : Type 0
  pub Row : Type 0
  pub Export : Type 0
  pub Others : Type 0
  pub window_seconds : Snapshot → ℕ
  pub second : Row → ℕ
  pub empty_snapshot : Snapshot
  pub default_export : Export
  pub default_others : Others

pub record RuntimePublication (T : Payload) : Type 0 where
  pub session_id : Option String
  pub revision : ℕ
  pub phase : SessionPhase
  pub config : Option T.Config
  pub snapshot : T.Snapshot
  pub completed_stats : List T.Row
  pub collecting : Bool
  pub capture_width : Option String
  pub logging : LoggingStatus
  pub notice : Option String
  pub exit_code : Option ℤ
  pub error : Option ErrorText
  pub export_active : Bool
  pub export : T.Export
  pub others : T.Others

pub record ManagedRuntime (T : Payload) : Type 0 where
  pub publication : RuntimePublication T
  pub stop_requested : Bool

-- The last `n` of a list: the slice `[-n:]`, which is the whole list at 0.
unfoldable pub last_rows {ℓ} : {A : Type ℓ} → ℕ → List A → List A
last_rows n xs = if n == 0 then xs else drop (length xs - n) xs

-- The keyword arguments of the constructor call for a new session, and the dataclass defaults.
abbrev pub new_publication :
    (T : Payload) → Option String → ℕ → SessionPhase → Option T.Config → RuntimePublication T
new_publication T id revision phase config = record {
  session_id = id;
  revision = revision;
  phase = phase;
  config = config;
  snapshot = T.empty_snapshot;
  completed_stats = [];
  collecting = true;
  capture_width = none;
  logging = record { active = false; paths = []; message = none };
  notice = none;
  exit_code = none;
  error = none;
  export_active = false;
  export = T.default_export;
  others = T.default_others;
}

-- `__init__`
abbrev pub init : (T : Payload) → ManagedRuntime T
init T = record { publication = new_publication T none 0 idle none; stop_requested = false }

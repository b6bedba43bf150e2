-- ===== src/Service/Broker.antt =====
-- `ServiceBroker` and the poll of its owner. A call of the operating system or of the
-- owner's channel gets its answer, or what it raises, as an argument; a signal to the owner, a child
-- that is not reaped yet, raises nothing. Signals and the writing and removal of the control file are
-- kept in a list, the latest first.
use wlanpi_utilization.Prelude.{
  ℕ, ◌+◌, ◌-◌, ℤ, Bool, true, false, not, ◌&&◌, ◌||◌, Option, none, some, List, [], ◌∷◌, length,
  drop, String, str_eq, if◌then◌else◌,
}
use wlanpi_utilization.Runtime.{
  SessionPhase, idle, stopping, failed, is_active, is_stopping, Payload, RuntimePublication,
  new_publication, publication_failed, owner_exited,
}
use wlanpi_utilization.Service.Config.{LiveSessionConfig, same_option}

-- What is published and handed on unread, any types; `closed` are the closed logs and the closed
-- exports, `path_of` the path of one, and `key_of` its key for a session, a digest.
pub record ServicePayload : Type 1 where
  pub Snapshot : Type 0
  pub Row : Type 0
  pub Export : Type 0
  pub Others : Type 0
  pub Closed : Type 0
  pub window_seconds : Snapshot → ℕ
  pub second : Row → ℕ
  pub empty_snapshot : Snapshot
  pub default_export : Export
  pub default_others : Others
  pub closed : Others → List Closed
  pub path_of : Closed → String
  pub key_of : Option String → Closed → String

abbrev pub payload : ServicePayload → Payload
payload S = record {
  Config = LiveSessionConfig;
  Snapshot = S.Snapshot;
  Row = S.Row;
  Export = S.Export;
  Others = S.Others;
  window_seconds = S.window_seconds;
  second = S.second;
  empty_snapshot = S.empty_snapshot;
  default_export = S.default_export;
  default_others = S.default_others;
}

abbrev pub Publication : ServicePayload → Type 0
Publication S = RuntimePublication (payload S)

pub record Entry (S : ServicePayload) : Type 0 where
  pub id : String
  pub log : S.Closed
  pub entry_session : Option String

pub data Effect : Type 0 where
  interrupted kill_sent control_removed : Effect
  control_written : Bool → Bool → Effect

-- `process` and `owner` are whether they are not `None`, and `at_eof` is `owner.eof`.
pub record ServiceBroker (S : ServicePayload) : Type 0 where
  pub directory : String
  pub publication : Publication S
  pub process : Bool
  pub owner : Bool
  pub at_eof : Bool
  pub control_path : Option String
  pub catalog : List (Entry S)
  pub logging_requested : Bool
  pub export_requested : Bool
  pub effects : List Effect

-- `__init__`
abbrev pub created : (S : ServicePayload) → String → ServiceBroker S
created S directory = record {
  directory = directory;
  publication = new_publication (payload S) none 0 idle none;
  process = false;
  owner = false;
  at_eof = false;
  control_path = none;
  catalog = [];
  logging_requested = false;
  export_requested = false;
  effects = [];
}

-- The answers while the owner is polled: the publications that are decoded before a call raises, if
-- one does; the text of an error that the handler names, or of another one, as `OverflowError`, which
-- escapes it; whether the process lives at that point; its exit code after that; whether the channel
-- reads its end; and what closing it and removing the control file raise, if they do.
pub record PollAnswers (S : ServicePayload) : Type 0 where
  pub publications : List (Publication S)
  pub failure : Option String
  pub escaped : Option String
  pub alive : Bool
  pub code : Option ℤ
  pub eof : Bool
  pub closed : Option String
  pub removed : Option String

abbrev pub same_session : Option String → Option String → Bool
same_session = same_option str_eq

-- The phase that an owner's publication is taken with.
unfoldable pub taken_phase : SessionPhase → SessionPhase → SessionPhase
taken_phase now reported = if is_stopping now && is_active reported then stopping else reported

-- A channel that has read its end gives no more messages.
abbrev pub incoming {ℓ} : {A : Type ℓ} → Bool → List A → List A
incoming true ps = []
incoming false ps = ps

module _ {S : ServicePayload} where
  abbrev pub do_effect : Effect → ServiceBroker S → ServiceBroker S
  do_effect e b = record b { effects = e ∷ b.effects }

  -- `_update`, on the publication with its changes.
  unfoldable pub update : ServiceBroker S → Publication S → ServiceBroker S
  update b p = record b { publication = record p { revision = b.publication.revision + 1 } }

  -- `_write_logging`: what it raises, if it does.
  unfoldable pub write_logging :
      ServiceBroker S → Bool → Option String → ServiceBroker S × Option String
  write_logging b enabled none = (
    do_effect (control_written enabled b.export_requested)
        (record b { logging_requested = enabled }),
    none,
  )
  write_logging b enabled (some m) = (record b { logging_requested = enabled }, some m)

  -- `self.catalog[key] = ...`
  unfoldable pub put_entry : List (Entry S) → Entry S → List (Entry S)
  put_entry [] e = e ∷ []
  put_entry (x ∷ xs) e = let rest = put_entry xs e in if str_eq x.id e.id then e ∷ xs else x ∷ rest

  unfoldable pub put_logs : List (Entry S) → Option String → List S.Closed → List (Entry S)
  unfolding put_entry
  put_logs catalog session [] = catalog
  put_logs catalog session (log ∷ logs) =
      put_logs
        (put_entry catalog
          (record { id = S.key_of session log; log = log; entry_session = session }))
        session logs

  -- `while len(self.catalog) > 256: del self.catalog[next(iter(self.catalog))]`
  unfoldable pub trim : List (Entry S) → List (Entry S)
  trim catalog = drop (length catalog - 256) catalog

  -- The body of the loop over the owner's publications.
  unfoldable pub take_publication : ServiceBroker S → Publication S → ServiceBroker S
  unfolding put_logs trim taken_phase
  take_publication b p =
      if not (same_session p.session_id b.publication.session_id) then b else record b {
        publication = record p {
          phase = taken_phase b.publication.phase p.phase;
          revision = b.publication.revision + 1;
        };
        catalog = trim (put_logs b.catalog p.session_id (S.closed p.others));
      }

  unfoldable pub take_publications : ServiceBroker S → List (Publication S) → ServiceBroker S
  unfolding take_publication
  take_publications b [] = b
  take_publications b (p ∷ ps) = take_publications (take_publication b p) ps

  -- The handler of what a call raises.
  unfoldable pub note_failure : ServiceBroker S → Option String → Bool → ServiceBroker S
  unfolding update
  note_failure b none alive = b
  note_failure b (some m) alive =
      let noted = update b (record b.publication { error = some (publication_failed m) }) in
      if alive then do_effect interrupted noted else noted

  -- The end of an owner that has not said how it ended.
  unfoldable pub note_exit : ServiceBroker S → ℤ → ServiceBroker S
  unfolding update
  note_exit b code =
      if is_active b.publication.phase
      then update b (record b.publication {
        phase = failed;
        exit_code = some code;
        error = some (owner_exited code);
        logging = record (b.publication.logging) { active = false };
        export_active = false;
      })
      else b

  -- The end of the channel and of the control file, and what they raise, if they do.
  unfoldable pub released :
      ServiceBroker S → Option String → Option String → ServiceBroker S × Option String
  released b (some m) removed = (b, some m)
  released b none (some m) = (record b { process = false; owner = false }, some m)
  released b none none = (
    do_effect control_removed (record b { process = false; owner = false; control_path = none }),
    none,
  )

  unfoldable pub release :
      ServiceBroker S → Option ℤ → Option String → Option String → ServiceBroker S × Option String
  unfolding note_exit released
  release b none closed removed = (b, none)
  release b (some code) closed removed =
      if b.at_eof then released (note_exit b code) closed removed else (b, none)

  unfoldable pub read_owner : ServiceBroker S → PollAnswers S → ServiceBroker S
  unfolding take_publications
  read_owner b a = record (take_publications b (incoming b.at_eof a.publications)) {
    at_eof = b.at_eof || a.eof;
  }

  -- What follows the messages: the handler, and the end of the owner.
  unfoldable pub settle :
      ServiceBroker S → PollAnswers S → Option String → ServiceBroker S × Option String
  unfolding note_failure release
  settle b a (some m) = (b, some m)
  settle b a none = release (note_failure b a.failure a.alive) a.code a.closed a.removed

  -- The broker, and what the poll raises, if it does.
  unfoldable pub poll_owner : ServiceBroker S → PollAnswers S → ServiceBroker S × Option String
  unfolding read_owner settle
  poll_owner b a = if not b.owner then (b, none) else settle (read_owner b a) a a.escaped

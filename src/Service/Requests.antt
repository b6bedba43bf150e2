-- ===== src/Service/Requests.antt =====
-- Requests keep what holds of the broker.
use wlanpi_utilization.Prelude.{
  ℤ, ◌≡◌, Bool, true, false, not, ◌&&◌, ◌||◌, Option, none, some, String, Result, ok, value_error,
  if-elim, arith, if◌then◌else◌,
}
use wlanpi_utilization.Runtime.{is_active, is_stopping}
use wlanpi_utilization.Service.Config.{LiveSessionConfig, validate_config}
use wlanpi_utilization.Service.Broker.{
  ServicePayload, Publication, ServiceBroker, same_session, update, write_logging, poll_owner,
}
use wlanpi_utilization.Service.Start.{StartAnswers, start}
use wlanpi_utilization.Service.Dispatch.{
  Operation, list_files, read, start_session, ensure, join, stop, set_logging, set_export, other_op,
  Request, Response, refused, raised, has_export, has_formats, RequestAnswers, is_version,
  is_compatible, reply_unless, with_local_cu, dispatch_valid, dispatch_start, request_stop,
  dispatch_export, dispatch_logging, dispatch_current, dispatch_control, dispatch_polled, dispatch,
}
use wlanpi_utilization.Service.Invariant.{IsSound, poll_owner-IsSound}
use wlanpi_utilization.Service.Starting.{cleans_up, start-IsSound}

abbrev Answer : ServicePayload → Type 0
Answer S = ServiceBroker S × Response S

module _ {S : ServicePayload} where
  pub update-IsSound :
      {clean : Bool} (b : ServiceBroker S) (p : Publication S)
      → (is_active p.phase ≡ true → b.process ≡ true)
      → IsSound clean b
      → IsSound clean (update b p)
  unfolding update
  update-IsSound b p owned s = record {
    together = s.together;
    owned = λ k. owned;
    placed = s.placed;
    bounded = s.bounded;
  }

  write_logging-IsSound :
      {clean : Bool} (b : ServiceBroker S) (enabled : Bool) (w : Option String)
      → IsSound clean b
      → IsSound clean (write_logging b enabled w).0
  unfolding write_logging
  write_logging-IsSound b enabled none s = record {
    together = s.together;
    owned = s.owned;
    placed = s.placed;
    bounded = s.bounded;
  }
  write_logging-IsSound b enabled (some m) s = record {
    together = s.together;
    owned = s.owned;
    placed = s.placed;
    bounded = s.bounded;
  }

  if-answer :
      {clean : Bool} (c : Bool) (x y : Answer S)
      → (c ≡ true → IsSound clean x.0)
      → (c ≡ false → IsSound clean y.0)
      → IsSound clean (if c then x else y).0
  if-answer {clean} c x y p q = if-elim {A = Answer S} (λ z. IsSound clean z.0) c p q

  reply_unless-IsSound :
      {clean : Bool} (x : ServiceBroker S × Option String)
      → IsSound clean x.0
      → IsSound clean (reply_unless x).0
  reply_unless-IsSound (b, none) s = s
  reply_unless-IsSound (b, some m) s = s

  dispatch_start-IsSound :
      {clean : Bool} (int_of : String → Option ℤ) (b : ServiceBroker S) (op : Operation)
      (given : Result LiveSessionConfig) (a : StartAnswers)
      → (clean ≡ true → cleans_up a ≡ true)
      → IsSound clean b
      → IsSound clean (dispatch_start int_of b op given a).0
  unfolding dispatch_start dispatch_valid
  dispatch_start-IsSound int_of b op (value_error m) a tidy s = s
  dispatch_start-IsSound {clean} int_of b op (ok given) a tidy s =
      checked (validate_config int_of (with_local_cu given))
    where
      c : LiveSessionConfig
      c = with_local_cu given

      checked :
          (v : Result (Unit {0}))
          → IsSound clean
              (elim v as (λ x. Answer S) [
                | value_error m ↦ (b, refused m)
                | ok u ↦ dispatch_valid b op c a
              ]).0
      checked (value_error m) = s
      checked (ok u) =
          if-answer (b.process || is_active b.publication.phase) _ _
            (λ h. if-answer (is_compatible b op c) _ _ (λ h'. s) (λ h'. s))
            (λ h. reply_unless-IsSound (start b c a) (start-IsSound b c a tidy s))

  pub request_stop-IsSound :
      {clean : Bool} (b : ServiceBroker S)
      → b.process ≡ true
      → IsSound clean b
      → IsSound clean (request_stop b)
  unfolding request_stop update
  request_stop-IsSound {clean} b live s =
      if-elim (IsSound clean) (is_stopping b.publication.phase) (λ h. s)
        (λ h. record {
          together = s.together;
          owned = λ k h'. live;
          placed = s.placed;
          bounded = s.bounded;
        })

  dispatch_export-IsSound :
      {clean : Bool} (b : ServiceBroker S) (enabled : Bool) (w : Option String)
      → IsSound clean b
      → IsSound clean (dispatch_export b enabled w).0
  unfolding dispatch_export
  dispatch_export-IsSound {clean} b enabled w s =
      let ready : IsSound clean (record b { export_requested = enabled }) = record {
        together = s.together;
        owned = s.owned;
        placed = s.placed;
        bounded = s.bounded;
      } in
      if-answer (enabled && not (has_export b.publication.config)) _ _ (λ h. s)
        (λ h. reply_unless-IsSound _ (write_logging-IsSound _ b.logging_requested w ready))

  dispatch_logging-IsSound :
      {clean : Bool} (b : ServiceBroker S) (enabled : Bool) (w : Option String)
      → IsSound clean b
      → IsSound clean (dispatch_logging b enabled w).0
  unfolding dispatch_logging
  dispatch_logging-IsSound b enabled w s =
      if-answer (enabled && not (has_formats b.publication.config)) _ _ (λ h. s)
        (λ h. reply_unless-IsSound _ (write_logging-IsSound b enabled w s))

  dispatch_current-IsSound :
      {clean : Bool} (b : ServiceBroker S) (op : Operation) (enabled : Option Bool)
      (w : Option String)
      → b.process ≡ true
      → IsSound clean b
      → IsSound clean (dispatch_current b op enabled w).0
  unfolding dispatch_current
  dispatch_current-IsSound b stop enabled w live s = request_stop-IsSound b live s
  dispatch_current-IsSound b set_export none w live s = s
  dispatch_current-IsSound b set_export (some enabled) w live s =
      if-answer (is_stopping b.publication.phase) _ _ (λ h. s)
        (λ h. dispatch_export-IsSound b enabled w s)
  dispatch_current-IsSound b _ none w live s = s
  dispatch_current-IsSound b _ (some enabled) w live s =
      if-answer (is_stopping b.publication.phase) _ _ (λ h. s)
        (λ h. dispatch_logging-IsSound b enabled w s)

  dispatch_control-IsSound :
      {clean : Bool} (b : ServiceBroker S) (op : Operation) (r : Request) (w : Option String)
      → IsSound clean b
      → IsSound clean (dispatch_control b op r w).0
  unfolding dispatch_control
  dispatch_control-IsSound b op r w s =
      if-answer (not (same_session r.session_id b.publication.session_id)) _ _ (λ h. s)
        (λ h.
          if-answer (not b.process || not (is_active b.publication.phase)) _ _ (λ h'. s)
            (λ h'. dispatch_current-IsSound b op r.enabled w (ground arith) s))

  dispatch_polled-IsSound :
      {clean : Bool} (int_of : String → Option ℤ) (b : ServiceBroker S) (r : Request)
      (op : Operation) (a : StartAnswers) (w : Option String)
      → (clean ≡ true → cleans_up a ≡ true)
      → IsSound clean b
      → IsSound clean (dispatch_polled int_of b (record r { op = op }) a w).0
  unfolding dispatch_polled
  dispatch_polled-IsSound int_of b r list_files a w tidy s = s
  dispatch_polled-IsSound int_of b r read a w tidy s = s
  dispatch_polled-IsSound int_of b r start_session a w tidy s =
      dispatch_start-IsSound int_of b start_session r.config a tidy s
  dispatch_polled-IsSound int_of b r ensure a w tidy s =
      dispatch_start-IsSound int_of b ensure r.config a tidy s
  dispatch_polled-IsSound int_of b r join a w tidy s =
      dispatch_start-IsSound int_of b join r.config a tidy s
  dispatch_polled-IsSound int_of b r stop a w tidy s =
      dispatch_control-IsSound b stop (record r { op = stop }) w s
  dispatch_polled-IsSound int_of b r set_logging a w tidy s =
      dispatch_control-IsSound b set_logging (record r { op = set_logging }) w s
  dispatch_polled-IsSound int_of b r set_export a w tidy s =
      dispatch_control-IsSound b set_export (record r { op = set_export }) w s
  dispatch_polled-IsSound int_of b r other_op a w tidy s = s

  pub dispatch-IsSound :
      {clean : Bool} (int_of : String → Option ℤ) (b : ServiceBroker S) (r : Request)
      (a : RequestAnswers S)
      → (clean ≡ true → cleans_up a.started ≡ true)
      → IsSound clean b
      → IsSound clean (dispatch int_of b r a).0
  unfolding dispatch
  dispatch-IsSound {clean} int_of b r a tidy s =
      if-answer (not (is_version r.version)) _ _ (λ h. s)
        (λ h. answered (poll_owner b a.polled) (poll_owner-IsSound b a.polled s))
    where
      answered :
          (x : ServiceBroker S × Option String)
          → IsSound clean x.0
          → IsSound clean
              (elim x.1 as (λ x'. Answer S) [
                | some m ↦ (x.0, raised m)
                | none ↦ dispatch_polled int_of x.0 r a.started a.written
              ]).0
      answered (polled, some m) s' = s'
      answered (polled, none) s' =
          dispatch_polled-IsSound int_of polled r r.op a.started a.written tidy s'

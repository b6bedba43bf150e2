-- ===== src/Service/Stopping.antt =====
-- A stop that was accepted, whatever the owner still publishes.
use wlanpi_utilization.Prelude.{
  ℤ, ◌≡◌, refl, Bool, true, false, not, ◌||◌, Option, none, some, List, String, if-elim, arith,
}
use wlanpi_utilization.Runtime.{is_active, is_stopping}
use wlanpi_utilization.Service.Broker.{
  ServicePayload, Publication, ServiceBroker, PollAnswers, same_session, update, poll_owner,
}
use wlanpi_utilization.Service.Dispatch.{
  stop, Request, Response, published, raised, RequestAnswers, is_version, is_joinable, request_stop,
  dispatch_current, dispatch_control, dispatch_polled, dispatch,
}
use wlanpi_utilization.Service.Late.{poll_all, reported, poll_all-IsEnding}
use wlanpi_utilization.Service.Reports.{end_once, is_stopped_later}

module _ {S : ServicePayload} where
  -- What an accepted request leaves.
  abbrev Stopped : ServiceBroker S → ServiceBroker S × Response S → Type 0
  Stopped b x =
      (p : Publication S) (attached : Bool)
      → x.1 ≡ published p attached
      → (is_stopping x.0.publication.phase ≡ true)
        × (x.0.publication.session_id ≡ b.publication.session_id)

  request_stop-Stopped :
      (b : ServiceBroker S)
      → Stopped b (request_stop b, published (request_stop b).publication false)
  unfolding request_stop update
  request_stop-Stopped b p attached e =
      if-elim {A = ServiceBroker S}
        (λ x.
          (is_stopping x.publication.phase ≡ true)
          × (x.publication.session_id ≡ b.publication.session_id))
        (is_stopping b.publication.phase) (λ h. (h, refl)) (λ h. (refl, refl))

  dispatch_control-Stopped :
      (b : ServiceBroker S) (r : Request) (w : Option String)
      → Stopped b (dispatch_control b stop r w)
  unfolding dispatch_control dispatch_current
  dispatch_control-Stopped b r w =
      if-elim (Stopped b) (not (same_session r.session_id b.publication.session_id))
        (λ h. λ p t e. absurd (ground arith))
        (λ h.
          if-elim (Stopped b) (not b.process || not (is_active b.publication.phase))
            (λ h'. λ p t e. absurd (ground arith)) (λ h'. request_stop-Stopped b))

  -- Once a stop is accepted, no publication of the owner that comes late shows the session as starting
  -- or running again, over any number of polls, provided that the owner itself reports nothing active
  -- for the session after it has reported its end.
  pub dispatch-stop :
      (int_of : String → Option ℤ) (b : ServiceBroker S) (r : Request) (a : RequestAnswers S)
      (polls : List (PollAnswers S)) (p : Publication S) (attached : Bool)
      → (dispatch int_of b (record r { op = stop }) a).1 ≡ published p attached
      → end_once (poll_owner b a.polled).0.publication.session_id (reported polls) ≡ true
      → is_joinable
          (poll_all (dispatch int_of b (record r { op = stop }) a).0 polls).publication.phase
        ≡ false
  unfolding dispatch dispatch_polled
  dispatch-stop int_of b r a polls p attached e once =
      if-elim {A = ServiceBroker S × Response S}
        (λ x.
          x.1 ≡ published p attached → is_joinable (poll_all x.0 polls).publication.phase ≡ false)
        (not (is_version r.version)) (λ h. λ e'. absurd (ground arith))
        (λ h. answered (poll_owner b a.polled) once) e
    where
      answered :
          (x : ServiceBroker S × Option String)
          → end_once x.0.publication.session_id (reported polls) ≡ true
          → (elim x.1 as (λ y. ServiceBroker S × Response S) [
            | some m ↦ (x.0, raised m)
            | none ↦ dispatch_polled int_of x.0 (record r { op = stop }) a.started a.written
          ]).1
            ≡ published p attached
          → is_joinable
              (poll_all
                (elim x.1 as (λ y. ServiceBroker S × Response S) [
                  | some m ↦ (x.0, raised m)
                  | none ↦ dispatch_polled int_of x.0 (record r { op = stop }) a.started a.written
                ]).0
                polls).publication.phase
            ≡ false
      answered (b', some m) once' e' = absurd (cc)
      answered (b', none) once' e' =
          let (stops, same) =
            dispatch_control-Stopped b' (record r { op = stop }) a.written p attached e' in
          poll_all-IsEnding _ polls _ (is_stopped_later same stops once')

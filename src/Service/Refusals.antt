-- ===== src/Service/Refusals.antt =====
-- What a refused request leaves behind.
use wlanpi_utilization.Prelude.{
  ℤ, ◌≡◌, refl, inl, inr, Bool, true, false, not, ◌&&◌, ◌||◌, Option, none, some, String, Result,
  ok, value_error, if-elim, Bool-cases, arith, if◌then◌else◌,
}
use wlanpi_utilization.Runtime.{is_active}
use wlanpi_utilization.Service.Config.{LiveSessionConfig, validate_config}
use wlanpi_utilization.Service.Broker.{ServicePayload, ServiceBroker, same_session, poll_owner}
use wlanpi_utilization.Service.Start.{StartAnswers, start}
use wlanpi_utilization.Service.Dispatch.{
  Operation, list_files, read, start_session, ensure, join, stop, set_logging, set_export, other_op,
  Request, Response, refused, raised, RequestAnswers, is_version, is_compatible, reply_unless,
  with_local_cu, dispatch_valid, dispatch_start, dispatch_export, dispatch_logging,
  dispatch_current, dispatch_control, dispatch_polled, dispatch,
}

-- A request about the current session.
abbrev pub is_control : Operation → Bool
is_control stop = true
is_control set_logging = true
is_control set_export = true
is_control _ = false

module _ {S : ServicePayload} where
  -- A refusal leaves the broker as it was.
  abbrev KeepsOnRefusal : ServiceBroker S → ServiceBroker S × Response S → Type 0
  KeepsOnRefusal b answer = (m : String) → answer.1 ≡ refused m → answer.0 ≡ b

  reply_unless-KeepsOnRefusal :
      (b : ServiceBroker S) (x : ServiceBroker S × Option String)
      → KeepsOnRefusal b (reply_unless x)
  reply_unless-KeepsOnRefusal b (b', none) m e = absurd (cc)
  reply_unless-KeepsOnRefusal b (b', some m') m e = absurd (cc)

  valid-KeepsOnRefusal :
      (b : ServiceBroker S) (op : Operation) (c : LiveSessionConfig) (a : StartAnswers)
      → KeepsOnRefusal b (dispatch_valid b op c a)
  unfolding dispatch_valid
  valid-KeepsOnRefusal b op c a =
      if-elim (KeepsOnRefusal b) (b.process || is_active b.publication.phase)
        (λ h.
          if-elim (KeepsOnRefusal b) (is_compatible b op c) (λ h. λ m e. refl) (λ h. λ m e. refl))
        (λ h. reply_unless-KeepsOnRefusal b (start b c a))

  checked-KeepsOnRefusal :
      (b : ServiceBroker S) (v : Result (Unit {0})) (x : ServiceBroker S × Response S)
      → KeepsOnRefusal b x
      → KeepsOnRefusal b (elim v [ value_error m ↦ (b, refused m) | ok checked ↦ x ])
  checked-KeepsOnRefusal b (value_error m) x k = λ m' e. refl
  checked-KeepsOnRefusal b (ok u) x k = k

  start-KeepsOnRefusal :
      (int_of : String → Option ℤ) (b : ServiceBroker S) (op : Operation)
      (given : Result LiveSessionConfig) (a : StartAnswers)
      → KeepsOnRefusal b (dispatch_start int_of b op given a)
  unfolding dispatch_start
  start-KeepsOnRefusal int_of b op (value_error m') a = λ m e. refl
  start-KeepsOnRefusal int_of b op (ok given) a =
      checked-KeepsOnRefusal b (validate_config int_of (with_local_cu given)) _
        (valid-KeepsOnRefusal b op (with_local_cu given) a)

  current-KeepsOnRefusal :
      (b : ServiceBroker S) (op : Operation) (enabled : Option Bool) (w : Option String)
      → KeepsOnRefusal b (dispatch_current b op enabled w)
  unfolding dispatch_current dispatch_export dispatch_logging
  current-KeepsOnRefusal b stop enabled w m e = ground arith
  current-KeepsOnRefusal b set_export enabled w m e = ground arith
  current-KeepsOnRefusal b _ enabled w m e = ground arith

  control-KeepsOnRefusal :
      (b : ServiceBroker S) (op : Operation) (r : Request) (w : Option String)
      → KeepsOnRefusal b (dispatch_control b op r w)
  unfolding dispatch_control
  control-KeepsOnRefusal b op r w =
      if-elim (KeepsOnRefusal b) (not (same_session r.session_id b.publication.session_id))
        (λ h. λ m e. refl)
        (λ h.
          if-elim (KeepsOnRefusal b) (not b.process || not (is_active b.publication.phase))
            (λ h'. λ m e. refl) (λ h'. current-KeepsOnRefusal b op r.enabled w))

  polled-KeepsOnRefusal :
      (int_of : String → Option ℤ) (b : ServiceBroker S) (r : Request) (op : Operation)
      (a : StartAnswers) (w : Option String)
      → KeepsOnRefusal b (dispatch_polled int_of b (record r { op = op }) a w)
  unfolding dispatch_polled
  polled-KeepsOnRefusal int_of b r list_files a w m e = refl
  polled-KeepsOnRefusal int_of b r read a w m e = refl
  polled-KeepsOnRefusal int_of b r start_session a w m e =
      start-KeepsOnRefusal int_of b start_session r.config a m e
  polled-KeepsOnRefusal int_of b r ensure a w m e =
      start-KeepsOnRefusal int_of b ensure r.config a m e
  polled-KeepsOnRefusal int_of b r join a w m e = start-KeepsOnRefusal int_of b join r.config a m e
  polled-KeepsOnRefusal int_of b r stop a w m e =
      control-KeepsOnRefusal b stop (record r { op = stop }) w m e
  polled-KeepsOnRefusal int_of b r set_logging a w m e =
      control-KeepsOnRefusal b set_logging (record r { op = set_logging }) w m e
  polled-KeepsOnRefusal int_of b r set_export a w m e =
      control-KeepsOnRefusal b set_export (record r { op = set_export }) w m e
  polled-KeepsOnRefusal int_of b r other_op a w m e = refl

  -- It names the session that is current and active.
  abbrev pub is_about : ServiceBroker S → Request → Bool
  is_about b r =
      same_session r.session_id b.publication.session_id
      && b.process
      && is_active b.publication.phase

  control-refused :
      (b : ServiceBroker S) (op : Operation) (r : Request) (w : Option String)
      → is_about b r ≡ false
      → (m : String) × (dispatch_control b op r w ≡ (b, refused m))
  unfolding dispatch_control
  control-refused b op r w h =
      elim (Bool-cases (same_session r.session_id b.publication.session_id)) [
        | inr c ↦ ("Stale Utilization session ID", rw c refl)
        | inl c ↦
            let inactive : (not b.process || not (is_active b.publication.phase)) ≡ true =
              ground arith in
            ("No active Utilization session", rw (c, inactive) refl)
      ]

  control_polled-refused :
      (int_of : String → Option ℤ) (b : ServiceBroker S) (r : Request) (op : Operation)
      (a : StartAnswers) (w : Option String)
      → is_control op ≡ true
      → is_about b r ≡ false
      → (m : String) × (dispatch_polled int_of b (record r { op = op }) a w ≡ (b, refused m))
  unfolding dispatch_polled
  control_polled-refused int_of b r stop a w c h =
      control-refused b stop (record r { op = stop }) w h
  control_polled-refused int_of b r set_logging a w c h =
      control-refused b set_logging (record r { op = set_logging }) w h
  control_polled-refused int_of b r set_export a w c h =
      control-refused b set_export (record r { op = set_export }) w h
  control_polled-refused int_of b r _ a w c h = absurd (cc)

  -- A request that is refused changes nothing of the broker: what is left is what polling the owner
  -- gave or, where the protocol's version is another one, the broker as it was. In a request of this
  -- protocol's version whose poll raises nothing, stopping, logging and export are refused unless the
  -- request names the session and, after the poll, that has its process and is active.
  pub dispatch-refused :
      (int_of : String → Option ℤ) (b : ServiceBroker S) (r : Request) (a : RequestAnswers S)
      → ((m : String)
          → (dispatch int_of b r a).1 ≡ refused m
          → (dispatch int_of b r a).0
            ≡ (if is_version r.version then (poll_owner b a.polled).0 else b))
        × (is_version r.version ≡ true
            → (poll_owner b a.polled).1 ≡ none
            → is_control r.op ≡ true
            → is_about (poll_owner b a.polled).0 r ≡ false
            → (m : String) × (dispatch int_of b r a ≡ ((poll_owner b a.polled).0, refused m)))
  unfolding dispatch
  dispatch-refused int_of b r a = elim (Bool-cases (is_version r.version)) [
    | inr v ↦ rw v (λ m e. refl, λ t. absurd (cc))
    | inl v ↦ rw v (
      keeps (poll_owner b a.polled),
      λ t quiet c h.
          rw quiet (
            control_polled-refused int_of (poll_owner b a.polled).0 r r.op a.started a.written c h),
    )
  ]
    where
      keeps :
          (x : ServiceBroker S × Option String)
          → KeepsOnRefusal x.0 (elim x.1 as (λ y. ServiceBroker S × Response S) [
            | some m ↦ (x.0, raised m)
            | none ↦ dispatch_polled int_of x.0 r a.started a.written
          ])
      keeps (b', some m') m e = refl
      keeps (b', none) m e = polled-KeepsOnRefusal int_of b' r r.op a.started a.written m e

-- ===== src/Service/Starting.antt =====
-- The start of a session keeps what holds of the broker.
use wlanpi_utilization.Prelude.{
  ◌+◌, ◌≤◌, ◌≡◌, refl, sym, ◌∙◌, inl, inr, Bool, true, false, not, ◌&&◌, Option, none, some,
  is_some, length, String, Option-cases, if-elim, arith,
}
use wlanpi_utilization.Runtime.{starting, new_publication}
use wlanpi_utilization.Service.Config.{LiveSessionConfig}
use wlanpi_utilization.Service.Broker.{
  ServicePayload, ServiceBroker, update, write_logging, payload,
}
use wlanpi_utilization.Service.Start.{
  StartAnswers, clean_up, abandon, launched, launch, close_child, start, truth, control_file,
}
use wlanpi_utilization.Service.Invariant.{impossible, IsSound}

-- The handler of `_start` closes its channel and removes the control file without raising.
abbrev pub cleans_up : StartAnswers → Bool
cleans_up a = not (is_some a.parent_closed) && not (is_some a.removed)

module _ {S : ServicePayload} where
  -- The parts of the invariant that starting a session keeps at every point.
  record IsPrepared (b : ServiceBroker S) : Type 0 where
    paired : b.owner ≡ b.process
    known : is_some b.control_path ≡ true
    limited : length b.catalog ≤ 256

  clean_up-IsSound :
      {clean : Bool} (b : ServiceBroker S) (removed : Option String) (m : String)
      → (clean ≡ true → is_some removed ≡ false)
      → b.owner ≡ false
      → b.process ≡ false
      → length b.catalog ≤ 256
      → IsSound clean (clean_up b removed m).0
  unfolding clean_up update
  clean_up-IsSound b (some m') m tidy o p limited = record {
    together = o ∙ sym p;
    owned = λ k h. absurd (let no = tidy k in cc);
    placed = λ h. absurd (ground arith);
    bounded = limited;
  }
  clean_up-IsSound b none m tidy o p limited = record {
    together = o ∙ sym p;
    owned = λ k. impossible;
    placed = λ h. absurd (ground arith);
    bounded = limited;
  }

  abandon-IsSound :
      {clean : Bool} (b : ServiceBroker S) (a : StartAnswers) (m : String)
      → (clean ≡ true → cleans_up a ≡ true)
      → IsPrepared b
      → IsSound clean (abandon b a m).0
  unfolding abandon
  abandon-IsSound {clean} b a m tidy p = elim (Option-cases a.parent_closed) [
    | inr (m', e) ↦ rw e (record {
      together = p.paired;
      owned = λ k h. absurd (let t = tidy k in ground arith);
      placed = λ h. p.known;
      bounded = p.limited;
    })
    | inl e ↦ rw e (
        if-elim {A = ServiceBroker S × Option String} (λ x. IsSound clean x.0)
          (b.process && not a.ended_in_time)
          (λ h.
            if-elim (IsSound clean) b.process
              (λ live. record {
                together = p.paired;
                owned = λ k active. live;
                placed = λ h'. p.known;
                bounded = p.limited;
              })
              (λ gone. absurd (ground arith)))
          (λ h.
            clean_up-IsSound _ a.removed m (λ k. let t = tidy k in ground arith) refl refl
              (if-elim {A = ServiceBroker S} (λ x. length x.catalog ≤ 256) b.process
                (λ h'. p.limited) (λ h'. p.limited))))
  ]

  launched-IsPrepared : (b : ServiceBroker S) → IsPrepared b → IsPrepared (launched b)
  launched-IsPrepared b p = record { paired = refl; known = p.known; limited = p.limited }

  launch-IsSound :
      {clean : Bool} (b : ServiceBroker S) (a : StartAnswers)
      → (clean ≡ true → cleans_up a ≡ true)
      → IsPrepared b
      → IsSound clean (launch b a).0
  unfolding launch
  launch-IsSound {clean} b a tidy p = answered a.popen a.sent
    where
      answered :
          (popen sent : Option String)
          → IsSound clean
              (elim popen as (λ x. ServiceBroker S × Option String) [
                | some m ↦ abandon b a m
                | none ↦ elim sent as (λ x. ServiceBroker S × Option String) [
                  | some m ↦ abandon (launched b) a m
                  | none ↦ (launched b, none)
                ]
              ]).0
      answered (some m) sent = abandon-IsSound b a m tidy p
      answered none (some m) = abandon-IsSound (launched b) a m tidy (launched-IsPrepared b p)
      answered none none = record {
        together = refl;
        owned = λ k h. refl;
        placed = λ h. p.known;
        bounded = p.limited;
      }

  close_child-IsSound :
      {clean : Bool} (closed : Option String) (x : ServiceBroker S × Option String)
      → IsSound clean x.0
      → IsSound clean (close_child closed x).0
  close_child-IsSound none x s = s
  close_child-IsSound (some m) (b, raise) s = s

  pub start-IsSound :
      {clean : Bool} (b : ServiceBroker S) (c : LiveSessionConfig) (a : StartAnswers)
      → (clean ≡ true → cleans_up a ≡ true)
      → IsSound clean b
      → IsSound clean (start b c a).0
  unfolding start write_logging
  start-IsSound {clean} b c a tidy s = opened a.socketpair a.written
    where
      config : LiveSessionConfig
      config = record c {
        logging_control_path = some (control_file b a.new_id);
        logging_status_path = none;
      }

      prepared : ServiceBroker S
      prepared = record b {
        control_path = some (control_file b a.new_id);
        export_requested = c.initial_export_enabled;
      }

      published : ServiceBroker S
      published = record prepared {
        publication =
            new_publication (payload S) (some a.new_id) (b.publication.revision + 1) starting
              (some config);
      }

      opened :
          (socketpair written : Option String)
          → IsSound clean
              (elim socketpair as (λ x. ServiceBroker S × Option String) [
                | some m ↦ (prepared, some m)
                | none ↦
                    let (w, raise) =
                      write_logging published (truth c.initial_logging_enabled) written in
                    close_child a.child_closed
                      (elim raise as (λ x. ServiceBroker S × Option String) [
                        | some m ↦ abandon w a m
                        | none ↦ launch w a
                      ])
              ]).0
      opened (some m) written = record {
        together = s.together;
        owned = s.owned;
        placed = λ h. refl;
        bounded = s.bounded;
      }
      opened none (some m) = close_child-IsSound a.child_closed _ (
          abandon-IsSound _ a m tidy
            (record { paired = s.together; known = refl; limited = s.bounded }))
      opened none none = close_child-IsSound a.child_closed _ (
          launch-IsSound _ a tidy
            (record { paired = s.together; known = refl; limited = s.bounded }))

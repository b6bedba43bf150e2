-- ===== src/Service/Lifecycle.antt =====
-- The broker over its life: any sequence of polls, requests and shutdowns, and the end of a session.
use wlanpi_utilization.Prelude.{
  ℤ, ◌≡◌, refl, Bool, true, not, Option, none, some, List, [], ◌∷◌, all, String, if-elim, arith,
  if◌then◌else◌,
}
use wlanpi_utilization.Runtime.{stopping, is_active}
use wlanpi_utilization.Service.Broker.{
  ServicePayload, created, ServiceBroker, PollAnswers, interrupted, kill_sent, do_effect,
  poll_owner,
}
use wlanpi_utilization.Service.Dispatch.{Request, RequestAnswers, dispatch}
use wlanpi_utilization.Service.Shutdown.{
  await_owner, request_end, forced, kill_owner, check_end, end_owner, shutdown,
}
use wlanpi_utilization.Service.Invariant.{IsSound, poll_owner-IsSound}
use wlanpi_utilization.Service.Starting.{cleans_up}
use wlanpi_utilization.Service.Requests.{update-IsSound, dispatch-IsSound}

-- What happens to a broker.
pub data Event (S : ServicePayload) : Type 0 where
  polled : PollAnswers S → Event S
  requested : Request → RequestAnswers S → Event S
  shut_down : PollAnswers S → Bool → List (PollAnswers S) → Bool → PollAnswers S → Event S

module _ {S : ServicePayload} where
  unfoldable pub step : (String → Option ℤ) → ServiceBroker S → Event S → ServiceBroker S
  step int_of b (polled a) = (poll_owner b a).0
  step int_of b (requested r a) = (dispatch int_of b r a).0
  step int_of b (shut_down first alive rounds ended_in_time last) =
      (shutdown b first alive rounds ended_in_time last).0

  unfoldable pub run : (String → Option ℤ) → ServiceBroker S → List (Event S) → ServiceBroker S
  unfolding step
  run int_of b [] = b
  run int_of b (e ∷ es) = run int_of (step int_of b e) es

  -- What follows a call that may raise keeps the invariant.
  unless_raised-IsSound :
      {clean : Bool} (x : ServiceBroker S × Option String)
      (next : ServiceBroker S → ServiceBroker S × Option String)
      → IsSound clean x.0
      → IsSound clean (next x.0).0
      → IsSound clean
          (elim x.1 as (λ r. ServiceBroker S × Option String) [
            | some m ↦ (x.0, some m)
            | none ↦ next x.0
          ]).0
  unless_raised-IsSound (b, some m) next s s' = s
  unless_raised-IsSound (b, none) next s s' = s'

  pub await_owner-IsSound :
      {clean : Bool} (rounds : List (PollAnswers S)) (b : ServiceBroker S)
      → IsSound clean b
      → IsSound clean (await_owner b rounds).0
  unfolding await_owner
  await_owner-IsSound [] b s = s
  await_owner-IsSound {clean} (a ∷ rest) b s =
      let polled = poll_owner-IsSound b a s in
      if-elim {A = ServiceBroker S × Option String} (λ x. IsSound clean x.0) b.process
        (λ h.
          unless_raised-IsSound (poll_owner b a) (λ b'. await_owner b' rest) polled
            (await_owner-IsSound rest (poll_owner b a).0 polled))
        (λ h. s)

  pub request_end-IsSound :
      {clean : Bool} (b : ServiceBroker S) (alive : Bool)
      → b.process ≡ true
      → IsSound clean b
      → IsSound clean (request_end b alive)
  unfolding request_end
  request_end-IsSound {clean} b alive live s =
      let asked = if alive then do_effect interrupted b else b in
      let sound : IsSound clean asked =
        if-elim (IsSound clean) alive
          (λ h. record {
            together = s.together;
            owned = s.owned;
            placed = s.placed;
            bounded = s.bounded;
          })
          (λ h. s) in
      let lives : asked.process ≡ true =
        if-elim {A = ServiceBroker S} (λ x. x.process ≡ true) alive (λ h. live) (λ h. live) in
      if-elim (IsSound clean) (is_active asked.publication.phase)
        (λ h.
          update-IsSound asked (record asked.publication { phase = stopping }) (λ h'. lives) sound)
        (λ h. sound)

  kill_owner-IsSound :
      {clean : Bool} (b : ServiceBroker S) (ended_in_time : Bool) (last : PollAnswers S)
      → IsSound clean b
      → IsSound clean (kill_owner b ended_in_time last).0
  unfolding kill_owner
  kill_owner-IsSound {clean} b ended_in_time last s =
      let killed : IsSound clean (do_effect kill_sent b) = record {
        together = s.together;
        owned = s.owned;
        placed = s.placed;
        bounded = s.bounded;
      } in
      if-elim {A = ServiceBroker S × Option String} (λ x. IsSound clean x.0) (not ended_in_time)
        (λ h. killed)
        (λ h.
          let polled = poll_owner-IsSound _ last killed in
          unless_raised-IsSound (poll_owner (do_effect kill_sent b) last) (λ b'. (b', some forced))
            polled polled)

  check_end-IsSound :
      {clean : Bool} (b : ServiceBroker S) (ended_in_time : Bool) (last : PollAnswers S)
      → IsSound clean b
      → IsSound clean (check_end b ended_in_time last).0
  unfolding check_end
  check_end-IsSound {clean} b ended_in_time last s =
      if-elim {A = ServiceBroker S × Option String} (λ x. IsSound clean x.0) b.process
        (λ h. kill_owner-IsSound b ended_in_time last s) (λ h. s)

  end_owner-IsSound :
      {clean : Bool} (b : ServiceBroker S) (alive : Bool) (rounds : List (PollAnswers S))
      (ended_in_time : Bool) (last : PollAnswers S)
      → IsSound clean b
      → IsSound clean (end_owner b alive rounds ended_in_time last).0
  unfolding end_owner
  end_owner-IsSound {clean} b alive rounds ended_in_time last s =
      if-elim {A = ServiceBroker S × Option String} (λ x. IsSound clean x.0) (not b.process)
        (λ h. s)
        (λ h.
          let waited =
            await_owner-IsSound rounds _ (request_end-IsSound b alive (ground arith) s) in
          unless_raised-IsSound (await_owner (request_end b alive) rounds)
            (λ b'. check_end b' ended_in_time last) waited
            (check_end-IsSound _ ended_in_time last waited))

  pub shutdown-IsSound :
      {clean : Bool} (b : ServiceBroker S) (first : PollAnswers S) (alive : Bool)
      (rounds : List (PollAnswers S)) (ended_in_time : Bool) (last : PollAnswers S)
      → IsSound clean b
      → IsSound clean (shutdown b first alive rounds ended_in_time last).0
  unfolding shutdown
  shutdown-IsSound {clean} b first alive rounds ended_in_time last s =
      let polled = poll_owner-IsSound b first s in
      unless_raised-IsSound (poll_owner b first)
        (λ b'. end_owner b' alive rounds ended_in_time last) polled
        (end_owner-IsSound _ alive rounds ended_in_time last polled)

  -- A start that fails cleans up.
  abbrev pub is_tidy : Event S → Bool
  is_tidy (requested r a) = cleans_up a.started
  is_tidy _ = true

  step-IsSound :
      {clean : Bool} (int_of : String → Option ℤ) (b : ServiceBroker S) (e : Event S)
      → (clean ≡ true → is_tidy e ≡ true)
      → IsSound clean b
      → IsSound clean (step int_of b e)
  unfolding step
  step-IsSound int_of b (polled a) tidy s = poll_owner-IsSound b a s
  step-IsSound int_of b (requested r a) tidy s = dispatch-IsSound int_of b r a tidy s
  step-IsSound int_of b (shut_down first alive rounds ended_in_time last) tidy s =
      shutdown-IsSound b first alive rounds ended_in_time last s

  run-IsSound_from :
      {clean : Bool} (int_of : String → Option ℤ) (es : List (Event S)) (b : ServiceBroker S)
      → (clean ≡ true → all is_tidy es ≡ true)
      → IsSound clean b
      → IsSound clean (run int_of b es)
  unfolding run
  run-IsSound_from int_of [] b tidy s = s
  run-IsSound_from int_of (e ∷ es) b tidy s =
      run-IsSound_from int_of es _ (λ k. let t = tidy k in ground arith)
        (step-IsSound int_of b e (λ k. let t = tidy k in ground arith) s)

  pub run-IsSound :
      (int_of : String → Option ℤ) (directory : String) (es : List (Event S))
      → IsSound (all is_tidy es) (run int_of (created S directory) es)
  run-IsSound int_of directory es =
      run-IsSound_from int_of es (created S directory) (λ k. k)
        (record {
          together = refl;
          owned = λ k h. absurd (cc);
          placed = λ h. absurd (cc);
          bounded = omega arith;
        })

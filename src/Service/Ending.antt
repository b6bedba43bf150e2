-- ===== src/Service/Ending.antt =====
-- How a shutdown ends.
use wlanpi_utilization.Prelude.{
  ℤ, String, ◌≡◌, refl, sym, ◌∙◌, inl, inr, Bool, true, false, not, ◌&&◌, Option, none, some,
  is_some, List, [], ◌∷◌, any, all, ◌||◌, Bool-cases, if-elim, arith,
}
use wlanpi_utilization.Runtime.{is_active}
use wlanpi_utilization.Service.Broker.{
  ServicePayload, ServiceBroker, PollAnswers, kill_sent, do_effect, note_failure, release, released,
  read_owner, settle, poll_owner, update,
}
use wlanpi_utilization.Service.Shutdown.{
  await_owner, request_end, forced, kill_owner, check_end, end_owner, shutdown,
}
use wlanpi_utilization.Service.Invariant.{IsSound, poll_owner-IsSound}
use wlanpi_utilization.Service.Lifecycle.{request_end-IsSound, shutdown-IsSound}

module _ {S : ServicePayload} where
  -- The owner has exited and its channel has ended.
  abbrev pub shows_exit : PollAnswers S → Bool
  shows_exit a = is_some a.code && a.eof

  idle_of_gone :
      (b : ServiceBroker S)
      → IsSound true b
      → b.process ≡ false
      → is_active b.publication.phase ≡ false
  idle_of_gone b s gone = elim (Bool-cases (is_active b.publication.phase)) [
    | inl e ↦ absurd (let live = s.owned refl e in ground arith)
    | inr e ↦ e
  ]

  -- Nothing escapes the handler, and the channel and the control file go without raising.
  abbrev pub raises_nothing : PollAnswers S → Bool
  raises_nothing a = not (is_some a.escaped) && not (is_some a.closed) && not (is_some a.removed)

  release-quiet :
      (b : ServiceBroker S) (code : Option ℤ) (closed removed : Option String)
      → (is_some closed || is_some removed) ≡ false
      → (release b code closed removed).1 ≡ none
  unfolding release released
  release-quiet b none closed removed h = refl
  release-quiet b (some code) (some m) removed h = absurd (cc)
  release-quiet b (some code) none (some m) h = absurd (cc)
  release-quiet b (some code) none none h =
      if-elim {A = ServiceBroker S × Option String} (λ x. x.1 ≡ none) b.at_eof (λ e. refl)
        (λ e. refl)

  release-gone :
      (b : ServiceBroker S) (code : Option ℤ) (closed removed : Option String)
      → (is_some closed || is_some removed) ≡ false
      → is_some code ≡ true
      → b.at_eof ≡ true
      → (release b code closed removed).0.process ≡ false
  unfolding release released
  release-gone b none closed removed h c e = absurd (cc)
  release-gone b (some code) (some m) removed h c e = absurd (cc)
  release-gone b (some code) none (some m) h c e = absurd (cc)
  release-gone b (some code) none none h c e = rw e refl

  note_failure-at_eof :
      (b : ServiceBroker S) (m : Option String) (alive : Bool)
      → (note_failure b m alive).at_eof ≡ b.at_eof
  unfolding note_failure update
  note_failure-at_eof b none alive = refl
  note_failure-at_eof b (some m) true = refl
  note_failure-at_eof b (some m) false = refl

  settle-quiet :
      (b : ServiceBroker S) (a : PollAnswers S) (escaped : Option String)
      → is_some escaped ≡ false
      → (is_some a.closed || is_some a.removed) ≡ false
      → (settle b a escaped).1 ≡ none
  unfolding settle
  settle-quiet b a (some m) q h = absurd (cc)
  settle-quiet b a none q h = release-quiet _ a.code a.closed a.removed h

  settle-gone :
      (b : ServiceBroker S) (a : PollAnswers S) (escaped : Option String)
      → is_some escaped ≡ false
      → (is_some a.closed || is_some a.removed) ≡ false
      → is_some a.code ≡ true
      → b.at_eof ≡ true
      → (settle b a escaped).0.process ≡ false
  unfolding settle
  settle-gone b a (some m) q h c e = absurd (cc)
  settle-gone b a none q h c e =
      release-gone _ a.code a.closed a.removed h c (note_failure-at_eof b a.failure a.alive ∙ e)

  poll_owner-quiet :
      (b : ServiceBroker S) (a : PollAnswers S)
      → raises_nothing a ≡ true
      → (poll_owner b a).1 ≡ none
  unfolding poll_owner
  poll_owner-quiet b a q =
      if-elim {A = ServiceBroker S × Option String} (λ x. x.1 ≡ none) (not b.owner) (λ h. refl)
        (λ h. settle-quiet (read_owner b a) a a.escaped (ground arith) (ground arith))

  poll_owner-gone :
      {clean : Bool} (b : ServiceBroker S) (a : PollAnswers S)
      → IsSound clean b
      → raises_nothing a ≡ true
      → shows_exit a ≡ true
      → (poll_owner b a).0.process ≡ false
  unfolding poll_owner read_owner
  poll_owner-gone b a s q h =
      if-elim {A = ServiceBroker S × Option String} (λ x. x.0.process ≡ false) (not b.owner)
        (λ absent. sym s.together ∙ ground arith)
        (λ present.
          settle-gone (read_owner b a) a a.escaped (ground arith) (ground arith) (ground arith)
            (ground arith))

  await_owner-quiet :
      (rounds : List (PollAnswers S)) (b : ServiceBroker S)
      → all raises_nothing rounds ≡ true
      → (await_owner b rounds).1 ≡ none
  unfolding await_owner
  await_owner-quiet [] b q = refl
  await_owner-quiet (a ∷ rest) b q =
      let quiet : (poll_owner b a).1 ≡ none = poll_owner-quiet b a (ground arith) in
      let later = await_owner-quiet rest (poll_owner b a).0 (ground arith) in
      if-elim {A = ServiceBroker S × Option String} (λ x. x.1 ≡ none) b.process
        (λ h. rw quiet later) (λ h. refl)

  await_owner-stays :
      (rounds : List (PollAnswers S)) (b : ServiceBroker S)
      → b.process ≡ false
      → (await_owner b rounds).0.process ≡ false
  unfolding await_owner
  await_owner-stays [] b h = h
  await_owner-stays (a ∷ rest) b h = rw (await_owner, h) refl

  await_owner-gone :
      {clean : Bool} (rounds : List (PollAnswers S)) (b : ServiceBroker S)
      → IsSound clean b
      → all raises_nothing rounds ≡ true
      → any shows_exit rounds ≡ true
      → (await_owner b rounds).0.process ≡ false
  unfolding await_owner
  await_owner-gone [] b s q h = absurd (cc)
  await_owner-gone (a ∷ rest) b s q h =
      let here : raises_nothing a ≡ true = ground arith in
      let quiet : (poll_owner b a).1 ≡ none = poll_owner-quiet b a here in
      if-elim {A = ServiceBroker S × Option String} (λ x. x.0.process ≡ false) b.process
        (λ live. rw quiet (elim (Bool-cases (shows_exit a)) [
          | inl e ↦ await_owner-stays rest _ (poll_owner-gone b a s here e)
          | inr e ↦ await_owner-gone rest _ (poll_owner-IsSound b a s) (ground arith) (ground arith)
        ]))
        (λ gone. gone)

  -- What holds of a broker and what a call raised, where the call returned.
  abbrev GoneIfReturned : ServiceBroker S × Option String → Type 0
  GoneIfReturned x = x.1 ≡ none → x.0.process ≡ false

  check_end-gone :
      (b : ServiceBroker S) (ended_in_time : Bool) (last : PollAnswers S)
      → GoneIfReturned (check_end b ended_in_time last)
  unfolding check_end kill_owner
  check_end-gone b ended_in_time last =
      if-elim GoneIfReturned b.process
        (λ h.
          if-elim GoneIfReturned (not ended_in_time) (λ h' e. absurd (cc))
            (λ h'. raised_again (poll_owner (do_effect kill_sent b) last)))
        (λ h e. h)
    where
      raised_again :
          (x : ServiceBroker S × Option String)
          → GoneIfReturned (elim x.1 as (λ y. ServiceBroker S × Option String) [
            | some m ↦ (x.0, some m)
            | none ↦ (x.0, some forced)
          ])
      raised_again (b', some m) e = absurd (cc)
      raised_again (b', none) e = absurd (cc)

  unless_raised-gone :
      (x : ServiceBroker S × Option String)
      (next : ServiceBroker S → ServiceBroker S × Option String)
      → GoneIfReturned (next x.0)
      → GoneIfReturned (elim x.1 as (λ r. ServiceBroker S × Option String) [
        | some m ↦ (x.0, some m)
        | none ↦ next x.0
      ])
  unless_raised-gone (b, some m) next g = λ e. absurd (cc)
  unless_raised-gone (b, none) next g = g

  end_owner-gone :
      (b : ServiceBroker S) (alive : Bool) (rounds : List (PollAnswers S)) (ended_in_time : Bool)
      (last : PollAnswers S)
      → GoneIfReturned (end_owner b alive rounds ended_in_time last)
  unfolding end_owner
  end_owner-gone b alive rounds ended_in_time last =
      if-elim GoneIfReturned (not b.process) (λ h e. ground arith)
        (λ h.
          unless_raised-gone (await_owner (request_end b alive) rounds)
            (λ b'. check_end b' ended_in_time last) (check_end-gone _ ended_in_time last))

  shutdown-gone :
      (b : ServiceBroker S) (first : PollAnswers S) (alive : Bool) (rounds : List (PollAnswers S))
      (ended_in_time : Bool) (last : PollAnswers S)
      → GoneIfReturned (shutdown b first alive rounds ended_in_time last)
  unfolding shutdown
  shutdown-gone b first alive rounds ended_in_time last =
      unless_raised-gone (poll_owner b first) (λ b'. end_owner b' alive rounds ended_in_time last)
        (end_owner-gone _ alive rounds ended_in_time last)

  -- An owner that exits among the rounds, or has already gone, is not killed.
  end_owner-quiet :
      {clean : Bool} (b : ServiceBroker S) (alive : Bool) (rounds : List (PollAnswers S))
      (ended_in_time : Bool) (last : PollAnswers S)
      → IsSound clean b
      → all raises_nothing rounds ≡ true
      → (b.process ≡ true → any shows_exit rounds ≡ true)
      → (end_owner b alive rounds ended_in_time last).1 ≡ none
  unfolding end_owner check_end
  end_owner-quiet b alive rounds ended_in_time last s q exits =
      if-elim {A = ServiceBroker S × Option String} (λ x. x.1 ≡ none) (not b.process) (λ h. refl)
        (λ h.
          let live : b.process ≡ true = ground arith in
          let asked = request_end-IsSound b alive live s in
          rw
            (
              await_owner-quiet rounds (request_end b alive) q,
              await_owner-gone rounds (request_end b alive) asked q (exits live),
            )
            refl)

  -- From a broker that keeps its invariant, a shutdown that returns leaves no owner process and no
  -- active session. It does return if the owner exits and closes its channel before the deadline, and
  -- none of the polls before the deadline raises anything: no error escapes their handler, and the
  -- channel and the control file go without one.
  pub shutdown-ends :
      (b : ServiceBroker S) (first : PollAnswers S) (alive : Bool) (rounds : List (PollAnswers S))
      (ended_in_time : Bool) (last : PollAnswers S)
      → IsSound true b
      → ((shutdown b first alive rounds ended_in_time last).1 ≡ none
          → ((shutdown b first alive rounds ended_in_time last).0.process ≡ false)
            × (is_active (shutdown b first alive rounds ended_in_time last).0.publication.phase
                ≡ false))
        × (any shows_exit (first ∷ rounds) ≡ true
            → all raises_nothing (first ∷ rounds) ≡ true
            → (shutdown b first alive rounds ended_in_time last).1 ≡ none)
  unfolding shutdown
  shutdown-ends b first alive rounds ended_in_time last s = (
    λ returned.
        let gone = shutdown-gone b first alive rounds ended_in_time last returned in
        (gone, idle_of_gone _ (shutdown-IsSound b first alive rounds ended_in_time last s) gone),
    λ exits quiet.
        let here : raises_nothing first ≡ true = ground arith in
        rw (shutdown, poll_owner-quiet b first here)
          (end_owner-quiet (poll_owner b first).0 alive rounds ended_in_time last
            (poll_owner-IsSound b first s) (ground arith)
            (λ live. elim (Bool-cases (shows_exit first)) [
              | inl e ↦ absurd (let none_left = poll_owner-gone b first s here e in ground arith)
              | inr e ↦ ground arith
            ])),
  )

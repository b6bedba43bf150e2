-- ===== src/Service/Late.antt =====
-- The polls of an owner whose session is being stopped.
use wlanpi_utilization.Prelude.{
  ℤ, ◌≡◌, refl, ◌∙◌, Bool, true, false, not, ◌||◌, Option, none, some, List, [], ◌∷◌, ◌++◌, String,
  if-elim, arith,
}
use wlanpi_utilization.Runtime.{SessionPhase, starting, running, stopping, is_active, is_stopping}
use wlanpi_utilization.Service.Broker.{
  ServicePayload, Publication, ServiceBroker, PollAnswers, same_session, update, take_publication,
  take_publications, note_failure, note_exit, released, release, incoming, read_owner, settle,
  poll_owner,
}
use wlanpi_utilization.Service.Dispatch.{is_joinable}
use wlanpi_utilization.Service.Invariant.{note_exit-over}
use wlanpi_utilization.Service.Reports.{
  end_once_after, are_ended_after, IsEnding, is_stopped_later, is_over, has_no_owner, has_no_more,
  take_publications-IsEnding,
}

stopping_is_not_joinable : (p : SessionPhase) → is_stopping p ≡ true → is_joinable p ≡ false
stopping_is_not_joinable stopping h = refl
stopping_is_not_joinable _ h = absurd (cc)

inactive_is_not_joinable : (p : SessionPhase) → is_active p ≡ false → is_joinable p ≡ false
inactive_is_not_joinable starting h = absurd (cc)
inactive_is_not_joinable running h = absurd (cc)
inactive_is_not_joinable _ h = refl

module _ {S : ServicePayload} where
  unfoldable pub poll_all : ServiceBroker S → List (PollAnswers S) → ServiceBroker S
  poll_all b [] = b
  poll_all b (a ∷ rest) = poll_all (poll_owner b a).0 rest

  abbrev pub reported : List (PollAnswers S) → List (Publication S)
  reported [] = []
  reported (a ∷ rest) = a.publications ++ reported rest

  note_failure-IsEnding :
      (id : Option String) (later : List (Publication S)) (b : ServiceBroker S) (m : Option String)
      (alive : Bool)
      → IsEnding id later b
      → IsEnding id later (note_failure b m alive)
  unfolding note_failure update
  note_failure-IsEnding id later b none alive e = e
  note_failure-IsEnding id later b (some m) true (is_stopped_later same stops once) =
      is_stopped_later same stops once
  note_failure-IsEnding id later b (some m) true (is_over same ended none_later) =
      is_over same ended none_later
  note_failure-IsEnding id later b (some m) true (has_no_owner absent ended) =
      has_no_owner absent ended
  note_failure-IsEnding id later b (some m) true (has_no_more over ended) = has_no_more over ended
  note_failure-IsEnding id later b (some m) false (is_stopped_later same stops once) =
      is_stopped_later same stops once
  note_failure-IsEnding id later b (some m) false (is_over same ended none_later) =
      is_over same ended none_later
  note_failure-IsEnding id later b (some m) false (has_no_owner absent ended) =
      has_no_owner absent ended
  note_failure-IsEnding id later b (some m) false (has_no_more over ended) = has_no_more over ended

  note_exit-at_eof : (b : ServiceBroker S) (code : ℤ) → (note_exit b code).at_eof ≡ b.at_eof
  unfolding note_exit update
  note_exit-at_eof b code =
      if-elim {A = ServiceBroker S} (λ x. x.at_eof ≡ b.at_eof) (is_active b.publication.phase)
        (λ h. refl) (λ h. refl)

  release-IsEnding :
      (id : Option String) (later : List (Publication S)) (b : ServiceBroker S) (code : Option ℤ)
      (closed removed : Option String)
      → IsEnding id later b
      → IsEnding id later (release b code closed removed).0
  unfolding release released
  release-IsEnding id later b none closed removed e = e
  release-IsEnding id later b (some n) closed removed e =
      if-elim {A = ServiceBroker S × Option String} (λ x. IsEnding id later x.0) b.at_eof
        (λ h. released_ending closed removed (note_exit-at_eof b n ∙ h)) (λ h. e)
    where
      released_ending :
          (closed removed : Option String)
          → (note_exit b n).at_eof ≡ true
          → IsEnding id later (released (note_exit b n) closed removed).0
      released_ending (some m) removed h = has_no_more h (note_exit-over b n)
      released_ending none (some m) h = has_no_owner refl (note_exit-over b n)
      released_ending none none h = has_no_owner refl (note_exit-over b n)

  unread-IsEnding :
      (id : Option String) (ps later : List (Publication S)) (b : ServiceBroker S)
      → IsEnding id (ps ++ later) b
      → IsEnding id later b
  unread-IsEnding id ps later b (is_stopped_later same stops once) =
      is_stopped_later same stops (end_once_after id later ps once)
  unread-IsEnding id ps later b (is_over same ended none_later) =
      is_over same ended (are_ended_after id later ps none_later)
  unread-IsEnding id ps later b (has_no_owner absent ended) = has_no_owner absent ended
  unread-IsEnding id ps later b (has_no_more over ended) = has_no_more over ended

  eof-IsEnding :
      (id : Option String) (later : List (Publication S)) (b : ServiceBroker S) (eof : Bool)
      → IsEnding id later b
      → (before : Bool) → (b.at_eof ≡ true → (before || eof) ≡ true)
      → IsEnding id later (record b { at_eof = before || eof })
  eof-IsEnding id later b eof (is_stopped_later same stops once) before h =
      is_stopped_later same stops once
  eof-IsEnding id later b eof (is_over same ended none_later) before h =
      is_over same ended none_later
  eof-IsEnding id later b eof (has_no_owner absent ended) before h = has_no_owner absent ended
  eof-IsEnding id later b eof (has_no_more over ended) before h = has_no_more (h over) ended

  take_publication-at_eof :
      (b : ServiceBroker S) (p : Publication S) → (take_publication b p).at_eof ≡ b.at_eof
  unfolding take_publication
  take_publication-at_eof b p =
      if-elim {A = ServiceBroker S} (λ x. x.at_eof ≡ b.at_eof)
        (not (same_session p.session_id b.publication.session_id)) (λ h. refl) (λ h. refl)

  take_publications-at_eof :
      (b : ServiceBroker S) (ps : List (Publication S)) → (take_publications b ps).at_eof ≡ b.at_eof
  unfolding take_publications
  take_publications-at_eof b [] = refl
  take_publications-at_eof b (p ∷ ps) =
      take_publications-at_eof (take_publication b p) ps ∙ take_publication-at_eof b p

  incoming-IsEnding :
      (id : Option String) (ps later : List (Publication S)) (b : ServiceBroker S) (eof : Bool)
      → b.owner ≡ true
      → b.at_eof ≡ eof
      → IsEnding id (ps ++ later) b
      → IsEnding id later (take_publications b (incoming eof ps))
  unfolding take_publications
  incoming-IsEnding id ps later b true o t e = unread-IsEnding id ps later b e
  incoming-IsEnding id ps later b false o t e = take_publications-IsEnding id ps later b o t e

  read_owner-IsEnding :
      (id : Option String) (a : PollAnswers S) (later : List (Publication S)) (b : ServiceBroker S)
      → b.owner ≡ true
      → IsEnding id (a.publications ++ later) b
      → IsEnding id later (read_owner b a)
  unfolding read_owner
  read_owner-IsEnding id a later b o e =
      let ps = incoming b.at_eof a.publications in
      let kept = take_publications-at_eof b ps in
      eof-IsEnding id later (take_publications b ps) a.eof
        (incoming-IsEnding id a.publications later b b.at_eof o refl e) b.at_eof (λ h. ground arith)

  settle-IsEnding :
      (id : Option String) (later : List (Publication S)) (b : ServiceBroker S) (a : PollAnswers S)
      (escaped : Option String)
      → IsEnding id later b
      → IsEnding id later (settle b a escaped).0
  unfolding settle
  settle-IsEnding id later b a (some m) e = e
  settle-IsEnding id later b a none e =
      release-IsEnding id later _ a.code a.closed a.removed
        (note_failure-IsEnding id later b a.failure a.alive e)

  poll_owner-IsEnding :
      (id : Option String) (a : PollAnswers S) (later : List (Publication S)) (b : ServiceBroker S)
      → IsEnding id (a.publications ++ later) b
      → IsEnding id later (poll_owner b a).0
  unfolding poll_owner
  poll_owner-IsEnding id a later b e =
      if-elim {A = ServiceBroker S × Option String} (λ x. IsEnding id later x.0) (not b.owner)
        (λ h. unread-IsEnding id a.publications later b e)
        (λ h.
          settle-IsEnding id later (read_owner b a) a a.escaped
            (read_owner-IsEnding id a later b (ground arith) e))

  pub poll_all-IsEnding :
      (id : Option String) (polls : List (PollAnswers S)) (b : ServiceBroker S)
      → IsEnding id (reported polls) b
      → is_joinable (poll_all b polls).publication.phase ≡ false
  unfolding poll_all
  poll_all-IsEnding id [] b (is_stopped_later same stops once) =
      stopping_is_not_joinable b.publication.phase stops
  poll_all-IsEnding id [] b (is_over same ended none_later) =
      inactive_is_not_joinable b.publication.phase ended
  poll_all-IsEnding id [] b (has_no_owner absent ended) =
      inactive_is_not_joinable b.publication.phase ended
  poll_all-IsEnding id [] b (has_no_more over ended) =
      inactive_is_not_joinable b.publication.phase ended
  poll_all-IsEnding id (a ∷ rest) b e =
      poll_all-IsEnding id rest (poll_owner b a).0 (poll_owner-IsEnding id a (reported rest) b e)

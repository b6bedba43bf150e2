-- ===== src/Service/Reports.antt =====
-- What the owner of a session that is being stopped reports, one publication after the other.
use wlanpi_utilization.Prelude.{
  ℕ, eq_iff, ◌≡◌, refl, sym, ap, ◌∙◌, inl, inr, Bool, true, false, not, ◌&&◌, ◌||◌, Option, none,
  some, List, [], ◌∷◌, ◌++◌, String, Bool-cases, if-elim, arith,
}
use wlanpi_utilization.Runtime.{Payload, RuntimePublication, is_active, is_stopping}
use wlanpi_utilization.Service.Broker.{
  ServicePayload, Publication, Entry, ServiceBroker, same_session, taken_phase, take_publication,
  take_publications,
}

-- Of the publications of the session, none after one that is not active is active.
abbrev pub are_ended : {T : Payload} → Option String → List (RuntimePublication T) → Bool
are_ended id [] = true
are_ended id (p ∷ ps) = not (same_session p.session_id id && is_active p.phase) && are_ended id ps

abbrev pub end_once : {T : Payload} → Option String → List (RuntimePublication T) → Bool
end_once id [] = true
end_once id (p ∷ ps) =
    end_once id ps && (not (same_session p.session_id id) || is_active p.phase || are_ended id ps)

pub end_once_after :
    {T : Payload} (id : Option String) (later ps : List (RuntimePublication T))
    → end_once id (ps ++ later) ≡ true
    → end_once id later ≡ true
end_once_after id later [] h = h
end_once_after id later (p ∷ ps) h = end_once_after id later ps (ground arith)

pub are_ended_after :
    {T : Payload} (id : Option String) (later ps : List (RuntimePublication T))
    → are_ended id (ps ++ later) ≡ true
    → are_ended id later ≡ true
are_ended_after id later [] h = h
are_ended_after id later (p ∷ ps) h = are_ended_after id later ps (ground arith)

same_session-eq : (a b : Option String) → same_session a b ≡ true → a ≡ b
same_session-eq none none h = refl
same_session-eq (some a) (some b) h = ap some ((eq_iff a b).0 h)
same_session-eq none (some b) h = absurd (cc)
same_session-eq (some a) none h = absurd (cc)

module _ {S : ServicePayload} where
  -- The session `id` is being stopped, or it has ended, by what its owner reports from here on.
  pub data IsEnding (id : Option String) (later : List (Publication S)) (b : ServiceBroker S)
      : Type 0 where
    is_stopped_later :
        b.publication.session_id ≡ id
        → is_stopping b.publication.phase ≡ true
        → end_once id later ≡ true
        → IsEnding id later b
    is_over :
        b.publication.session_id ≡ id
        → is_active b.publication.phase ≡ false
        → are_ended id later ≡ true
        → IsEnding id later b
    has_no_owner : b.owner ≡ false → is_active b.publication.phase ≡ false → IsEnding id later b
    has_no_more : b.at_eof ≡ true → is_active b.publication.phase ≡ false → IsEnding id later b

  taken-IsEnding :
      (id : Option String) (p : Publication S) (later : List (Publication S)) (b : ServiceBroker S)
      (catalog : List (Entry S)) (r : ℕ)
      → p.session_id ≡ id
      → IsEnding id (p ∷ later) b
      → b.owner ≡ true
      → b.at_eof ≡ false
      → same_session p.session_id id ≡ true
      → IsEnding id later (record b {
        publication = record p { phase = taken_phase b.publication.phase p.phase; revision = r };
        catalog = catalog;
      })
  unfolding taken_phase
  taken-IsEnding id p later b catalog r e (is_stopped_later same stops once) o t h =
      elim (Bool-cases (is_active p.phase)) [
        | inl act ↦ is_stopped_later e (rw (stops, act) refl) (ground arith)
        | inr act ↦ is_over e (rw (stops, act) act) (ground arith)
      ]
  taken-IsEnding id p later b catalog r e (is_over same ended none_later) o t h =
      is_over e (ground arith) (ground arith)
  taken-IsEnding id p later b catalog r e (has_no_owner absent ended) o t h = absurd (ground arith)
  taken-IsEnding id p later b catalog r e (has_no_more over ended) o t h = absurd (ground arith)

  skipped-IsEnding :
      (id : Option String) (p : Publication S) (later : List (Publication S)) (b : ServiceBroker S)
      → IsEnding id (p ∷ later) b
      → IsEnding id later b
  skipped-IsEnding id p later b (is_stopped_later same stops once) =
      is_stopped_later same stops (ground arith)
  skipped-IsEnding id p later b (is_over same ended none_later) = is_over same ended (ground arith)
  skipped-IsEnding id p later b (has_no_owner absent ended) = has_no_owner absent ended
  skipped-IsEnding id p later b (has_no_more over ended) = has_no_more over ended

  session_of_ending :
      (id : Option String) (later : List (Publication S)) (b : ServiceBroker S)
      → b.owner ≡ true
      → b.at_eof ≡ false
      → IsEnding id later b
      → b.publication.session_id ≡ id
  session_of_ending id later b o t (is_stopped_later same stops once) = same
  session_of_ending id later b o t (is_over same ended none_later) = same
  session_of_ending id later b o t (has_no_owner absent ended) = absurd (ground arith)
  session_of_ending id later b o t (has_no_more over ended) = absurd (ground arith)

  take_publication-IsEnding :
      (id : Option String) (p : Publication S) (later : List (Publication S)) (b : ServiceBroker S)
      → b.owner ≡ true
      → b.at_eof ≡ false
      → IsEnding id (p ∷ later) b
      → IsEnding id later (take_publication b p)
        × ((take_publication b p).owner ≡ true)
        × ((take_publication b p).at_eof ≡ false)
  unfolding take_publication
  take_publication-IsEnding id p later b o t e =
      let current = session_of_ending id (p ∷ later) b o t e in
      if-elim {A = ServiceBroker S}
        (λ x. IsEnding id later x × (x.owner ≡ true) × (x.at_eof ≡ false))
        (not (same_session p.session_id b.publication.session_id))
        (λ h. (skipped-IsEnding id p later b e, o, t))
        (λ h.
          let same : same_session p.session_id b.publication.session_id ≡ true = ground arith in
          let here : same_session p.session_id id ≡ true =
            ap (same_session p.session_id) (sym current) ∙ same in
          (taken-IsEnding id p later b _ _ (same_session-eq p.session_id id here) e o t here, o, t))

  pub take_publications-IsEnding :
      (id : Option String) (ps later : List (Publication S)) (b : ServiceBroker S)
      → b.owner ≡ true
      → b.at_eof ≡ false
      → IsEnding id (ps ++ later) b
      → IsEnding id later (take_publications b ps)
  unfolding take_publications
  take_publications-IsEnding id [] later b o t e = e
  take_publications-IsEnding id (p ∷ ps) later b o t e =
      let (next, o', t') = take_publication-IsEnding id p (ps ++ later) b o t e in
      take_publications-IsEnding id ps later (take_publication b p) o' t' next

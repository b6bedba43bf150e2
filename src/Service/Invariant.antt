-- ===== src/Service/Invariant.antt =====
-- What holds of the broker whatever is asked of it.
use wlanpi_utilization.Prelude.{
  ◌-◌, ◌≤◌, ℤ, ◌≡◌, refl, sym, ◌∙◌, inl, inr, Bool, true, false, not, Option, none, some, is_some,
  List, [], ◌∷◌, length, length-drop, String, Bool-cases, if-elim, arith,
}
use wlanpi_utilization.Runtime.{is_active}
use wlanpi_utilization.Service.Broker.{
  ServicePayload, Publication, Entry, ServiceBroker, PollAnswers, same_session, update, put_logs,
  trim, take_publication, take_publications, note_failure, note_exit, released, release, incoming,
  read_owner, settle, poll_owner,
}

pub impossible {ℓ} : {A : Type ℓ} → false ≡ true → A
impossible h = absurd (cc)

module _ {S : ServicePayload} where
  -- The process and its channel come and go together, the control file is known as long as there is
  -- a process, and the catalog is bounded. If `clean`, a session that is active has its owner process.
  pub record IsSound (clean : Bool) (b : ServiceBroker S) : Type 0 where
    pub together : b.owner ≡ b.process
    pub owned : clean ≡ true → is_active b.publication.phase ≡ true → b.process ≡ true
    pub placed : b.process ≡ true → is_some b.control_path ≡ true
    pub bounded : length b.catalog ≤ 256

  trim-length : (c : List (Entry S)) → length (trim c) ≤ 256
  unfolding trim
  trim-length c = omega (arith, length-drop (length c - 256) c)

  -- A step that keeps the process.
  record Keeps (clean : Bool) (b b' : ServiceBroker S) : Type 0 where
    sound : IsSound clean b'
    same : b'.process ≡ b.process

  take_publication-Keeps :
      {clean : Bool} (b : ServiceBroker S) (p : Publication S)
      → b.process ≡ true
      → IsSound clean b
      → Keeps clean b (take_publication b p)
  unfolding take_publication
  take_publication-Keeps b p live s =
      elim (Bool-cases (same_session p.session_id b.publication.session_id)) [
        | inr c ↦ rw c (record { sound = s; same = refl })
        | inl c ↦ rw c (record {
          sound = record {
            together = s.together;
            owned = λ k h. live;
            placed = s.placed;
            bounded = trim-length (put_logs b.catalog p.session_id (S.closed p.others));
          };
          same = refl;
        })
      ]

  take_publications-Keeps :
      {clean : Bool} (ps : List (Publication S)) (b : ServiceBroker S)
      → b.process ≡ true
      → IsSound clean b
      → Keeps clean b (take_publications b ps)
  unfolding take_publications
  take_publications-Keeps [] b live s = record { sound = s; same = refl }
  take_publications-Keeps (p ∷ ps) b live s =
      let first = take_publication-Keeps b p live s in
      let rest =
        take_publications-Keeps ps (take_publication b p) (first.same ∙ live) first.sound in
      record { sound = rest.sound; same = rest.same ∙ first.same }

  note_failure-IsSound :
      {clean : Bool} (b : ServiceBroker S) (m : Option String) (alive : Bool)
      → IsSound clean b
      → IsSound clean (note_failure b m alive)
  unfolding note_failure update
  note_failure-IsSound b none alive s = s
  note_failure-IsSound b (some m) true s = record {
    together = s.together;
    owned = s.owned;
    placed = s.placed;
    bounded = s.bounded;
  }
  note_failure-IsSound b (some m) false s = record {
    together = s.together;
    owned = s.owned;
    placed = s.placed;
    bounded = s.bounded;
  }

  released-IsSound :
      {clean : Bool} (b : ServiceBroker S) (closed removed : Option String)
      → is_active b.publication.phase ≡ false
      → IsSound clean b
      → IsSound clean (released b closed removed).0
  unfolding released
  released-IsSound b (some m) removed over s = s
  released-IsSound b none (some m) over s = record {
    together = refl;
    owned = λ k h. sym over ∙ h;
    placed = impossible;
    bounded = s.bounded;
  }
  released-IsSound b none none over s = record {
    together = refl;
    owned = λ k h. sym over ∙ h;
    placed = impossible;
    bounded = s.bounded;
  }

  -- The end of an owner leaves no active session.
  pub note_exit-over :
      (b : ServiceBroker S) (code : ℤ) → is_active (note_exit b code).publication.phase ≡ false
  unfolding note_exit update
  note_exit-over b code =
      if-elim {A = ServiceBroker S} (λ x. is_active x.publication.phase ≡ false)
        (is_active b.publication.phase) (λ h. refl) (λ h. h)

  note_exit-IsSound :
      {clean : Bool} (b : ServiceBroker S) (code : ℤ)
      → IsSound clean b
      → IsSound clean (note_exit b code)
  unfolding note_exit update
  note_exit-IsSound {clean} b code s =
      if-elim (IsSound clean) (is_active b.publication.phase)
        (λ h. record {
          together = s.together;
          owned = λ k. impossible;
          placed = s.placed;
          bounded = s.bounded;
        })
        (λ h. s)

  release-IsSound :
      {clean : Bool} (b : ServiceBroker S) (code : Option ℤ) (closed removed : Option String)
      → IsSound clean b
      → IsSound clean (release b code closed removed).0
  unfolding release
  release-IsSound b none closed removed s = s
  release-IsSound {clean} b (some code) closed removed s =
      if-elim {A = ServiceBroker S × Option String} (λ x. IsSound clean x.0) b.at_eof
        (λ h.
          released-IsSound (note_exit b code) closed removed (note_exit-over b code)
            (note_exit-IsSound b code s))
        (λ h. s)

  read_owner-IsSound :
      {clean : Bool} (b : ServiceBroker S) (a : PollAnswers S)
      → b.process ≡ true
      → IsSound clean b
      → IsSound clean (read_owner b a)
  unfolding read_owner
  read_owner-IsSound b a live s =
      let taken = take_publications-Keeps (incoming b.at_eof a.publications) b live s in
      record {
        together = taken.sound.together;
        owned = taken.sound.owned;
        placed = taken.sound.placed;
        bounded = taken.sound.bounded;
      }

  settle-IsSound :
      {clean : Bool} (b : ServiceBroker S) (a : PollAnswers S) (escaped : Option String)
      → IsSound clean b
      → IsSound clean (settle b a escaped).0
  unfolding settle
  settle-IsSound b a (some m) s = s
  settle-IsSound b a none s =
      release-IsSound _ a.code a.closed a.removed (note_failure-IsSound b a.failure a.alive s)

  pub poll_owner-IsSound :
      {clean : Bool} (b : ServiceBroker S) (a : PollAnswers S)
      → IsSound clean b
      → IsSound clean (poll_owner b a).0
  unfolding poll_owner
  poll_owner-IsSound {clean} b a s =
      if-elim {A = ServiceBroker S × Option String} (λ x. IsSound clean x.0) (not b.owner) (λ h. s)
        (λ h.
          let live : b.process ≡ true = sym s.together ∙ ground arith in
          settle-IsSound (read_owner b a) a a.escaped (read_owner-IsSound b a live s))

-- ===== src/Analyzer/Projection/Clients.antt =====
-- One frame counts the same in both passes.
use wlanpi_utilization.Prelude.{
  ◌≡◌, refl, sym, ap, ◌∙◌, inl, inr, Bool, true, ◌&&◌, Option, none, some, is_some, List, [], ◌∷◌,
  String, str_eq, eq_iff, has_text, Bool-cases, Option-cases, if◌then◌else◌,
}
use wlanpi_utilization.Frames.{is_true, is_number}
use wlanpi_utilization.Analyzer.Projection.{
  AddressOperations, RetainedFrame, BssidFrameSummary, Tally, get_summary, put_summary, known_bssid,
  is_eligible, frame_addresses, first_known, first_canonical, associated_bssid, known_frame_bssid,
  link_addresses,
}
use wlanpi_utilization.Analyzer.Projection.Live.{
  add_client, see_client, is_client, see_clients, count_all, count_live, clients_live,
  summarise_live, live_in_scope,
}
use wlanpi_utilization.Analyzer.Projection.Batch.{
  add_client_at, batch_client, batch_clients, clients_batch, summarise_batch, batch_in_scope,
}
use wlanpi_utilization.Analyzer.Projection.Times.{AllBy, count_batch-live}

-- The BSSID has a summary.
abbrev Has : List (String × BssidFrameSummary) → String → Type 0
Has l b = (s : BssidFrameSummary) × (get_summary l b ≡ some s)

put-Has :
    (l : List (String × BssidFrameSummary)) (b : String) (s : BssidFrameSummary)
    → Has (put_summary l b s) b
unfolding put_summary get_summary
put-Has [] b s = let same : str_eq b b ≡ true = (eq_iff b b).1 refl in (s, rw same refl)
put-Has ((k, old) ∷ rest) b s = elim (Bool-cases (str_eq k b)) [
  | inl e ↦ (s, rw e (rw e refl))
  | inr e ↦ let (s', h) = put-Has rest b s in (s', rw e (rw e h))
]

add_client-Has :
    (l : List (String × BssidFrameSummary)) (b a : String)
    → Has l b
    → (add_client_at l b a ≡ some (add_client l b a)) × Has (add_client l b a) b
unfolding add_client_at add_client
add_client-Has l b a (s, h) =
    (rw (add_client_at, add_client, h) refl, rw (add_client, h) (put-Has l b _))

-- What the two passes do with the clients of a frame whose BSSID is known.
module _ (O : AddressOperations) (known : List (String × String)) where
  see_client-Has :
      (t : Tally) (f : RetainedFrame) (b frame_bssid : String) (eligible : Bool) (a : String)
      → Has t.by_bssid b
      → Has (see_client t f (some b) frame_bssid eligible a).by_bssid b
  unfolding see_client
  see_client-Has t f b frame_bssid eligible a h = (add_client-Has t.by_bssid b a h).1

  batch_client-live :
      (t : Tally) (f : RetainedFrame) (b frame_bssid : String) (eligible : Bool) (a : String)
      → known_bssid known frame_bssid ≡ some b
      → Has t.by_bssid b
      → batch_client O known t f frame_bssid eligible a
        ≡ some (see_client t f (some b) frame_bssid eligible a)
  unfolding batch_client see_client
  batch_client-live t f b frame_bssid eligible a e h =
      rw (batch_client, e, (add_client-Has t.by_bssid b a h).0) refl

  batch_clients-live :
      (addresses : List String) (t : Tally) (f : RetainedFrame) (b frame_bssid : String)
      (eligible : Bool)
      → known_bssid known frame_bssid ≡ some b
      → Has t.by_bssid b
      → batch_clients O known t f frame_bssid eligible addresses
        ≡ some (see_clients O known t f (some b) frame_bssid eligible addresses)
  unfolding batch_clients see_clients
  batch_clients-live [] t f b frame_bssid eligible e h = refl
  batch_clients-live (a ∷ rest) t f b frame_bssid eligible e h =
      elim (Bool-cases (is_client O known frame_bssid a)) [
        | inl c ↦
            rw (c, batch_clients, batch_client-live t f b frame_bssid eligible a e h)
              (batch_clients-live rest _ f b frame_bssid eligible e
                (see_client-Has t f b frame_bssid eligible a h))
        | inr c ↦ rw (batch_clients, c) (batch_clients-live rest t f b frame_bssid eligible e h)
      ]

  first_canonical-known :
      (addresses : List String) (c : String)
      → first_canonical O known addresses ≡ some c
      → (b : String) × (known_bssid known c ≡ some b) × (first_known O known addresses ≡ some b)
  unfolding first_canonical first_known
  first_canonical-known [] c e = absurd (cc)
  first_canonical-known (a ∷ rest) c e = elim (Option-cases (known_bssid known (O.canonical a))) [
    | inl n ↦
        let (b, p, q) = first_canonical-known rest c (rw n at e) in (b, p, rw (first_known, n) q)
    | inr (b, p) ↦
        let same : O.canonical a ≡ c = option_injective (rw p at e) in
        (b, ap (known_bssid known) (sym same) ∙ p, rw (first_known, p) refl)
  ]
    where
      option_injective : {x y : String} → some x ≡ some y → x ≡ y
      option_injective h = cc

  known_frame-associated :
      (f : RetainedFrame) (c : String)
      → known_frame_bssid O known f ≡ some c
      → (b : String) × (known_bssid known c ≡ some b) × (associated_bssid O known f ≡ some b)
  unfolding known_frame_bssid associated_bssid
  known_frame-associated f c e =
      let (b, p, q) = first_canonical-known (frame_addresses f) c e in
      (b, p, rw (associated_bssid, q) refl)

  clients_batch-live :
      (t : Tally) (f : RetainedFrame) (eligible : Bool)
      → ((b : String) → associated_bssid O known f ≡ some b → Has t.by_bssid b)
      → clients_batch O known t f eligible
        ≡ some (clients_live O known t f (associated_bssid O known f) eligible)
  unfolding clients_batch clients_live
  clients_batch-live t f eligible has = elim (Option-cases (known_frame_bssid O known f)) [
    | inl n ↦ rw (clients_batch, clients_live, n) refl
    | inr (c, e) ↦
        let (b, p, q) = known_frame-associated f c e in
        let clients = batch_clients-live (link_addresses O f) t f b c eligible p (has b q) in
        elim (Bool-cases (has_text (link_addresses O f) c)) [
          | inl h ↦ rw (clients_batch, clients_live, e, q, h, clients) refl
          | inr h ↦ rw (clients_batch, clients_live, e, h) refl
        ]
  ]

  -- The summaries before the clients.
  summarise-live :
      (t : Tally) (f : RetainedFrame) (b : Option String) (observed eligible retry : Bool)
      → AllBy f.timestamp t.by_bssid
      → summarise_batch t f b observed eligible retry ≡ summarise_live t f b observed eligible retry
  summarise-live t f none observed eligible retry h = refl
  summarise-live t f (some b) observed eligible retry h =
      count_batch-live t f b observed eligible retry h

  summarise-Has :
      (t : Tally) (f : RetainedFrame) (o : Option String) (observed eligible retry : Bool)
      (b : String)
      → o ≡ some b
      → Has (summarise_live t f o observed eligible retry).by_bssid b
  unfolding count_live
  summarise-Has t f none observed eligible retry b e = absurd (cc)
  summarise-Has t f (some b') observed eligible retry b e =
      let same : b' ≡ b = cc in rw same (put-Has t.by_bssid b _)

  pub batch_in_scope-live :
      (t : Tally) (f : RetainedFrame)
      → AllBy f.timestamp t.by_bssid
      → batch_in_scope O known t f ≡ some (live_in_scope O known t f)
  unfolding batch_in_scope live_in_scope
  batch_in_scope-live t f h =
      let observed = is_some f.retry_flag in
      let eligible = is_eligible O f in
      let retry = eligible && is_true f.retry_flag in
      let b = associated_bssid O known f in
      let c = count_all t observed eligible retry in
      let s = summarise_live c f b observed eligible retry in
      ap (λ x. if is_number f.frame_type 2 then clients_batch O known x f eligible else some x)
        (summarise-live c f b observed eligible retry h)
      ∙ elim (Bool-cases (is_number f.frame_type 2)) [
        | inl e ↦
            rw e (clients_batch-live s f eligible (summarise-Has c f b observed eligible retry))
        | inr e ↦ rw e refl
      ]

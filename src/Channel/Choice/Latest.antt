-- ===== src/Channel/Choice/Latest.antt =====
-- The dictionary `latest` of `choose_capture_definition` forgets no address and keeps the newest.
use mathlib.Core.List.Memᴰ.{head, tail}
use mathlib.Core.List.Memᴰ
use wlanpi_utilization.Prelude.{
  ℤ, ◌≤ℤ◌, leb_ℤ, leb_ℤ→le, ◌≡◌, refl, sym, ap, ◌∙◌, inl, inr, Bool, true, false, List, [], ◌∷◌,
  Memᴰ, str_eq, eq_iff, Bool-cases, arith,
}
use wlanpi_utilization.Channel.Choice.{BssidChannelObservation, put_latest, collect}

-- The entry for x's address is x or a later observation.
pub record IsKept (latest : List BssidChannelObservation) (x : BssidChannelObservation)
    : Type 0 where
  pub entry : BssidChannelObservation
  pub is_entry : Memᴰ entry latest
  pub same_address : entry.bssid ≡ x.bssid
  pub is_later : x.observed_at ≤ℤ entry.observed_at

later_refl : (x : BssidChannelObservation) → x.observed_at ≤ℤ x.observed_at
later_refl x = omega arith

above : (a b : ℤ) → leb_ℤ a b ≡ false → b ≤ℤ a
above a b h = ground arith

module _ (o : BssidChannelObservation) where
  IsKept-tail :
      {q : BssidChannelObservation} {latest : List BssidChannelObservation}
      {x : BssidChannelObservation}
      → IsKept latest x
      → IsKept (q ∷ latest) x
  IsKept-tail k = record {
    entry = k.entry;
    is_entry = tail k.is_entry;
    same_address = k.same_address;
    is_later = k.is_later;
  }

  put_latest-new : (ps : List BssidChannelObservation) → IsKept (put_latest o ps) o
  unfolding put_latest
  put_latest-new [] = record {
    entry = o;
    is_entry = head refl;
    same_address = refl;
    is_later = later_refl o;
  }
  put_latest-new (p ∷ ps) = elim (Bool-cases (str_eq p.bssid o.bssid)) [
    | inr e ↦ rw (e, put_latest) (IsKept-tail (put_latest-new ps))
    | inl e ↦ elim (Bool-cases (leb_ℤ p.observed_at o.observed_at)) [
      | inl g ↦
          rw (e, put_latest, g)
            (record {
              entry = o;
              is_entry = head refl;
              same_address = refl;
              is_later = later_refl o;
            })
      | inr g ↦
          rw (e, put_latest, g)
            (record {
              entry = p;
              is_entry = head refl;
              same_address = (eq_iff p.bssid o.bssid).0 e;
              is_later = above p.observed_at o.observed_at g;
            })
    ]
  ]

  put_latest-old :
      (ps : List BssidChannelObservation) (x : BssidChannelObservation)
      → IsKept ps x
      → IsKept (put_latest o ps) x
  unfolding put_latest
  put_latest-old [] x k = absurd (Memᴰ.not-nil k.is_entry)
  put_latest-old (p ∷ ps) x k = elim (Memᴰ.cases_cons k.is_entry) [
    | inl q ↦
        let address : p.bssid ≡ x.bssid = ap (λ r. r.bssid) (sym q) ∙ k.same_address in
        let later : x.observed_at ≤ℤ p.observed_at = rw q at k.is_later in
        elim (Bool-cases (str_eq p.bssid o.bssid)) [
          | inr e ↦
              rw (e, put_latest)
                (record {
                  entry = p;
                  is_entry = head refl;
                  same_address = address;
                  is_later = later;
                })
          | inl e ↦ elim (Bool-cases (leb_ℤ p.observed_at o.observed_at)) [
            | inl g ↦
                let newer : p.observed_at ≤ℤ o.observed_at =
                  leb_ℤ→le p.observed_at o.observed_at g in
                rw (e, put_latest, g)
                  (record {
                    entry = o;
                    is_entry = head refl;
                    same_address = sym ((eq_iff p.bssid o.bssid).0 e) ∙ address;
                    is_later = omega (arith, later, newer);
                  })
            | inr g ↦
                rw (e, put_latest, g)
                  (record {
                    entry = p;
                    is_entry = head refl;
                    same_address = address;
                    is_later = later;
                  })
          ]
        ]
    | inr t ↦
        let rest : IsKept ps x = record {
          entry = k.entry;
          is_entry = t;
          same_address = k.same_address;
          is_later = k.is_later;
        } in
        elim (Bool-cases (str_eq p.bssid o.bssid)) [
          | inr e ↦ rw (e, put_latest) (IsKept-tail (put_latest-old ps x rest))
          | inl e ↦ elim (Bool-cases (leb_ℤ p.observed_at o.observed_at)) [
            | inl g ↦ rw (e, put_latest, g) (IsKept-tail rest)
            | inr g ↦ rw (e, put_latest, g) (IsKept-tail rest)
          ]
        ]
  ]

module _ (fresh : BssidChannelObservation → Bool) where
  collect-old :
      (latest os : List BssidChannelObservation) (x : BssidChannelObservation)
      → IsKept latest x
      → IsKept (collect fresh latest os) x
  unfolding collect
  collect-old latest [] x k = k
  collect-old latest (o ∷ os) x k = elim (Bool-cases (fresh o)) [
    | inl e ↦ rw (e, collect) (collect-old (put_latest o latest) os x (put_latest-old o latest x k))
    | inr e ↦ rw (e, collect) (collect-old latest os x k)
  ]

  -- An observation that passes the guards is not forgotten: what is collected has an entry for its
  -- address, and the entry is not older.
  pub collect-IsKept :
      (latest os : List BssidChannelObservation) (x : BssidChannelObservation)
      → Memᴰ x os
      → fresh x ≡ true
      → IsKept (collect fresh latest os) x
  unfolding collect
  collect-IsKept latest [] x m h = absurd (Memᴰ.not-nil m)
  collect-IsKept latest (o ∷ os) x m h = elim (Memᴰ.cases_cons m) [
    | inl q ↦
        let first : fresh o ≡ true = ap fresh (sym q) ∙ h in
        rw (first, collect, q) (collect-old (put_latest o latest) os o (put_latest-new o latest))
    | inr t ↦ elim (Bool-cases (fresh o)) [
      | inl e ↦ rw (e, collect) (collect-IsKept (put_latest o latest) os x t h)
      | inr e ↦ rw (e, collect) (collect-IsKept latest os x t h)
    ]
  ]

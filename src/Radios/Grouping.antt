-- ===== src/Radios/Grouping.antt =====
-- The groups of radio_grouping.py are complete-link, and lose no state.
use mathlib.Core.List.Memᴰ.{head, tail}
use mathlib.Core.List.Memᴰ
use wlanpi_utilization.Prelude.{
  ◌≡◌, refl, inl, inr, Bool, true, List, [], ◌∷◌, ◌++◌, Memᴰ, all, all-mem, Bool-cases,
}
use wlanpi_utilization.Radios.{RadioMember, place, group_members}

module _ (same : RadioMember → RadioMember → Bool) where
  -- Each member was compatible with all that the group held when it joined.
  pub data Linked : List RadioMember → Type 0 where
    single : (s : RadioMember) → Linked (s ∷ [])
    joined :
        (group : List RadioMember) (s : RadioMember)
        → Linked group
        → ((m : RadioMember) → Memᴰ m group → same s m ≡ true)
        → Linked (group ++ (s ∷ []))

  abbrev AllLinked : List (List RadioMember) → Type 0
  AllLinked groups = (g : List RadioMember) → Memᴰ g groups → Linked g

  place-Linked :
      (s : RadioMember) (groups : List (List RadioMember))
      → AllLinked groups
      → AllLinked (place same s groups)
  unfolding place
  place-Linked s [] h =
      λ g m. elim (Memᴰ.cases_cons m) [ inl e ↦ rw e (single s) | inr t ↦ absurd (Memᴰ.not-nil t) ]
  place-Linked s (group ∷ groups) h = λ g m. elim (Bool-cases (all (same s) group)) [
    | inl e ↦ elim (Memᴰ.cases_cons (rw (e, place) at m)) [
      | inl q ↦ rw q (joined group s (h group (head refl)) (λ x k. all-mem (same s) group e k))
      | inr t ↦ h g (tail t)
    ]
    | inr e ↦ elim (Memᴰ.cases_cons (rw (e, place) at m)) [
      | inl q ↦ rw q (h group (head refl))
      | inr t ↦ place-Linked s groups (λ x k. h x (tail k)) g t
    ]
  ]

  -- x is a member of one of the groups.
  abbrev pub Grouped : RadioMember → List (List RadioMember) → Type 0
  Grouped x groups = (g : List RadioMember) × Memᴰ g groups × Memᴰ x g

  place-Grouped :
      (s : RadioMember) (groups : List (List RadioMember))
      → Grouped s (place same s groups)
        × ((x : RadioMember) → Grouped x groups → Grouped x (place same s groups))
  unfolding place
  place-Grouped s [] = ((s ∷ [], head refl, head refl), λ x (g, m, k). absurd (Memᴰ.not-nil m))
  place-Grouped s (group ∷ groups) = elim (Bool-cases (all (same s) group)) [
    | inl e ↦ rw e (
      (group ++ (s ∷ []), head refl, Memᴰ.append_right group (head refl)),
      λ x (g, m, k). elim (Memᴰ.cases_cons m) [
        | inl q ↦ (group ++ (s ∷ []), head refl, Memᴰ.append_left (s ∷ []) (rw q at k))
        | inr t ↦ (g, tail t, k)
      ],
    )
    | inr e ↦
        let ((g', m', k'), keep) = place-Grouped s groups in
        rw e (
          (g', tail m', k'),
          λ x (g, m, k). elim (Memᴰ.cases_cons m) [
            | inl q ↦ (group, head refl, rw q at k)
            | inr t ↦ let (g2, m2, k2) = keep x (g, t, k) in (g2, tail m2, k2)
          ],
        )
  ]

  group_members-lem :
      (groups : List (List RadioMember)) (states : List RadioMember)
      → AllLinked groups
      → AllLinked (group_members same groups states)
        × ((x : RadioMember) → Grouped x groups → Grouped x (group_members same groups states))
        × ((x : RadioMember) → Memᴰ x states → Grouped x (group_members same groups states))
  unfolding group_members
  group_members-lem groups [] h = (h, λ x k. k, λ x m. absurd (Memᴰ.not-nil m))
  group_members-lem groups (s ∷ ss) h =
      let (new, keep) = place-Grouped s groups in
      let (linked, kept, all_in) =
        group_members-lem (place same s groups) ss (place-Linked s groups h) in
      (
        linked,
        λ x k. kept x (keep x k),
        λ x m. elim (Memᴰ.cases_cons m) [ inl q ↦ rw q (kept s new) | inr t ↦ all_in x t ],
      )

  -- Every group is built by complete-link: a state joined it only where it was compatible with each
  -- member that was there. Every state is in some group.
  pub group_members-Linked :
      (states : List RadioMember)
      → ((g : List RadioMember) → Memᴰ g (group_members same [] states) → Linked g)
        × ((x : RadioMember) → Memᴰ x states → Grouped x (group_members same [] states))
  group_members-Linked states =
      let (a, b, c) = group_members-lem [] states (λ g m. absurd (Memᴰ.not-nil m)) in (a, c)

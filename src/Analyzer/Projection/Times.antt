-- ===== src/Analyzer/Projection/Times.antt =====
-- The first and the last time of a summary, in both passes.
use wlanpi_utilization.Prelude.{
  ℤ, pos, negsuc, ltb_ℤ, leb_ℤ, ◌≡◌, refl, ap, Bool, true, false, Option, none, some, List, [], ◌∷◌,
  String, str_eq, if-elim, arith, if◌then◌else◌,
}
use wlanpi_utilization.Analyzer.Projection.{
  RetainedFrame, BssidFrameSummary, Tally, get_summary, put_summary,
}
use wlanpi_utilization.Analyzer.Projection.Live.{get_or_new, count_in, put_times, count_live}
use wlanpi_utilization.Analyzer.Projection.Batch.{put_extremes, count_batch}

-- The times of a summary, both or neither, are no later than `t`.
abbrev pub IsBy : ℤ → Option ℤ → Option ℤ → Type 0
IsBy t none none = Unit
IsBy t (some first) (some last) = (leb_ℤ first t ≡ true) × (leb_ℤ last t ≡ true)
IsBy t _ _ = ⊥

abbrev pub AllBy : ℤ → List (String × BssidFrameSummary) → Type 0
AllBy t [] = Unit
AllBy t ((b, s) ∷ rest) = IsBy t s.first_timestamp s.last_timestamp × AllBy t rest

not_before : (a b : ℤ) → leb_ℤ a b ≡ true → ltb_ℤ a b ≡ false → a ≡ b
not_before (pos a) (pos b) h n = ap pos (ground arith)
not_before (pos a) (negsuc b) h n = absurd (ground arith)
not_before (negsuc a) (pos b) h n = absurd (ground arith)
not_before (negsuc a) (negsuc b) h n = ap negsuc (ground arith)

not_after : (a b : ℤ) → leb_ℤ a b ≡ true → ltb_ℤ b a ≡ false
not_after a b h = ground arith

at_most_itself : (a : ℤ) → leb_ℤ a a ≡ true
at_most_itself a = ground arith

at_most_later : (a b c : ℤ) → leb_ℤ a b ≡ true → leb_ℤ b c ≡ true → leb_ℤ a c ≡ true
at_most_later a b c h k = ground arith

later_of :
    (last t : ℤ) → leb_ℤ last t ≡ true → (if ltb_ℤ last t then some t else some last) ≡ some t
later_of last t h =
    if-elim (λ o. o ≡ some t) (ltb_ℤ last t) (λ e. refl) (λ e. ap some (not_before last t h e))

extremes_of :
    (t : ℤ) (s : BssidFrameSummary) (first last : Option ℤ)
    → IsBy t first last
    → put_extremes (record s { first_timestamp = first; last_timestamp = last }) t
      ≡ put_times (record s { first_timestamp = first; last_timestamp = last }) t
unfolding put_extremes put_times
extremes_of t s none none h = refl
extremes_of t s (some first) (some last) h =
    rw (put_extremes, not_after first t h.0, later_of last t h.1) refl
extremes_of t s none (some last) h = absurd h
extremes_of t s (some first) none h = absurd h

pub put_times-IsBy :
    (t : ℤ) (s : BssidFrameSummary) (first last : Option ℤ)
    → IsBy t first last
    → IsBy t
        (put_times (record s { first_timestamp = first; last_timestamp = last }) t).first_timestamp
        (put_times (record s { first_timestamp = first; last_timestamp = last }) t).last_timestamp
unfolding put_times
put_times-IsBy t s none none h = (at_most_itself t, at_most_itself t)
put_times-IsBy t s (some first) (some last) h = (h.0, at_most_itself t)
put_times-IsBy t s none (some last) h = absurd h
put_times-IsBy t s (some first) none h = absurd h

IsBy-later :
    (t u : ℤ) (first last : Option ℤ) → leb_ℤ t u ≡ true → IsBy t first last → IsBy u first last
IsBy-later t u none none k h = tt
IsBy-later t u (some first) (some last) k h =
    (at_most_later first t u h.0 k, at_most_later last t u h.1 k)
IsBy-later t u none (some last) k h = absurd h
IsBy-later t u (some first) none k h = absurd h

pub AllBy-later :
    (t u : ℤ) (l : List (String × BssidFrameSummary)) → leb_ℤ t u ≡ true → AllBy t l → AllBy u l
AllBy-later t u [] k h = tt
AllBy-later t u ((b, s) ∷ rest) k h =
    (IsBy-later t u s.first_timestamp s.last_timestamp k h.0, AllBy-later t u rest k h.1)

pub get-IsBy :
    (t : ℤ) (l : List (String × BssidFrameSummary)) (b : String)
    → AllBy t l
    → IsBy t
        (get_or_new (get_summary l b)).first_timestamp
        (get_or_new (get_summary l b)).last_timestamp
unfolding get_summary
get-IsBy t [] b h = tt
get-IsBy t ((k, s) ∷ rest) b h =
    if-elim (λ o. IsBy t (get_or_new o).first_timestamp (get_or_new o).last_timestamp) (str_eq k b)
      (λ e. h.0) (λ e. get-IsBy t rest b h.1)

pub put-AllBy :
    (t : ℤ) (l : List (String × BssidFrameSummary)) (b : String) (s : BssidFrameSummary)
    → IsBy t s.first_timestamp s.last_timestamp
    → AllBy t l
    → AllBy t (put_summary l b s)
unfolding put_summary
put-AllBy t [] b s h a = (h, tt)
put-AllBy t ((k, old) ∷ rest) b s h a =
    if-elim (AllBy t) (str_eq k b) (λ e. (h, a.1)) (λ e. (a.0, put-AllBy t rest b s h a.1))

-- The count of a frame is the same in both.
pub count_batch-live :
    (t : Tally) (f : RetainedFrame) (b : String) (observed eligible retry : Bool)
    → AllBy f.timestamp t.by_bssid
    → count_batch t f b observed eligible retry ≡ count_live t f b observed eligible retry
unfolding count_batch count_live count_in
count_batch-live t f b observed eligible retry h =
    let s = get_or_new (get_summary t.by_bssid b) in
    ap (λ x. record t { by_bssid = put_summary t.by_bssid b x })
      (extremes_of f.timestamp (count_in s observed eligible retry) s.first_timestamp
        s.last_timestamp (get-IsBy f.timestamp t.by_bssid b h))

-- ===== src/Channel/Frequency/RoundTrip.antt =====
-- `frequency_to_channel` and `channel_to_frequency` of channel.py undo one another.
use wlanpi_utilization.Prelude.{
  ℕ, ◌+◌, ◌-◌, ◌*◌, ◌/◌, ◌≤◌, ℤ, pos, negsuc, ◌≡◌, refl, ◌↔◌, inl, inr, some, none, arith, ◌==◌,
  leb, ltb, leb→le, true, false, ap, ◌%◌, ◌&&◌, Bool-cases,
}
use wlanpi_utilization.Channel.Frequency.{
  Band, ghz2_4, ghz5, ghz6, frequency_to_channel, channel_to_frequency,
}

-- The numbering of the three grids, with the channel numbers below 1 that the 6 GHz formula has.
data Numbered (c f : ℤ) : Type 0 where
  japan : c ≡ pos 14 → f ≡ pos 2484 → Numbered c f
  low : (n : ℕ) → 1 ≤ n → n ≤ 13 → c ≡ pos n → f ≡ pos (2407 + n * 5) → Numbered c f
  middle : (n : ℕ) → 1 ≤ n → n ≤ 184 → c ≡ pos n → f ≡ pos (5000 + n * 5) → Numbered c f
  high : (n : ℕ) → n ≤ 235 → c ≡ pos n → f ≡ pos (5950 + n * 5) → Numbered c f
  below : (n : ℕ) → n ≤ 4 → c ≡ negsuc n → f ≡ pos (5945 - n * 5) → Numbered c f

channel_of_low : (n : ℕ) → 1 ≤ n → n ≤ 13 → frequency_to_channel (pos (2407 + n * 5)) ≡ some (pos n)
unfolding frequency_to_channel
channel_of_low n lo hi = ground arith

channel_of_middle :
    (n : ℕ) → 1 ≤ n → n ≤ 184 → frequency_to_channel (pos (5000 + n * 5)) ≡ some (pos n)
unfolding frequency_to_channel
channel_of_middle n lo hi = ground arith

channel_of_high : (n : ℕ) → n ≤ 235 → frequency_to_channel (pos (5950 + n * 5)) ≡ some (pos n)
unfolding frequency_to_channel
channel_of_high n hi = ground arith

channel_of_below : (n : ℕ) → n ≤ 4 → frequency_to_channel (pos (5945 - n * 5)) ≡ some (negsuc n)
unfolding frequency_to_channel
channel_of_below n hi = ground arith

channel_of_Numbered : (c f : ℤ) → Numbered c f → frequency_to_channel f ≡ some c
channel_of_Numbered c f (japan p q) = rw (p, q) (unfold frequency_to_channel in refl)
channel_of_Numbered c f (low n lo hi p q) = rw (p, q) (channel_of_low n lo hi)
channel_of_Numbered c f (middle n lo hi p q) = rw (p, q) (channel_of_middle n lo hi)
channel_of_Numbered c f (high n hi p q) = rw (p, q) (channel_of_high n hi)
channel_of_Numbered c f (below n hi p q) = rw (p, q) (channel_of_below n hi)

Numbered-of_frequency : (c f : ℤ) (b : Band) → channel_to_frequency c b ≡ some f → Numbered c f
unfolding channel_to_frequency
Numbered-of_frequency (pos c) f ghz2_4 h = elim (Bool-cases (c == 14)) [
  | inl e ↦ japan (ground arith) (ground arith)
  | inr e ↦ low c (ground arith) (ground arith) refl (ground arith)
]
Numbered-of_frequency (pos c) f ghz5 h = middle c (ground arith) (ground arith) refl (ground arith)
Numbered-of_frequency (pos c) f ghz6 h = high c (ground arith) refl (ground arith)
Numbered-of_frequency (negsuc c) f ghz6 h = below c (ground arith) refl (ground arith)
Numbered-of_frequency c f b h = absurd (ground arith)

frequency_of_Numbered : (c f : ℤ) → Numbered c f → (b : Band) × (channel_to_frequency c b ≡ some f)
unfolding channel_to_frequency
frequency_of_Numbered c f (japan p q) = (ghz2_4, ground arith)
frequency_of_Numbered c f (low n lo hi p q) = (ghz2_4, ground arith)
frequency_of_Numbered c f (middle n lo hi p q) = (ghz5, ground arith)
frequency_of_Numbered c f (high n hi p q) = (ghz6, ground arith)
frequency_of_Numbered c f (below n hi p q) = (ghz6, ground arith)

module _ (c : ℤ) (f : ℕ) (h : frequency_to_channel (pos f) ≡ some c) where
  japan_case : (f == 2484) ≡ true → Numbered c (pos f)
  unfolding frequency_to_channel
  japan_case e = japan (ground arith) (ground arith)

  module _ (e : (f == 2484) ≡ false) where
    low_case : leb 2412 f && leb f 2472 && (f - 2407) % 5 == 0 ≡ true → c ≡ pos ((f - 2407) / 5)
    unfolding frequency_to_channel
    low_case g = ground arith

    module _ (g : leb 2412 f && leb f 2472 && (f - 2407) % 5 == 0 ≡ false) where
      middle_case :
          leb 5005 f && ltb f 5925 && (f - 5000) % 5 == 0 ≡ true → c ≡ pos ((f - 5000) / 5)
      unfolding frequency_to_channel
      middle_case m = ground arith

      module _ (m : leb 5005 f && ltb f 5925 && (f - 5000) % 5 == 0 ≡ false) where
        high_range : (5925 ≤ f) × (f ≤ 7125)
        unfolding frequency_to_channel
        high_range = ground arith

        high_case : 5950 ≤ f → (c ≡ pos ((f - 5950) / 5)) × (f % 5 ≡ 0)
        unfolding frequency_to_channel
        high_case k = ground arith

        below_case : f ≤ 5949 → (c ≡ negsuc ((5949 - f) / 5)) × (f % 5 ≡ 0)
        unfolding frequency_to_channel
        below_case k = ground arith

        outer_case : Numbered c (pos f)
        outer_case = elim (Bool-cases (leb 5950 f)) [
          | inl k ↦
              let above : 5950 ≤ f = leb→le 5950 f k in
              let (p, q) = high_case above in
              let (a, b) = high_range in
              high ((f - 5950) / 5) (omega arith) p (ap pos (omega (arith, above, q)))
          | inr k ↦
              let under : f ≤ 5949 = ground arith in
              let (p, q) = below_case under in
              let (a, b) = high_range in
              below ((5949 - f) / 5) (omega arith) p (ap pos (omega (arith, under, q)))
        ]

      inner_case : Numbered c (pos f)
      inner_case = elim (Bool-cases (leb 5005 f && ltb f 5925 && (f - 5000) % 5 == 0)) [
        | inl m ↦
            middle ((f - 5000) / 5) (ground arith) (ground arith) (middle_case m) (ground arith)
        | inr m ↦ outer_case m
      ]

    wide_case : Numbered c (pos f)
    wide_case = elim (Bool-cases (leb 2412 f && leb f 2472 && (f - 2407) % 5 == 0)) [
      | inl g ↦ low ((f - 2407) / 5) (ground arith) (ground arith) (low_case g) (ground arith)
      | inr g ↦ inner_case g
    ]

negative_has_no_channel : (f : ℕ) → frequency_to_channel (negsuc f) ≡ none
unfolding frequency_to_channel
negative_has_no_channel f = ground arith

Numbered-of_channel : (c f : ℤ) → frequency_to_channel f ≡ some c → Numbered c f
Numbered-of_channel c (pos f) h = elim (Bool-cases (f == 2484)) [
  | inl e ↦ japan_case c f h e
  | inr e ↦ wide_case c f h e
]
Numbered-of_channel c (negsuc f) h = absurd (ground (arith, negative_has_no_channel f))

-- A frequency has a channel number exactly when some band's formula gives that frequency for that
-- number; so the number does not depend on the band.
pub frequency_to_channel_iff :
    (f c : ℤ)
    → (frequency_to_channel f ≡ some c) ↔ ((b : Band) × (channel_to_frequency c b ≡ some f))
frequency_to_channel_iff f c = (
  λ h. frequency_of_Numbered c f (Numbered-of_channel c f h),
  λ p. channel_of_Numbered c f (Numbered-of_frequency c f p.0 p.1),
)

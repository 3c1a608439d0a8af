-- ===== src/Reports/Kitchen.antt =====
-- The times that `NormalizeTime` returns.
use revchat.Base.{
  ℕ, zero, suc, ◌+◌, ◌<◌, ◌≤◌, true, false, ◌&&◌, [], ◌∷◌, ◌++◌, Option, none, some, if◌then◌else◌,
  ltb, leb, nat_eq, subst, ◌≡◌, refl, ap, ◌∙◌, arith, Bool-cases, inl, inr,
}
use revchat.Base.Text.{Text, codes, text_eq, text_beq}
use revchat.Channel.Create.{digits, decimal}
use revchat.Channel.Pattern.{is_digit}
use revchat.Reports.Time.{
  colon, time_pattern, padded, to_upper, Layout, clock, kitchen, Clock, get_num, half_of_day,
  last_hour, with_minute, after_minute, parse_minute, parse_hour, parse_time, two_digits, hour12,
  format_kitchen, layout_of, formatted, normalize_time,
}

abbrev pub IsTime : Clock → Type 0
IsTime t = (t.hour < 24) × (t.minute < 60)

IsTimeIf : Option Clock → Type 0
IsTimeIf none = Unit
IsTimeIf (some t) = IsTime t

half_of_day-lt :
    (h : ℕ) (s : Text)
    → h ≤ 12
    → (o : Option ℕ) → half_of_day h s ≡ o
    → (n : ℕ) → o ≡ some n
    → n < 24
unfolding half_of_day
half_of_day-lt h s le o e n f = ground (arith, e, f)

with_minute-IsTimeIf :
    (m : ℕ) (o : Option ℕ) → m < 60 → ((n : ℕ) → o ≡ some n → n < 24) → IsTimeIf (with_minute m o)
unfolding IsTimeIf
with_minute-IsTimeIf m none lt h = tt
with_minute-IsTimeIf m (some n) lt h = (h n refl, lt)

after_minute-IsTimeIf :
    (l : Layout) (h m : ℕ) (s : Text) → h ≤ last_hour l → m < 60 → IsTimeIf (after_minute l h m s)
unfolding after_minute IsTimeIf
after_minute-IsTimeIf clock h m [] le lt = (omega (arith, le), lt)
after_minute-IsTimeIf clock h m (c ∷ s) le lt = tt
after_minute-IsTimeIf kitchen h m s le lt =
    with_minute-IsTimeIf m (half_of_day h s) lt (half_of_day-lt h s le (half_of_day h s) refl)

parse_minute-IsTimeIf :
    (l : Layout) (h : ℕ) (o : Option (ℕ × Text)) → h ≤ last_hour l → IsTimeIf (parse_minute l h o)
unfolding parse_minute IsTimeIf
parse_minute-IsTimeIf l h none le = tt
parse_minute-IsTimeIf l h (some (m, s)) le = elim (Bool-cases (ltb m 60)) [
  | inl lt ↦ rw (lt, parse_minute) (after_minute-IsTimeIf l h m s le (ground (arith, lt)))
  | inr ge ↦ rw (ge, parse_minute) tt
]

parse_hour-IsTimeIf : (l : Layout) (o : Option (ℕ × Text)) → IsTimeIf (parse_hour l o)
unfolding parse_hour IsTimeIf
parse_hour-IsTimeIf l none = tt
parse_hour-IsTimeIf l (some (h, [])) = tt
parse_hour-IsTimeIf l (some (h, c ∷ s)) =
    elim (Bool-cases (leb h (last_hour l) && nat_eq c colon)) [
      | inl fits ↦
          rw (fits, parse_hour) (parse_minute-IsTimeIf l h (get_num true s) (ground (arith, fits)))
      | inr bad ↦ rw (bad, parse_hour) tt
    ]

formatted-IsTime :
    (o : Option Clock) (r : Text)
    → IsTimeIf o
    → formatted o ≡ some r
    → (t : Clock) × IsTime t × (r ≡ format_kitchen t)
unfolding IsTimeIf
formatted-IsTime none r h e = absurd (ground (arith, e))
formatted-IsTime (some t) r h e = (t, h, cc)

decimal-one : (n : ℕ) (s : Text) → n < 10 → decimal n s ≡ (48 + n) ∷ s
unfolding decimal digits
decimal-one zero s lt = refl
decimal-one (suc n) s lt = ground arith

decimal-two : (n : ℕ) (s : Text) → 10 ≤ n → n < 13 → decimal n s ≡ 49 ∷ (38 + n) ∷ s
unfolding decimal digits
decimal-two n s ge lt =
    let Two : ℕ → Type 0 = λ k. decimal k s ≡ 49 ∷ (38 + k) ∷ s in
    let ten_holds : Two 10 = refl in
    let eleven_holds : Two 11 = refl in
    let twelve_holds : Two 12 = refl in
    elim (Bool-cases (nat_eq n 10)) [
      | inl ten ↦ subst Two {x = 10} (ground (arith, ten)) ten_holds
      | inr more ↦ elim (Bool-cases (nat_eq n 11)) [
        | inl eleven ↦ subst Two {x = 11} (ground (arith, eleven)) eleven_holds
        | inr twelve ↦ subst Two {x = 12} (ground (arith, ge, lt, more, twelve)) twelve_holds
      ]
    ]

get_num-decimal :
    (k : ℕ) (s : Text) → k < 13 → get_num false (decimal k (colon ∷ s)) ≡ some (k, colon ∷ s)
unfolding get_num is_digit
get_num-decimal k s lt = elim (Bool-cases (ltb k 10)) [
  | inl small ↦ rw (decimal-one k (colon ∷ s) (ground (arith, small))) (ground arith)
  | inr large ↦ rw (decimal-two k (colon ∷ s) (ground (arith, large)) lt) (ground arith)
]

pub get_num-two_digits : (m : ℕ) (s : Text) → m < 60 → get_num true (two_digits m s) ≡ some (m, s)
unfolding get_num is_digit
get_num-two_digits m s lt = ground arith

pub half_of_day-hour12 :
    (h : ℕ) → h < 24 → half_of_day (hour12 h) (if ltb h 12 then codes "AM" else codes "PM") ≡ some h
unfolding half_of_day text_beq
half_of_day-hour12 h lt = elim (Bool-cases (ltb h 12)) [
  | inl am ↦ rw am (ground (arith, am))
  | inr pm ↦ rw pm (ground (arith, pm))
]

-- A printed time of day parses to itself.
parse_time-format_kitchen : (t : Clock) → IsTime t → parse_time kitchen (format_kitchen t) ≡ some t
unfolding parse_time parse_hour parse_minute after_minute format_kitchen
parse_time-format_kitchen t (lt24, lt60) =
    let half = if ltb t.hour 12 then codes "AM" else codes "PM" in
    let hour_fits : leb (hour12 t.hour) 12 ≡ true = ground arith in
    let minute_fits : ltb t.minute 60 ≡ true = ground (arith, lt60) in
    rw
      (
        get_num-decimal (hour12 t.hour) (two_digits t.minute half) (ground arith),
        get_num-two_digits t.minute half lt60,
        half_of_day-hour12 t.hour lt24,
        hour_fits,
        minute_fits,
      )
      refl

-- What is returned for a time and an indicator is the text of a time of day, and parses to it.
normalize_time-IsTime :
    (time_str am_pm r : Text)
    → normalize_time time_str am_pm ≡ some r
    → (t : Clock) × IsTime t × (r ≡ format_kitchen t) × (parse_time kitchen r ≡ some t)
unfolding normalize_time parse_time
normalize_time-IsTime time_str am_pm r e = elim (Bool-cases (time_pattern time_str)) [
  | inr bad ↦ absurd (ground (arith, rw (bad, normalize_time) at e))
  | inl good ↦
      let mode = layout_of (to_upper am_pm) in
      let s = padded time_str ++ mode.1 in
      let (t, fits, same) =
        formatted-IsTime (parse_time mode.0 s) r (parse_hour-IsTimeIf mode.0 (get_num false s))
          (rw (good, normalize_time) at e) in
      (t, fits, same, ap (parse_time kitchen) same ∙ parse_time-format_kitchen t fits)
]

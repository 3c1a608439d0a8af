-- ===== src/Reports/Time.antt =====
-- `NormalizeTime` and `timeSince`, with what they use of package time: its two layouts of a time of
-- day, and the text of a duration of whole minutes.
use revchat.Base.{
  ℕ, zero, suc, ◌+◌, ◌-◌, ◌*◌, ◌/◌, ◌%◌, Bool, true, false, not, ◌&&◌, ◌||◌, [], ◌∷◌, ◌++◌, Option,
  none, some, if◌then◌else◌, ltb, leb, nat_eq, ◌==◌, map, is_empty, length, take,
}
use revchat.Base.Text.{Text, codes, text_eq, text_beq}
use revchat.Channel.Create.{decimal}
use revchat.Channel.Name.{trim_space}
use revchat.Channel.Pattern.{is_digit}
use revchat.Files.Lines.{has_suffix}

abbrev pub colon : ℕ
colon = b':'

-- `timePattern.MatchString`
unfoldable pub time_pattern : Text → Bool
unfolding is_digit
time_pattern (a ∷ []) = is_digit a
time_pattern (a ∷ b ∷ []) = is_digit a && is_digit b
time_pattern (a ∷ b ∷ c ∷ d ∷ []) = is_digit a && nat_eq b colon && is_digit c && is_digit d
time_pattern (a ∷ b ∷ c ∷ d ∷ e ∷ []) =
    is_digit a && is_digit b && nat_eq c colon && is_digit d && is_digit e
time_pattern _ = false

-- The switch on the length of a time.
unfoldable pub padded : Text → Text
padded (a ∷ []) = b'0' ∷ a ∷ codes ":00"
padded (a ∷ b ∷ []) = a ∷ b ∷ codes ":00"
padded (a ∷ b ∷ c ∷ d ∷ []) = b'0' ∷ a ∷ b ∷ c ∷ d ∷ []
padded s = s

-- `strings.ToUpper` on ASCII. No other letter has A, P or M as its upper case.
abbrev pub upper_rune : ℕ → ℕ
upper_rune c = if leb b'a' c && leb c b'z' then c - 32 else c

unfoldable pub to_upper : Text → Text
to_upper s = map upper_rune s

-- The layouts "15:04" and "3:04PM".
pub data Layout : Type 0 where
  clock kitchen : Layout

pub record Clock : Type 0 where
  pub hour : ℕ
  pub minute : ℕ

-- `getnum` of package time: one digit or two, two if they are wanted.
unfoldable pub get_num : Bool → Text → Option (ℕ × Text)
unfolding is_digit
get_num fixed [] = none
get_num fixed (a ∷ []) = if is_digit a && not fixed then some (a - 48, []) else none
get_num fixed (a ∷ b ∷ s) =
    if is_digit a
    then (if is_digit b
        then some ((a - 48) * 10 + (b - 48), s)
        else if fixed
        then none
        else some (a - 48, b ∷ s))
    else none

-- The mark of the half of the day, at the end.
unfoldable pub half_of_day : ℕ → Text → Option ℕ
unfolding text_beq
half_of_day hour s =
    if s == codes "PM"
    then some (if ltb hour 12 then hour + 12 else hour)
    else if s == codes "AM"
    then some (if nat_eq hour 12 then 0 else hour)
    else none

abbrev pub last_hour : Layout → ℕ
last_hour clock = 23
last_hour kitchen = 12

abbrev pub with_minute : ℕ → Option ℕ → Option Clock
with_minute m none = none
with_minute m (some h) = some (record { hour = h; minute = m })

unfoldable pub after_minute : Layout → ℕ → ℕ → Text → Option Clock
unfolding half_of_day
after_minute clock h m s = if is_empty s then some (record { hour = h; minute = m }) else none
after_minute kitchen h m s = with_minute m (half_of_day h s)

unfoldable pub parse_minute : Layout → ℕ → Option (ℕ × Text) → Option Clock
unfolding after_minute
parse_minute l h none = none
parse_minute l h (some (m, s)) = if ltb m 60 then after_minute l h m s else none

unfoldable pub parse_hour : Layout → Option (ℕ × Text) → Option Clock
unfolding get_num parse_minute
parse_hour l none = none
parse_hour l (some (h, [])) = none
parse_hour l (some (h, c ∷ s)) =
    if leb h (last_hour l) && nat_eq c colon then parse_minute l h (get_num true s) else none

-- `time.Parse`
unfoldable pub parse_time : Layout → Text → Option Clock
unfolding get_num parse_hour
parse_time l s = parse_hour l (get_num false s)

-- Two digits of a number below 100.
abbrev pub two_digits : ℕ → Text → Text
two_digits n s = (48 + n / 10) ∷ (48 + n % 10) ∷ s

abbrev pub hour12 : ℕ → ℕ
hour12 h = if nat_eq (h % 12) 0 then 12 else h % 12

-- `t.Format(time.Kitchen)`
unfoldable pub format_kitchen : Clock → Text
unfolding decimal
format_kitchen t =
    decimal (hour12 t.hour)
      (colon ∷ two_digits t.minute (if ltb t.hour 12 then codes "AM" else codes "PM"))

-- The layout and the suffix for an indicator.
abbrev pub layout_of : Text → Layout × Text
layout_of [] = (clock, [])
layout_of (a ∷ []) = (kitchen, a ∷ b'M' ∷ [])
layout_of (a ∷ b ∷ s) = (kitchen, a ∷ b ∷ s)

abbrev pub formatted : Option Clock → Option Text
formatted none = none
formatted (some t) = some (format_kitchen t)

-- `NormalizeTime`: none for an error.
unfoldable pub normalize_time : Text → Text → Option Text
unfolding time_pattern padded to_upper parse_time format_kitchen
normalize_time time_str am_pm =
    let mode = layout_of (to_upper am_pm) in
    if not (time_pattern time_str)
    then none
    else formatted (parse_time mode.0 (padded time_str ++ mode.1))

-- The text of a duration of whole minutes, as `d.String()` writes it.
unfoldable pub duration_string : ℕ → Text
unfolding decimal
duration_string n =
    if nat_eq n 0
    then codes "0s"
    else if ltb n 60
    then decimal n (codes "m0s")
    else decimal (n / 60) (b'h' ∷ decimal (n % 60) (codes "m0s"))

-- `strings.Replace(s, "h", "h ", n)`, with n the number of replacements.
unfoldable pub space_after_h : ℕ → Text → Text
space_after_h zero s = s
space_after_h (suc n) [] = []
space_after_h (suc n) (c ∷ s) =
    let replaced = space_after_h n s in
    let same = space_after_h (suc n) s in if nat_eq c b'h' then c ∷ b' ' ∷ replaced else c ∷ same

-- `strings.TrimSuffix`
unfoldable pub trim_suffix : Text → Text → Text
unfolding has_suffix
trim_suffix s suffix = if has_suffix s suffix then take (length s - length suffix) s else s

-- `timeSince` on a number of minutes.
unfoldable pub since_minutes : ℕ → Text
unfolding trim_space trim_suffix space_after_h duration_string decimal
since_minutes n =
    let days = n / 1440 in
    let s = decimal days (codes "d " ++ duration_string (n % 1440)) in
    if ltb n 1440
    then trim_space (trim_suffix (space_after_h 1 (duration_string n)) (codes "0s"))
    else trim_space (trim_suffix (space_after_h (length s) s) (codes "0s"))

abbrev pub one_minute : ℕ
one_minute = 60 * 1000000000

-- `timeSince`, in nanoseconds: 0 stands for the zero time and for a timestamp that does not parse.
unfoldable pub time_since : ℕ → ℕ → Text
unfolding since_minutes
time_since now t =
    if nat_eq t 0 || ltb now t then [] else since_minutes ((now - t + one_minute / 2) / one_minute)

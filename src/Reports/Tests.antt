-- ===== src/Reports/Tests.antt =====
-- Cases of time_test.go and pr_data_test.go, and a theorem at a concrete time.
use revchat.Base.{◌+◌, ◌*◌, none, some, [], ◌∷◌, true, ◌≡◌, refl}
use revchat.Base.Text.{Text, codes, text_beq}
use revchat.Json.{Json, Fields}
use revchat.Reports.Details.{pr_identifiers, title}
use revchat.Reports.Reading
use revchat.Reports.Time.{Clock, normalize_time, since_minutes}

one_oclock : normalize_time (codes "1:01") (codes "p") ≡ some (codes "1:01PM")
unfolding normalize_time
one_oclock = refl

midnight : normalize_time (codes "0") [] ≡ some (codes "12:00AM")
unfolding normalize_time
midnight = refl

too_late : normalize_time (codes "13:30") (codes "pm") ≡ none
unfolding normalize_time
too_late = refl

almost_a_day : since_minutes 1439 ≡ codes "23h 59m"
unfolding since_minutes
almost_a_day = refl

a_day : since_minutes 1440 ≡ codes "1d"
unfolding since_minutes
a_day = refl

many_days : since_minutes (27 * 1440 + 23 * 60 + 4) ≡ codes "27d 23h 4m"
unfolding since_minutes
many_days = refl

abbrev afternoon : Clock
afternoon = record { hour = 13; minute = 1 }

abbrev commit : Json
commit = Json.obj (Fields.field (codes "hash") (Json.str (codes "abc")) Fields.end)

abbrev destination : Fields
destination =
    Fields.field (codes "branch")
      (Json.obj (Fields.field (codes "name") (Json.str (codes "main")) Fields.end))
      (Fields.field (codes "repository")
        (Json.obj (Fields.field (codes "full_name") (Json.str (codes "w/r")) Fields.end))
        (Fields.field (codes "commit") commit Fields.end))

abbrev snapshot : Fields
snapshot = Fields.field (codes "destination") (Json.obj destination) Fields.end

abbrev pr_url : Text
pr_url = codes "https://bitbucket.org/w/r/pull-requests/1"

identifiers :
    pr_identifiers pr_url snapshot
    ≡ record { owner = codes "w"; repo = codes "r"; branch = codes "main"; hash = codes "abc" }
unfolding pr_identifiers text_beq
identifiers = refl

untitled :
    title (codes "u") (Fields.field (codes "draft") (Json.bool true) Fields.end)
    ≡ (10 ∷ 10 ∷ codes ":construction: <u|*u*>", true)
unfolding title text_beq
untitled = refl

-- ===== src/Turns/Attention.antt =====
-- Whose turn it is, as a test on one user at a time.
use revchat.Base.{
  Bool, true, false, ◌&&◌, ◌||◌, none, some, List, [], ◌∷◌, ◌++◌, if◌then◌else◌, ◌==◌, ◌≡◌, refl,
  arith, is_empty, contains, contains-append,
}
use revchat.Base.Dict.{lookup, has_key, IsMap, lookup_of_not-has_key}
use revchat.Base.Sorting.{sort_compact, contains-sort_compact}
use revchat.Base.Text.{Text, text_eq, text_beq_iff}
use revchat.Turns.Queries.{is_real_author, turn_emails, some_without_turn, current_turn_emails}
use revchat.Result.{ok, Act}
use revchat.Turns.File.{TurnsFile}
use revchat.Turns.State.{PrTurns}

-- `m[user]` on the map of reviewers: whether it is their turn.
abbrev pub flag : Text → List (Text × Bool) → Bool
flag who m = elim (lookup who m) [ none ↦ false | some b ↦ b ]

-- The rule: a reviewer with the flag set has the turn, and so has an author who is a person if there
-- is no reviewer, or one without the flag.
abbrev pub has_turn : PrTurns → Text → Bool
has_turn t who =
    flag who t.reviewers
    || (t.author == who
        && is_real_author t.author
        && (is_empty t.reviewers || some_without_turn t.reviewers))

flag_of_not-has_key :
    (who : Text) (m : List (Text × Bool)) → has_key who m ≡ false → flag who m ≡ false
flag_of_not-has_key who m h = rw (lookup_of_not-has_key who m h, flag)

contains-turn_emails :
    (who : Text) (m : List (Text × Bool)) → IsMap m → contains (turn_emails m) who ≡ flag who m
unfolding turn_emails contains lookup
contains-turn_emails who [] h = refl
contains-turn_emails who ((k, true) ∷ m) h = ground (arith, contains-turn_emails who m h.1)
contains-turn_emails who ((k, false) ∷ m) h =
    ground (arith, contains-turn_emails who m h.1, text_beq_iff k who, flag_of_not-has_key k m h.0)

contains-listed :
    (real : Bool) (author who : Text) (m : List (Text × Bool))
    → IsMap m
    → contains
        (if is_empty m && real
          then author ∷ []
          else sort_compact (
              if some_without_turn m && real
              then turn_emails m ++ (author ∷ [])
              else turn_emails m))
        who
      ≡ (flag who m || (author == who && real && (is_empty m || some_without_turn m)))
unfolding contains turn_emails some_without_turn lookup
contains-listed real author who [] h = ground (arith, contains-sort_compact [] who)
contains-listed real author who (e ∷ m) h = ground (
  arith,
  contains-sort_compact (turn_emails (e ∷ m) ++ (author ∷ [])) who,
  contains-sort_compact (turn_emails (e ∷ m)) who,
  contains-append (turn_emails (e ∷ m)) (author ∷ []) who,
  contains-turn_emails who (e ∷ m) h,
)

-- `ReadCurrentTurnEmails` lists exactly the users that have the turn by the rule.
pub contains-current_turn_emails :
    (t : PrTurns) (who : Text)
    → IsMap t.reviewers
    → contains (current_turn_emails t) who ≡ has_turn t who
unfolding current_turn_emails contains
contains-current_turn_emails t who h =
    contains-listed (is_real_author t.author) t.author who t.reviewers h

-- A run that succeeds, and whose emails are exactly those of the users with `expected`.
abbrev pub Reports : Act TurnsFile (List Text) → TurnsFile → (Text → Bool) → Type 0
Reports m c expected =
    (emails : List Text) × (c' : TurnsFile) × (m c ≡ (ok emails, c'))
    × ((who : Text) → contains emails who ≡ expected who)

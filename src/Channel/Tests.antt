-- ===== src/Channel/Tests.antt =====
-- Runs of the channel functions, and their theorems at concrete inputs.
use revchat.Base.{
  ℕ, zero, suc, ◌≤◌, Bool, true, false, List, [], ◌∷◌, Option, none, some, if◌then◌else◌, contains,
  length, ◌≡◌, ◌≢◌, refl, arith, inl, inr, ◌⊎◌,
}
use revchat.Base.Text.{Text, codes, text_eq, plain}
use revchat.Channel.Name.{normalize_channel_name}
use revchat.Channel.Shape.{IsName, normalize_channel_name-IsName}
use revchat.Channel.Fixed.{normalize_channel_name_idem}
use revchat.Channel.Create.{
  channel_name, Slack, name_taken, has_substring, create_channel, too_many_attempts,
}
use revchat.Channel.Attempts.{Refuses, create_channel-first_free, create_channel-AllTaken}
use revchat.Channel.Unique.{channel_name_differs}

annotations_removed :
    normalize_channel_name
      (codes "[a][bb][CCC][DDDD-1234] [DDDD 1234] EE-1234 FFF-12345 Foo[] Bar [Baz]")
      50
    ≡ codes "ee-1234-foo-bar"
unfolding normalize_channel_name revchat.Base.Text.lower_rune
annotations_removed = refl

specials_replaced :
    normalize_channel_name (codes "`a ~1!2@3#4$5%6^7&8*9(0)-_=+ []{}|\\ ;:'\" ,<.>/?") 50
    ≡ codes "a-1-2-3-4-5-6-7-8-9-0"
unfolding normalize_channel_name revchat.Base.Text.lower_rune
specials_replaced = refl

abbrev fix_title : Text
fix_title = codes "[WIP] Fix: the parser"

normalize_channel_name-IsName_example :
    (length (normalize_channel_name fix_title 7) ≤ 7) × IsName (normalize_channel_name fix_title 7)
normalize_channel_name-IsName_example = normalize_channel_name-IsName fix_title 7

normalize_channel_name_idem_example :
    normalize_channel_name (normalize_channel_name fix_title 7) 7
    ≡ normalize_channel_name fix_title 7
normalize_channel_name_idem_example = normalize_channel_name_idem fix_title 7

-- A workspace as the list of its channels' names, where only taken names are refused.
abbrev workspace : Slack (List Text)
workspace = record {
  conversations_create = λ name private w.
      if contains w name then (inr name_taken, w) else (inl (codes "C1"), name ∷ w);
  conversations_rename =
      λ id name w. if contains w name then (some name_taken, w) else (none, name ∷ w);
}

says_taken : has_substring name_taken name_taken ≡ true
unfolding has_substring
says_taken = refl

workspace-Refuses : Refuses workspace (λ w name. contains w name)
workspace-Refuses = record {
  create_refused = λ name private w h. (name_taken, says_taken, rw h refl);
  rename_refused = λ id name w h. (name_taken, says_taken, rw h refl);
}

abbrev parser_title : Text
parser_title = codes "Parser"

abbrev pr_url : Text
pr_url = codes "https://bitbucket.org/w/r/pull-requests/7"

-- A workspace where the first names for the PR are taken.
abbrev taken_names : ℕ → List Text
taken_names zero = []
taken_names (suc n) = channel_name (codes "pr") 7 (codes "parser") (suc n) ∷ taken_names n

create_channel-first_free_example :
    create_channel workspace 7 parser_title pr_url 50 (codes "pr") false (codes "pr-7_parser" ∷ [])
    ≡ (
      inl (codes "C1"),
      codes "pr-7_parser_2" ∷ codes "pr-7_parser" ∷ [],
      record { id = codes "C1"; url = pr_url; name = codes "pr-7_parser_2" } ∷ [],
    )
unfolding channel_name normalize_channel_name revchat.Base.Text.lower_rune contains
    revchat.Base.Text.text_beq
create_channel-first_free_example =
    create_channel-first_free workspace-Refuses 7 parser_title pr_url 50 (codes "pr")
      (codes "pr-7_parser" ∷ []) false 1 17 refl (refl, tt) (codes "C1")
      (codes "pr-7_parser_2" ∷ codes "pr-7_parser" ∷ []) refl

create_channel-AllTaken_example :
    create_channel workspace 7 parser_title pr_url 50 (codes "pr") false (taken_names 19)
    ≡ (inr too_many_attempts, taken_names 19, [])
unfolding channel_name normalize_channel_name revchat.Base.Text.lower_rune contains
    revchat.Base.Text.text_beq
create_channel-AllTaken_example =
    create_channel-AllTaken workspace-Refuses 7 parser_title pr_url 50 (codes "pr") (taken_names 19)
      false
      (
        refl,
        (
          refl,
          (
            refl,
            (
              refl,
              (
                refl,
                (
                  refl,
                  (
                    refl,
                    (
                      refl,
                      (
                        refl,
                        (
                          refl,
                          (
                            refl,
                            (refl, (refl, (refl, (refl, (refl, (refl, (refl, (refl, tt)))))))),
                          ),
                        ),
                      ),
                    ),
                  ),
                ),
              ),
            ),
          ),
        ),
      )

channel_name_differs_example :
    channel_name (codes "pr") 7 (codes "1_parser") 3
    ≢ channel_name (codes "pr") 71 (codes "parser") 1
channel_name_differs_example =
    channel_name_differs (codes "pr") 7 71 (codes "1_parser") (codes "parser") 3 1
      (λ e. omega (arith, e))

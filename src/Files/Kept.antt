-- ===== src/Files/Kept.antt =====
-- The cache of source files: what a second call for the same file of the same branch returns.
use revchat.Base.{◌+◌, ◌≤◌, Option, none, some, ◌≡◌, refl, ◌∙◌, arith}
use revchat.Base.Integers.{pos, is_positive}
use revchat.Base.Text.{Text, text_eq}
use revchat.Cache.Store.{Cache, default_ttl, get, set}
use revchat.Cache.Ttl.{get-default, set_then_get}
use revchat.Files.Source.{Branch, Call, ten_minutes, source_key, fetched, get_bitbucket_source_file}

fetched-miss :
    (key file : Text) (call : Call) (r : Option Text × Cache Text)
    → r.0 ≡ none
    → call.answer ≡ some file
    → fetched key call r ≡ (file, set key file default_ttl call.later r.1)
fetched-miss key file call (none, c) miss answer = rw answer refl
fetched-miss key file call (some f, c) miss answer = absurd (ground (arith, miss))

-- A file that was read is kept for ten minutes: until then a second call returns it, whatever the
-- commit and whatever the server would answer now, and changes nothing.
pub get_bitbucket_source_file-kept :
    (at : Branch) (path file commit : Text) (call again : Call) (c : Cache Text)
    → c.default_expiration ≡ pos ten_minutes
    → (get (source_key at path) call.now c).0 ≡ none
    → call.answer ≡ some file
    → again.now ≤ call.later + ten_minutes
    → get_bitbucket_source_file
        (record at { commit = commit })
        path
        again
        (get_bitbucket_source_file at path call c).1
      ≡ (file, (get_bitbucket_source_file at path call c).1)
unfolding get_bitbucket_source_file is_positive
get_bitbucket_source_file-kept at path file commit call again c ttl miss answer in_time =
    let key = source_key at path in
    let c' = (get key call.now c).1 in
    let stored = fetched-miss key file call (get key call.now c) miss answer in
    rw
      (
        stored,
        set_then_get ten_minutes call.later again.now c' (get-default key call.now c ∙ ttl) in_time
            key file refl,
      )
      refl

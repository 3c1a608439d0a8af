-- ===== src/Stores/Builds.antt =====
-- pkg/data/internal/bitbucket_builds.go and pkg/data/bitbucket_builds.go: the states of the builds of
-- a pull request at a commit.
use revchat.Base.{List, [], ◌∷◌, Option, none, some, if◌then◌else◌, ◌==◌}
use revchat.Base.Dict.{put}
use revchat.Base.Text.{Text, text_eq}
use revchat.Activity.{Temporal, execute_local_activity, logged}
use revchat.DataFile.{Content, Loaded, value, gone, garbled, load, write_json, delete_file}
use revchat.Result.{Act, ◌>>=◌, return, fail, decode_failed, panicked}
use revchat.Stores.Access.{Access}

pub record CommitStatus : Type 0 where
  pub name : Text
  pub state : Text
  pub desc : Text
  pub url : Text

-- `PRStatus`: the map of builds is none where Go's is nil, as after decoding "{}".
pub record PrStatus : Type 0 where
  pub commit_hash : Text
  pub builds : Option (List (Text × CommitStatus))

abbrev pub no_status : PrStatus
no_status = record { commit_hash = []; builds = none }

abbrev pub status_found : Loaded PrStatus → Act (Content PrStatus) (Option PrStatus)
status_found (value s) = return (some s)
status_found gone = return none
status_found garbled = fail decode_failed

-- `readBitbucketBuilds`
unfoldable pub read_bitbucket_builds : Access → Act (Content PrStatus) (Option PrStatus)
unfolding load
read_bitbucket_builds a = do l ← load no_status a.reading; status_found l

-- The change of `UpdateBitbucketBuilds`: none for the panic of a write to a nil map.
unfoldable pub updated : PrStatus → Text → Text → CommitStatus → Option PrStatus
unfolding put
updated s commit_hash key cs =
    if s.commit_hash == commit_hash
    then (elim s.builds [ none ↦ none | some m ↦ some (record s { builds = some (put key cs m) }) ])
    else some (record { commit_hash = commit_hash; builds = some ((key, cs) ∷ []) })

abbrev pub stored_or_panic : Access → Option PrStatus → Act (Content PrStatus) (Unit {0})
stored_or_panic a none = fail panicked
stored_or_panic a (some s) = write_json no_status a.writing s

abbrev pub update_found :
    Access → Text → Text → CommitStatus → Option PrStatus → Act (Content PrStatus) (Unit {0})
update_found a commit_hash key cs none = fail panicked
update_found a commit_hash key cs (some s) = stored_or_panic a (updated s commit_hash key cs)

-- `UpdateBitbucketBuilds` of package internal
unfoldable pub update_bitbucket_builds :
    Access → Text → Text → CommitStatus → Act (Content PrStatus) (Unit {0})
unfolding read_bitbucket_builds updated write_json
update_bitbucket_builds a commit_hash key cs = do
  s ← read_bitbucket_builds a
  update_found a commit_hash key cs s

-- `ReadBitbucketBuilds` of package data: a null answer leaves the zero value.
abbrev pub or_no_status : Option PrStatus → PrStatus
or_no_status none = no_status
or_no_status (some s) = s

abbrev pub status_only : Option PrStatus × Content PrStatus → PrStatus × Content PrStatus
status_only (o, c) = (or_no_status o, c)

unfoldable pub call_read_bitbucket_builds :
    Temporal Access → Content PrStatus → PrStatus × Content PrStatus
unfolding execute_local_activity read_bitbucket_builds
call_read_bitbucket_builds envs c =
    status_only (logged none (execute_local_activity read_bitbucket_builds envs c))

-- `UpdateBitbucketBuilds` of package data
unfoldable pub call_update_bitbucket_builds :
    Temporal Access → Text → Text → CommitStatus → Content PrStatus → Unit {0} × Content PrStatus
unfolding execute_local_activity update_bitbucket_builds
call_update_bitbucket_builds envs commit_hash key cs c =
    logged tt (execute_local_activity (λ a. update_bitbucket_builds a commit_hash key cs) envs c)

-- `DeleteBitbucketBuilds`
unfoldable pub delete_bitbucket_builds :
    Temporal Access → Content PrStatus → Unit {0} × Content PrStatus
unfolding execute_local_activity delete_file
delete_bitbucket_builds envs c =
    logged tt (execute_local_activity (λ a. delete_file no_status a.writing) envs c)

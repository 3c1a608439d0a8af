-- ===== src/Stores/Snapshots.antt =====
-- pkg/data/internal/pr_snapshots.go and pkg/data/pr_snapshots.go: the stored snapshots of pull
-- requests, and the search for those at a commit.
use revchat.Base.{
  Bool, true, not, ◌&&◌, List, [], ◌∷◌, Option, none, some, if◌then◌else◌, ◌==◌, is_empty,
}
use revchat.Base.Text.{Text, codes, text_eq, text_beq, has_prefix}
use revchat.Activity.{Temporal, execute_local_activity, logged}
use revchat.DataFile.{Content, Loaded, value, gone, garbled, load, write_json, delete_file}
use revchat.Json.{Json, Items, Fields, get, as_text, as_object}
use revchat.Result.{Result, ok, err, Act, ◌>>=◌, return, fail, decode_failed}
use revchat.Stores.Access.{Access}

-- `WritePRSnapshot`
unfoldable pub write_pr_snapshot : Access → Fields → Act (Content Fields) (Unit {0})
unfolding write_json
write_pr_snapshot a pr = write_json Fields.end a.writing pr

-- An empty map counts as no snapshot.
abbrev pub not_empty : Fields → Option Fields
not_empty Fields.end = none
not_empty (Fields.field k v m) = some (Fields.field k v m)

abbrev pub snapshot_found : Loaded Fields → Act (Content Fields) (Option Fields)
snapshot_found (value pr) = return (not_empty pr)
snapshot_found gone = return none
snapshot_found garbled = fail decode_failed

-- `ReadPRSnapshot`
unfoldable pub read_pr_snapshot : Access → Act (Content Fields) (Option Fields)
unfolding load
read_pr_snapshot a = do l ← load Fields.end a.reading; snapshot_found l

-- A text in a block of a map, the empty text if anything is missing.
abbrev pub text_or_empty : Option Text → Text
text_or_empty none = []
text_or_empty (some s) = s

-- `prCommitHashBitbucket`
unfoldable pub pr_commit_hash_bitbucket : Fields → Text
unfolding get as_object as_text
pr_commit_hash_bitbucket pr = elim (as_object (get (codes "source") pr)) [
  | none ↦ []
  | some source ↦ elim (as_object (get (codes "commit") source)) [
    | none ↦ []
    | some commit ↦ text_or_empty (as_text (get (codes "hash") commit))
  ]
]

-- `prCommitHashGitHub`
unfoldable pub pr_commit_hash_github : Fields → Text
unfolding get as_object as_text
pr_commit_hash_github pr = elim (as_object (get (codes "head") pr)) [
  | none ↦ []
  | some head ↦ text_or_empty (as_text (get (codes "sha") head))
]

-- `prCommitHash`
unfoldable pub pr_commit_hash : Fields → Text
unfolding pr_commit_hash_bitbucket pr_commit_hash_github
pr_commit_hash pr =
    let hash = pr_commit_hash_bitbucket pr in
    if is_empty hash then pr_commit_hash_github pr else hash

-- A map with only one of its keys: the loops that delete the others.
unfoldable pub only_key : Text → Fields → Fields
unfolding text_beq
only_key key Fields.end = Fields.end
only_key key (Fields.field k v m) =
    let rest = only_key key m in if k == key then Fields.field k v rest else rest

unfoldable pub pruned_links : Json → Json
unfolding only_key
pruned_links (Json.obj links) = Json.obj (only_key (codes "html") links)
pruned_links v = v

unfoldable pub pruned_participant : Json → Json
unfolding only_key
pruned_participant (Json.obj p) = Json.obj (only_key (codes "approved") p)
pruned_participant v = v

unfoldable pub pruned_items : Items → Items
unfolding pruned_participant
pruned_items Items.nil = Items.nil
pruned_items (Items.cons v vs) = Items.cons (pruned_participant v) (pruned_items vs)

unfoldable pub pruned_participants : Json → Json
unfolding pruned_items
pruned_participants (Json.arr ps) = Json.arr (pruned_items ps)
pruned_participants v = v

-- The fields that pruning leaves as they are.
unfoldable pub is_kept : Text → Bool
unfolding text_beq
is_kept k =
    if k == codes "draft"
    then true
    else if k == codes "change_request_count"
    then true
    else k == codes "task_count"

-- The last loops of `FindPRsByCommit`, on one snapshot.
unfoldable pub pruned : Fields → Fields
unfolding is_kept pruned_links pruned_participants text_beq
pruned Fields.end = Fields.end
pruned (Fields.field k v m) =
    let rest = pruned m in
    if is_kept k
    then Fields.field k v rest
    else if k == codes "links"
    then Fields.field k (pruned_links v) rest
    else if k == codes "participants"
    then Fields.field k (pruned_participants v) rest
    else rest

-- The test of a file in the walk: the answer to the reading of a snapshot.
abbrev pub at_commit : Text → Result (Option Fields) → Option Fields
at_commit hash (err e) = none
at_commit hash (ok none) = none
at_commit hash (ok (some pr)) =
    let pr_hash = pr_commit_hash pr in
    if not (is_empty pr_hash) && has_prefix hash pr_hash then some pr else none

-- `FindPRsByCommit`, on what the reading of each snapshot in the directory answers.
unfoldable pub find_prs_by_commit : Text → List (Result (Option Fields)) → List Fields
unfolding pr_commit_hash has_prefix pruned
find_prs_by_commit hash [] = []
find_prs_by_commit hash (answer ∷ rest) =
    let more = find_prs_by_commit hash rest in
    elim (at_commit hash answer) [ none ↦ more | some pr ↦ pruned pr ∷ more ]

-- `StorePRSnapshot`
unfoldable pub store_pr_snapshot :
    Temporal Access → Fields → Content Fields → Unit {0} × Content Fields
unfolding execute_local_activity write_pr_snapshot
store_pr_snapshot envs pr c =
    logged tt (execute_local_activity (λ a. write_pr_snapshot a pr) envs c)

-- `LoadPRSnapshot`
unfoldable pub load_pr_snapshot : Temporal Access → Act (Content Fields) (Option Fields)
unfolding execute_local_activity read_pr_snapshot
load_pr_snapshot envs = execute_local_activity read_pr_snapshot envs

-- `DeletePRSnapshot`
unfoldable pub delete_pr_snapshot : Temporal Access → Content Fields → Unit {0} × Content Fields
unfolding execute_local_activity delete_file
delete_pr_snapshot envs c =
    logged tt (execute_local_activity (λ a. delete_file Fields.end a.writing) envs c)

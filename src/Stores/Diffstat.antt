-- ===== src/Stores/Diffstat.antt =====
-- pkg/data/internal/diffstat.go and pkg/data/diffstat.go: the paths of the files of a pull request.
use revchat.Base.{List, [], ◌∷◌, ◌++◌, none, some, if◌then◌else◌, is_empty}
use revchat.Base.Sorting.{sort_compact}
use revchat.Base.Text.{Text, codes}
use revchat.Activity.{Temporal, execute_local_activity, logged}
use revchat.DataFile.{Content, read_json, write_json, delete_file}
use revchat.Json.{Fields, get, as_text, as_object}
use revchat.Result.{Act, ◌>>=◌, return}
use revchat.Stores.Access.{Access}

abbrev pub Diffstats : Type 0
Diffstats = List Fields

-- `WriteDiffstat`
unfoldable pub write_diffstat : Access → Diffstats → Act (Content Diffstats) (Unit {0})
unfolding write_json
write_diffstat a files = write_json [] a.writing files

-- `readDiffstat`
unfoldable pub read_diffstat : Access → Act (Content Diffstats) Diffstats
unfolding read_json
read_diffstat a = read_json [] a.reading

-- The path in the block `key` of a diffstat of Bitbucket.
unfoldable pub block_path : Text → Fields → List Text
unfolding get as_object as_text
block_path key diffstat = elim (as_object (get key diffstat)) [
  | none ↦ []
  | some block ↦ elim (as_text (get (codes "path") block)) [ none ↦ [] | some path ↦ path ∷ [] ]
]

unfoldable pub bitbucket_paths : Diffstats → List Text
unfolding block_path
bitbucket_paths [] = []
bitbucket_paths (diffstat ∷ rest) =
    block_path (codes "new") diffstat ++ (block_path (codes "old") diffstat ++ bitbucket_paths rest)

-- `extractFilePathsBitbucket`
unfoldable pub extract_file_paths_bitbucket : Diffstats → List Text
unfolding bitbucket_paths sort_compact
extract_file_paths_bitbucket files = sort_compact (bitbucket_paths files)

unfoldable pub github_paths : Diffstats → List Text
unfolding get as_text
github_paths [] = []
github_paths (diffstat ∷ rest) =
    let more = github_paths rest in
    elim (as_text (get (codes "filename") diffstat)) [ none ↦ more | some path ↦ path ∷ more ]

-- `extractFilePathsGitHub`
unfoldable pub extract_file_paths_github : Diffstats → List Text
unfolding github_paths sort_compact
extract_file_paths_github files = sort_compact (github_paths files)

-- `extractFilePaths`
unfoldable pub extract_file_paths : Diffstats → List Text
unfolding extract_file_paths_bitbucket extract_file_paths_github
extract_file_paths files =
    let paths = extract_file_paths_bitbucket files in
    if is_empty paths then extract_file_paths_github files else paths

-- `ReadDiffstatPaths`
unfoldable pub read_diffstat_paths : Access → Act (Content Diffstats) (List Text)
unfolding read_diffstat extract_file_paths
read_diffstat_paths a = do
  files ← read_diffstat a
  return (if is_empty files then [] else extract_file_paths files)

-- `StoreDiffstat`
unfoldable pub store_diffstat :
    Temporal Access → Diffstats → Content Diffstats → Unit {0} × Content Diffstats
unfolding execute_local_activity write_diffstat
store_diffstat envs files c =
    logged tt (execute_local_activity (λ a. write_diffstat a files) envs c)

-- `LoadDiffstatPaths`
unfoldable pub load_diffstat_paths :
    Temporal Access → Content Diffstats → List Text × Content Diffstats
unfolding execute_local_activity read_diffstat_paths
load_diffstat_paths envs c = logged [] (execute_local_activity read_diffstat_paths envs c)

-- `DeleteDiffstat`
unfoldable pub delete_diffstat : Temporal Access → Content Diffstats → Unit {0} × Content Diffstats
unfolding execute_local_activity delete_file
delete_diffstat envs c = logged tt (execute_local_activity (λ a. delete_file [] a.writing) envs c)

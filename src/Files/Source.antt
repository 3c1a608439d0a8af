-- ===== src/Files/Source.antt =====
-- pkg/files/source.go and high_risk.go. The answer of the activity `GetSourceFile` is given, as are
-- the times before and after it; none stands for its error.
use revchat.Base.{
  ℕ, ◌+◌, ◌*◌, Bool, true, false, List, [], ◌∷◌, ◌++◌, Option, none, some, if◌then◌else◌, is_empty,
}
use revchat.Base.Integers.{pos}
use revchat.Base.Text.{Text, codes, has_prefix}
use revchat.Cache.Store.{Cache, get, set, new, default_ttl}
use revchat.Channel.Name.{trim_space}
use revchat.Files.Lines.{lines}

-- Where a file is read: the first four arguments of the functions of this package.
pub record Branch : Type 0 where
  pub workspace : Text
  pub repo : Text
  pub branch : Text
  pub commit : Text

-- The call of `activities.GetSourceFile`.
pub record Call : Type 0 where
  pub now : ℕ
  pub later : ℕ
  pub answer : Option Text

-- Ten minutes, in the nanoseconds of `time.Duration`.
abbrev pub ten_minutes : ℕ
ten_minutes = 600 * 1000000000

-- `fileCache`
unfoldable pub file_cache : Cache Text
unfolding new
file_cache = new (pos ten_minutes)

abbrev pub source_key : Branch → Text → Text
source_key at path =
    at.workspace ++ codes ":" ++ at.repo ++ codes ":" ++ at.branch ++ codes ":" ++ path

-- `getBitbucketSourceFile` after the cache was asked.
abbrev pub fetched : Text → Call → Option Text × Cache Text → Text × Cache Text
fetched key call (some file, c) = (file, c)
fetched key call (none, c) = elim call.answer [
  | none ↦ ([], c)
  | some file ↦ (file, set key file default_ttl call.later c)
]

-- `getBitbucketSourceFile`
unfoldable pub get_bitbucket_source_file : Branch → Text → Call → Cache Text → Text × Cache Text
unfolding get set
get_bitbucket_source_file at path call c =
    fetched (source_key at path) call (get (source_key at path) call.now c)

-- The loop of `parseHighRiskFile`
unfoldable pub high_risk_paths : List Text → List Text
unfolding trim_space
high_risk_paths [] = []
high_risk_paths (line ∷ rest) =
    let line' = trim_space line in
    let more = high_risk_paths rest in if is_empty line' then more else line' ∷ more

-- `parseHighRiskFile`
unfoldable pub parse_high_risk_file : Text → List Text
unfolding high_risk_paths lines
parse_high_risk_file content = if is_empty content then [] else high_risk_paths (lines content)

-- `isHighRisk`
unfoldable pub is_high_risk : List Text → Text → Bool
unfolding has_prefix
is_high_risk [] path = false
is_high_risk (p ∷ rest) path = if has_prefix path p then true else is_high_risk rest path

-- The loop of `CountHighRiskFiles`
unfoldable pub count_high_risk : List Text → List Text → ℕ → ℕ
unfolding is_high_risk
count_high_risk hr [] count = count
count_high_risk hr (p ∷ rest) count =
    let counted = count_high_risk hr rest (count + 1) in
    let same = count_high_risk hr rest count in if is_high_risk hr p then counted else same

-- `CountHighRiskFiles`
unfoldable pub count_high_risk_files : Branch → List Text → Call → Cache Text → ℕ × Cache Text
unfolding get_bitbucket_source_file count_high_risk parse_high_risk_file
count_high_risk_files at paths call c =
    let file = get_bitbucket_source_file at (codes "highrisk.txt") call c in
    (count_high_risk (parse_high_risk_file file.0) paths 0, file.1)

-- ===== src/DataFile/Mutex.antt =====
-- `getDataFileMutex` of pkg/data/internal/files.go: the mutexes are kept in a cache for a day.
use revchat.Base.{ℕ, ◌*◌, Bool, true, false, Option, none, some}
use revchat.Base.Text.{Text, text_eq}
use revchat.Cache.Store.{Cache, default_ttl, add, get, set}

-- A day, in the nanoseconds of `time.Duration`.
abbrev pub one_day : ℕ
one_day = 86400 * 1000000000

-- The times of the calls of `Add`, `Get` and `Set`.
pub record Times : Type 0 where
  pub adding : ℕ
  pub getting : ℕ
  pub setting : ℕ

module _ {M : Type 0} where
  abbrev pub refreshed :
      Text → Times → Option (Option M) × Cache (Option M) → Option M × Cache (Option M)
  refreshed key t (none, c) = (none, set key none default_ttl t.setting c)
  refreshed key t (some mu, c) = (mu, set key mu default_ttl t.setting c)

  abbrev pub added : Text → M → Times → Bool × Cache (Option M) → Option M × Cache (Option M)
  added key mu t (true, c) = (some mu, c)
  added key mu t (false, c) = refreshed key t (get key t.getting c)

  -- `getDataFileMutex`, given a new mutex: none stands for a nil pointer.
  unfoldable pub get_data_file_mutex :
      Text → M → Times → Cache (Option M) → Option M × Cache (Option M)
  unfolding add get set
  get_data_file_mutex key mu t c = added key mu t (add key (some mu) default_ttl t.adding c)

-- ===== src/DataFile.antt =====
-- pkg/data/internal/files.go: one JSON data file on the disk. What the operating system and package
-- xdg answer is an argument, a `Disk`; a decoded file is a value of the type that it holds.
pub mod Laws
pub mod Mutex
pub mod Exclusion
mod Tests
use revchat.Base.{Bool, true, false, if◌then◌else◌, not}
use revchat.Result.{
  Result, ok, err, Act, continue, ◌>>=◌, ◌>>◌, return, fail, path_failed, open_failed,
  decode_failed, write_failed, remove_failed,
}

-- What a data file holds. A file that was never created, one with no bytes, bytes that do not
-- decode, and the JSON of a value.
pub data Content (T : Type 0) : Type 0 where
  absent empty undecodable : Content T
  stored : T → Content T

-- What `os.Open` and the decoder find.
pub data Loaded (T : Type 0) : Type 0 where
  value : T → Loaded T
  gone garbled : Loaded T

pub data OpenOutcome : Type 0 where
  opened not_exist refused : OpenOutcome

-- `truncated` and `torn`: the file was truncated, and nothing of its new text, or not the whole of it,
-- was written.
pub data WriteOutcome : Type 0 where
  written not_opened truncated torn : WriteOutcome

pub data RemoveOutcome : Type 0 where
  removed already_gone not_removed : RemoveOutcome

-- The answers to one access of a file.
pub record Disk : Type 0 where
  pub path_ok : Bool
  pub fix_ok : Bool
  pub open_outcome : OpenOutcome
  pub write_outcome : WriteOutcome
  pub remove_outcome : RemoveOutcome

module _ {T : Type 0} where
  -- The four outcomes of `os.OpenFile` and the encoder behind it.
  unfoldable pub overwrite : WriteOutcome → T → Act (Content T) (Unit {0})
  overwrite written v c = (ok tt, stored v)
  overwrite not_opened v c = (err open_failed, c)
  overwrite truncated v c = (err write_failed, empty)
  overwrite torn v c = (err write_failed, undecodable)

  -- `os.Open` and the decoder behind it.
  unfoldable pub decode : OpenOutcome → Act (Content T) (Loaded T)
  decode refused c = (err open_failed, c)
  decode not_exist c = (ok gone, absent)
  decode opened (stored v) = (ok (value v), stored v)
  decode opened absent = (ok garbled, absent)
  decode opened empty = (ok garbled, empty)
  decode opened undecodable = (ok garbled, undecodable)

  unfoldable pub only_value : Loaded T → Act (Content T) T
  only_value (value v) = return v
  only_value gone = fail open_failed
  only_value garbled = fail decode_failed

  unfoldable pub remove : RemoveOutcome → Act (Content T) (Unit {0})
  remove removed c = (ok tt, absent)
  remove already_gone c = (ok tt, absent)
  remove not_removed c = (err remove_failed, c)

module _ {T : Type 0} (blank : T) where
  -- `fixEmptyJSONFile`: `blank` is what the "{}" or "[]" that it writes stands for.
  unfoldable pub fix_empty_json_file : Bool → Content T → Content T
  fix_empty_json_file true empty = stored blank
  fix_empty_json_file _ c = c

  -- `xdg.CreateFilePath` creates a file that is not there.
  unfoldable pub create : Content T → Content T
  create absent = empty
  create c = c

  -- `dataPath`
  unfoldable pub data_path : Disk → Act (Content T) (Unit {0})
  unfolding fix_empty_json_file create
  data_path d c =
      if d.path_ok then (ok tt, fix_empty_json_file d.fix_ok (create c)) else (err path_failed, c)

  -- `writeGenericJSONFile`
  unfoldable pub write_json : Disk → T → Act (Content T) (Unit {0})
  unfolding data_path overwrite
  write_json d v = do data_path d; overwrite d.write_outcome v

  unfoldable pub load : Disk → Act (Content T) (Loaded T)
  unfolding data_path decode
  load d = do data_path d; decode d.open_outcome

  -- `readGenericJSONFile`
  unfoldable pub read_json : Disk → Act (Content T) T
  unfolding load only_value
  read_json d = do l ← load d; only_value l

  -- `DeleteGenericPRFile`
  unfoldable pub delete_file : Disk → Act (Content T) (Unit {0})
  unfolding data_path remove
  delete_file d = do data_path d; remove d.remove_outcome

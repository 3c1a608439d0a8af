-- ===== src/Mapping/Ops.antt =====
-- `GetURLAndIDMapping`, `SetURLAndIDMapping` and `DelURLAndIDMapping`.
use revchat.Base.{List, [], ◌∷◌, ◌++◌, none, some, if◌then◌else◌, ◌==◌}
use revchat.Base.Dict.{lookup, put, delete}
use revchat.Base.Text.{Text, text_eq, has_prefix}
use revchat.DataFile.{Content, Disk, read_json, write_json}
use revchat.Result.{Act, ◌>>=◌, return}

abbrev pub Mapping : Type 0
Mapping = List (Text × Text)

-- `m[key]`: a missing key reads as the empty string.
unfoldable pub value_of : Text → Mapping → Text
unfolding lookup
value_of key m = elim (lookup key m) [ none ↦ [] | some v ↦ v ]

unfoldable pub set_mapping : Text → Text → Mapping → Mapping
unfolding put
set_mapping url ids m = put ids url (put url ids m)

-- The entry of a key, and the one of its value.
unfoldable pub delete_both : Text → Mapping → Mapping
unfolding lookup delete
delete_both key m = delete key (elim (lookup key m) [ none ↦ m | some v ↦ delete v m ])

-- The loop that deletes the entries with a value.
unfoldable pub delete_values : Text → Mapping → Mapping
delete_values value [] = []
delete_values value ((k, v) ∷ m) =
    let rest = delete_values value m in if v == value then rest else (k, v) ∷ rest

-- The loop that collects more keys to delete.
unfoldable pub more_keys_to_delete : Text → Mapping → List Text
unfolding has_prefix
more_keys_to_delete prefix [] = []
more_keys_to_delete prefix ((k, v) ∷ m) =
    let rest = more_keys_to_delete prefix m in
    let by_value = if has_prefix v prefix then k ∷ v ∷ rest else rest in
    if has_prefix k prefix then k ∷ v ∷ by_value else by_value

unfoldable pub delete_all : List Text → Mapping → Mapping
unfolding delete
delete_all [] m = m
delete_all (k ∷ keys) m = delete_all keys (delete k m)

unfoldable pub del_mapping : Text → Mapping → Mapping
unfolding delete_both delete_values more_keys_to_delete delete_all
del_mapping key m =
    let left = delete_values key (delete_both key m) in
    delete_all (more_keys_to_delete (key ++ b'/' ∷ []) left) left

-- The functions on the file.
unfoldable pub get_url_and_id_mapping : Disk → Text → Act (Content Mapping) Text
unfolding read_json value_of
get_url_and_id_mapping d key = do m ← read_json [] d; return (value_of key m)

unfoldable pub set_url_and_id_mapping : Disk → Disk → Text → Text → Act (Content Mapping) (Unit {0})
unfolding read_json set_mapping write_json
set_url_and_id_mapping reading writing url ids = do
  m ← read_json [] reading
  write_json [] writing (set_mapping url ids m)

unfoldable pub del_url_and_id_mapping : Disk → Disk → Text → Act (Content Mapping) (Unit {0})
unfolding read_json del_mapping write_json
del_url_and_id_mapping reading writing key = do
  m ← read_json [] reading
  write_json [] writing (del_mapping key m)

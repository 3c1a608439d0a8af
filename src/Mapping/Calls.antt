-- ===== src/Mapping/Calls.antt =====
-- pkg/data/urls_ids.go: the mapping as the rest of the program calls it, as local activities.
use revchat.Activity.{Temporal, execute_local_activity, logged}
use revchat.Base.Text.{Text}
use revchat.DataFile.{Content, Disk}
use revchat.Mapping.Ops.{
  Mapping, get_url_and_id_mapping, set_url_and_id_mapping, del_url_and_id_mapping,
}
use revchat.Result.{Act}
use revchat.Stores.Access.{Access}

-- `MapURLAndID`
unfoldable pub map_url_and_id : Temporal Access → Text → Text → Act (Content Mapping) (Unit {0})
unfolding execute_local_activity set_url_and_id_mapping
map_url_and_id envs url ids =
    execute_local_activity (λ a. set_url_and_id_mapping a.reading a.writing url ids) envs

-- `SwitchURLAndID`
unfoldable pub switch_url_and_id : Temporal Disk → Text → Act (Content Mapping) Text
unfolding execute_local_activity get_url_and_id_mapping
switch_url_and_id envs key = execute_local_activity (λ d. get_url_and_id_mapping d key) envs

-- `DeleteURLAndIDMapping`: an error is only logged.
unfoldable pub delete_url_and_id_mapping :
    Temporal Access → Text → Content Mapping → Unit {0} × Content Mapping
unfolding execute_local_activity del_url_and_id_mapping
delete_url_and_id_mapping envs key c =
    logged tt (execute_local_activity (λ a. del_url_and_id_mapping a.reading a.writing key) envs c)

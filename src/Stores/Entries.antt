-- ===== src/Stores/Entries.antt =====
-- pkg/data/internal/reminders.go and slack_bots.go, which keep one map from texts to texts, and their
-- callers in pkg/data.
use revchat.Base.{List, [], ◌∷◌, ◌++◌}
use revchat.Base.Dict.{put, delete}
use revchat.Base.Text.{Text, text_eq}
use revchat.Activity.{Temporal, execute_local_activity, logged}
use revchat.DataFile.{Content, read_json, write_json}
use revchat.Mapping.Ops.{value_of}
use revchat.Result.{Act, ◌>>=◌, return}
use revchat.Stores.Access.{Access}

abbrev pub Entries : Type 0
Entries = List (Text × Text)

-- `SetReminder`
unfoldable pub set_reminder : Access → Text → Text → Text → Act (Content Entries) (Unit {0})
unfolding read_json write_json put
set_reminder a user_id kitchen_time tz = do
  m ← read_json [] a.reading
  write_json [] a.writing (put user_id (kitchen_time ++ b' ' ∷ tz) m)

-- `DeleteReminder`
unfoldable pub delete_reminder : Access → Text → Act (Content Entries) (Unit {0})
unfolding read_json write_json delete
delete_reminder a user_id = do
  m ← read_json [] a.reading
  write_json [] a.writing (delete user_id m)

-- `ListReminders`
unfoldable pub list_reminders : Access → Act (Content Entries) Entries
unfolding read_json
list_reminders a = read_json [] a.reading

-- `SetSlackBotUserID` of package internal
unfoldable pub set_slack_bot_user_id : Access → Text → Text → Act (Content Entries) (Unit {0})
unfolding read_json write_json put
set_slack_bot_user_id a bot_id user_id = do
  m ← read_json [] a.reading
  write_json [] a.writing (put bot_id user_id m)

-- `GetSlackBotUserID` of package internal
unfoldable pub get_slack_bot_user_id : Access → Text → Act (Content Entries) Text
unfolding read_json value_of
get_slack_bot_user_id a bot_id = do m ← read_json [] a.reading; return (value_of bot_id m)

-- `SetScheduledUserReminder`
unfoldable pub set_scheduled_user_reminder :
    Temporal Access → Text → Text → Text → Act (Content Entries) (Unit {0})
unfolding execute_local_activity set_reminder
set_scheduled_user_reminder envs user_id kitchen_time tz =
    execute_local_activity (λ a. set_reminder a user_id kitchen_time tz) envs

-- `DeleteScheduledUserReminder`
unfoldable pub delete_scheduled_user_reminder :
    Temporal Access → Text → Content Entries → Unit {0} × Content Entries
unfolding execute_local_activity delete_reminder
delete_scheduled_user_reminder envs user_id c =
    logged tt (execute_local_activity (λ a. delete_reminder a user_id) envs c)

-- `ListScheduledUserReminders`
unfoldable pub list_scheduled_user_reminders : Temporal Access → Act (Content Entries) Entries
unfolding execute_local_activity list_reminders
list_scheduled_user_reminders envs = execute_local_activity list_reminders envs

-- `SetSlackBotUserID` of package data
unfoldable pub call_set_slack_bot_user_id :
    Temporal Access → Text → Text → Content Entries → Unit {0} × Content Entries
unfolding execute_local_activity set_slack_bot_user_id
call_set_slack_bot_user_id envs bot_id user_id c =
    logged tt (execute_local_activity (λ a. set_slack_bot_user_id a bot_id user_id) envs c)

-- `GetSlackBotUserID` of package data
unfoldable pub call_get_slack_bot_user_id :
    Temporal Access → Text → Content Entries → Text × Content Entries
unfolding execute_local_activity get_slack_bot_user_id
call_get_slack_bot_user_id envs bot_id c =
    logged [] (execute_local_activity (λ a. get_slack_bot_user_id a bot_id) envs c)

-- ===== src/Turns/Caseless.antt =====
-- What the calls about a user make of an address.
use revchat.Base.{Bool, true, ◌≡◌, refl, ap}
use revchat.Base.Text.{Text, text_eq, Unicode, to_lower, to_lower_idem}
use revchat.Result.{Act}
use revchat.Activity.{Temporal, execute_local_activity, logged}
use revchat.Turns.Calls.{
  is_nobody, about, call_set_reviewer_turn, call_switch_turn, call_remove_reviewer,
  call_get_activity_time, call_update_activity_time, call_freeze_turns,
}
use revchat.Turns.Ops.{
  Nudge, set_reviewer_turn, switch_turn, remove_reviewer_from_turns, update_activity_time,
  freeze_turns,
}
use revchat.Turns.Queries.{get_activity_time}
use revchat.Turns.State.{Time}
use revchat.Turns.File.{Env, TurnsFile}

-- The calls about a user.
pub data UserCall : Type 0 where
  set_turn : Text → Bool → UserCall
  switch : Text → Bool → UserCall
  remove : Text → Bool → UserCall
  activity_time : Text → UserCall
  update_activity : Text → UserCall
  freeze : Text → UserCall

module _ ⦃u : Unicode⦄ where
  abbrev pub map_email : (Text → Text) → UserCall → UserCall
  map_email f (set_turn email nudge) = set_turn (f email) nudge
  map_email f (switch email force) = switch (f email) force
  map_email f (remove email approved) = remove (f email) approved
  map_email f (activity_time email) = activity_time (f email)
  map_email f (update_activity email) = update_activity (f email)
  map_email f (freeze email) = freeze (f email)

  abbrev pub email_of : UserCall → Text
  email_of (set_turn email nudge) = email
  email_of (switch email force) = email
  email_of (remove email approved) = email
  email_of (activity_time email) = email
  email_of (update_activity email) = email
  email_of (freeze email) = email

  -- The file after a call.
  abbrev pub perform : Temporal Env → UserCall → TurnsFile → TurnsFile
  perform envs (set_turn email nudge) c = (call_set_reviewer_turn envs email nudge c).1
  perform envs (switch email force) c = (call_switch_turn envs email force c).1
  perform envs (remove email approved) c = (call_remove_reviewer envs email approved c).1
  perform envs (activity_time email) c = (call_get_activity_time envs email c).1
  perform envs (update_activity email) c = (call_update_activity_time envs email c).1
  perform envs (freeze email) c = (call_freeze_turns envs email c).1

  about-lower :
      {R : Type 0} (email : Text) (nothing : R) (call : Text → R)
      → about (to_lower email) nothing call ≡ about email nothing call
  about-lower email nothing call = rw (to_lower_idem email) refl

  about-nobody :
      {R : Type 0} (email : Text) (nothing : R) (call : Text → R)
      → is_nobody (to_lower email) ≡ true
      → about email nothing call ≡ nothing
  about-nobody email nothing call n = rw n refl

  -- The case of an address does not matter to a call, and nothing happens to the file in a call
  -- about an empty address or a bot.
  pub perform-to_lower :
      (envs : Temporal Env) (call : UserCall) (c : TurnsFile)
      → (perform envs (map_email to_lower call) c ≡ perform envs call c)
        × (is_nobody (to_lower (email_of call)) ≡ true → perform envs call c ≡ c)
  unfolding call_set_reviewer_turn call_switch_turn call_remove_reviewer call_get_activity_time
      call_update_activity_time call_freeze_turns
  perform-to_lower envs (set_turn email nudge) c =
      let call : Text → Act TurnsFile Nudge =
        λ lower. execute_local_activity (λ env. set_reviewer_turn env lower nudge) envs in
      let left : (Act TurnsFile Nudge) → TurnsFile = (λ r. (r c).1) in
      (ap left (about-lower email _ call), λ n. ap left (about-nobody email _ call n))
  perform-to_lower envs (switch email force) c =
      let call : Text → Act TurnsFile (Unit {0}) =
        λ lower. execute_local_activity (λ env. switch_turn env lower force) envs in
      let left : (Act TurnsFile (Unit {0})) → TurnsFile = (λ r. (r c).1) in
      (ap left (about-lower email _ call), λ n. ap left (about-nobody email _ call n))
  perform-to_lower envs (remove email approved) c =
      let call : Text → Act TurnsFile (Unit {0}) = λ lower.
        execute_local_activity (λ env. remove_reviewer_from_turns env lower approved) envs in
      let left : (Act TurnsFile (Unit {0})) → TurnsFile = (λ r. (r c).1) in
      (ap left (about-lower email _ call), λ n. ap left (about-nobody email _ call n))
  perform-to_lower envs (activity_time email) c =
      let call : Text → Time × TurnsFile =
        λ lower. logged 0 (execute_local_activity (λ env. get_activity_time env lower) envs c) in
      let left : (Time × TurnsFile) → TurnsFile = (λ r. r.1) in
      (ap left (about-lower email _ call), λ n. ap left (about-nobody email _ call n))
  perform-to_lower envs (update_activity email) c =
      let call : Text → Unit {0} × TurnsFile = λ lower.
        logged tt (execute_local_activity (λ env. update_activity_time env lower) envs c) in
      let left : (Unit {0} × TurnsFile) → TurnsFile = (λ r. r.1) in
      (ap left (about-lower email _ call), λ n. ap left (about-nobody email _ call n))
  perform-to_lower envs (freeze email) c =
      let call : Text → Act TurnsFile Bool =
        λ lower. execute_local_activity (λ env. freeze_turns env lower) envs in
      let left : (Act TurnsFile Bool) → TurnsFile = (λ r. (r c).1) in
      (ap left (about-lower email _ call), λ n. ap left (about-nobody email _ call n))

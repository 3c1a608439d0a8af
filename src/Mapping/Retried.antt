-- ===== src/Mapping/Retried.antt =====
-- Calls of the mapping that Temporal may try again: what was mapped is read back.
use revchat.Activity.{Temporal, execute_local_activity}
use revchat.Base.{[], ◌≡◌, refl, ◌≢◌, arith}
use revchat.Base.Text.{Text}
use revchat.DataFile.{Content, stored, Disk}
use revchat.DataFile.Laws.{IsHealthy, load-stored}
use revchat.Mapping.Calls.{map_url_and_id, switch_url_and_id}
use revchat.Mapping.Laws.{value_of-set_mapping}
use revchat.Mapping.Ops.{
  Mapping, value_of, set_mapping, get_url_and_id_mapping, set_url_and_id_mapping,
}
use revchat.Result.{Result, ok, err, continue}
use revchat.Stores.Access.{Access}
use revchat.DataFile.{read_json, write_json, data_path, overwrite, only_value}

-- A file is written whole, or the writing fails.
write_json-ok :
    (d : Disk) (m : Mapping) (c c' : Content Mapping)
    → write_json [] d m c ≡ (ok tt, c')
    → c' ≡ stored m
unfolding write_json data_path overwrite
write_json-ok d m c c' e = ground (arith, e)

after-ok :
    (r : Result Mapping × Content Mapping) (url ids : Text) (d : Disk) (c' : Content Mapping)
    → continue r (λ m. write_json [] d (set_mapping url ids m)) ≡ (ok tt, c')
    → (m : Mapping) × (c' ≡ stored (set_mapping url ids m))
after-ok (ok m, c) url ids d c' e = (m, write_json-ok d (set_mapping url ids m) c c' e)
after-ok (err x, c) url ids d c' e = absurd (ground (arith, e))

set-ok :
    (a : Access) (url ids : Text) (c c' : Content Mapping)
    → set_url_and_id_mapping a.reading a.writing url ids c ≡ (ok tt, c')
    → (m : Mapping) × (c' ≡ stored (set_mapping url ids m))
unfolding set_url_and_id_mapping
set-ok a url ids c c' e = after-ok (read_json [] a.reading c) url ids a.writing c' e

-- The first attempt of a call is made on a healthy disk.
switch-stored :
    (t : Temporal Disk) (key : Text) (m : Mapping)
    → IsHealthy t.first
    → switch_url_and_id t key (stored m) ≡ (ok (value_of key m), stored m)
unfolding switch_url_and_id execute_local_activity get_url_and_id_mapping read_json only_value
switch-stored t key m h =
    t.at_once (λ d. get_url_and_id_mapping d key) (stored m) (value_of key m) (stored m)
      (rw (load-stored [] h m) refl)

-- Once `MapURLAndID` has returned no error, however many of its attempts failed, `SwitchURLAndID`
-- returns each of the two for the other, if they differ and nothing fails in its first attempt.
pub switch-map :
    (t : Temporal Access) (s : Temporal Disk) (url ids : Text) (c c' : Content Mapping)
    → url ≢ ids
    → IsHealthy s.first
    → map_url_and_id t url ids c ≡ (ok tt, c')
    → ((switch_url_and_id s url c').0 ≡ ok ids) × ((switch_url_and_id s ids c').0 ≡ ok url)
unfolding map_url_and_id execute_local_activity
switch-map t s url ids c c' differ h e =
    let (a, d, ended) =
      t.ended (λ a. set_url_and_id_mapping a.reading a.writing url ids) c tt c' e in
    let (m, left) = set-ok a url ids d c' ended in
    let (there, back, others) = value_of-set_mapping url ids m differ in
    (
      rw (left, switch-stored s url (set_mapping url ids m) h, there) refl,
      rw (left, switch-stored s ids (set_mapping url ids m) h, back) refl,
    )

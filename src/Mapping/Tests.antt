-- ===== src/Mapping/Tests.antt =====
-- The theorems on the mapping at concrete inputs.
use revchat.Base.{
  ℕ, zero, suc, Bool, true, false, ◌||◌, List, [], ◌∷◌, ◌++◌, some, ◌==◌, ◌≡◌, refl, arith, ◌≢◌,
}
use revchat.Base.Text.{Text, codes, text_eq, has_prefix}
use revchat.Mapping.Laws.{lookup-del_mapping}
use revchat.Mapping.Ops.{Mapping, set_mapping, del_mapping}
use revchat.Activity.{Temporal}
use revchat.Activity.Retry.{retrying}
use revchat.DataFile
use revchat.DataFile.{Disk, opened, written, refused, stored, absent}
use revchat.DataFile.Laws.{IsHealthy}
use revchat.Mapping.Calls.{map_url_and_id, switch_url_and_id}
use revchat.Mapping.Retried.{switch-map}
use revchat.Result.{ok}
use revchat.Stores.Access.{Access}

abbrev url : Text
url = codes "https://x.org/w/r/pull/1"

abbrev other_url : Text
other_url = codes "https://x.org/w/r/pull/2"

abbrev mapping : Mapping
mapping = set_mapping url (codes "C1") (
    set_mapping other_url (codes "C2")
      (set_mapping (codes "https://x.org/w/r/pull/1/comments/5") (codes "C1/17") []))

lookup-del_mapping_example :
    ((url == other_url) ≡ false)
    × ((codes "C2" == url) ≡ false)
    × (has_prefix other_url (url ++ b'/' ∷ []) ≡ false)
    × (has_prefix (codes "C2") (url ++ b'/' ∷ []) ≡ false)
unfolding del_mapping set_mapping revchat.Base.Text.text_beq
lookup-del_mapping_example = lookup-del_mapping url other_url (codes "C2") mapping refl

abbrev good_disk : Disk
good_disk = record {
  path_ok = true;
  fix_ok = true;
  open_outcome = opened;
  write_outcome = written;
  remove_outcome = DataFile.removed;
}

-- The first attempt cannot open the file, the second can.
abbrev bad_disk : Disk
bad_disk = record good_disk { open_outcome = refused }

abbrev second_good : ℕ → Access
second_good zero = record { reading = bad_disk; writing = good_disk }
second_good (suc n) = record { reading = good_disk; writing = good_disk }

abbrev second_time : Temporal Access
second_time = retrying second_good

abbrev first_time : Temporal Disk
first_time = retrying (λ n. good_disk)

good_disk-IsHealthy : IsHealthy good_disk
good_disk-IsHealthy = record {
  path_ok = refl;
  fixed = refl;
  can_open = refl;
  can_write = refl;
  can_remove = refl;
}

abbrev mapped : Mapping
mapped = set_mapping url (codes "C1") []

mapped_at_last : map_url_and_id second_time url (codes "C1") absent ≡ (ok tt, stored mapped)
unfolding map_url_and_id set_mapping revchat.Base.Text.text_beq
mapped_at_last = refl

url_differs : url ≢ codes "C1"
url_differs e = ground (arith, e)

switch-map_example :
    ((switch_url_and_id first_time url (stored mapped)).0 ≡ ok (codes "C1"))
    × ((switch_url_and_id first_time (codes "C1") (stored mapped)).0 ≡ ok url)
switch-map_example =
    switch-map second_time first_time url (codes "C1") absent (stored mapped) url_differs
      good_disk-IsHealthy mapped_at_last

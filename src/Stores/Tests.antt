-- ===== src/Stores/Tests.antt =====
-- Runs on the stored builds and diffstats, and a theorem at a concrete state.
use revchat.Base.{true, false, none, some, [], ◌∷◌, ◌≡◌, refl}
use revchat.Base.Text.{Text, codes, text_eq, text_beq}
use revchat.DataFile
use revchat.DataFile.{Disk, opened, written, stored}
use revchat.DataFile.Laws.{IsHealthy}
use revchat.Json.{Json, Fields}
use revchat.Result.{ok}
use revchat.Stores.Access.{Access}
use revchat.Stores.Builds.{
  CommitStatus, PrStatus, updated, update_bitbucket_builds, read_bitbucket_builds,
}
use revchat.Stores.BuildLaws
use revchat.Stores.BuildLaws.{IsUpdate}
use revchat.Stores.Diffstat.{extract_file_paths}
use revchat.Stores.Snapshots.{find_prs_by_commit}

abbrev calm_disk : Disk
calm_disk = record {
  path_ok = true;
  fix_ok = true;
  open_outcome = opened;
  write_outcome = written;
  remove_outcome = DataFile.removed;
}

calm_disk-IsHealthy : IsHealthy calm_disk
calm_disk-IsHealthy = record {
  path_ok = refl;
  fixed = refl;
  can_open = refl;
  can_write = refl;
  can_remove = refl;
}

abbrev access : Access
access = record { reading = calm_disk; writing = calm_disk }

abbrev status_of : Text → CommitStatus
status_of state = record { name = codes "build"; state = state; desc = []; url = [] }

abbrev before : PrStatus
before = record {
  commit_hash = codes "c1";
  builds = some ((codes "a", status_of (codes "INPROGRESS")) ∷ []);
}

abbrev after : PrStatus
after = record {
  commit_hash = codes "c1";
  builds =
      some (
        (codes "a", status_of (codes "INPROGRESS")) ∷ (codes "b", status_of (codes "FAILED")) ∷ []);
}

updated_once : updated before (codes "c1") (codes "b") (status_of (codes "FAILED")) ≡ some after
unfolding updated text_beq
updated_once = refl

update_bitbucket_builds-IsUpdate_example :
    (update_bitbucket_builds access
        (codes "c1")
        (codes "b")
        (status_of (codes "FAILED"))
        (stored before)
      ≡ (ok tt, stored after))
    × (read_bitbucket_builds access (stored after) ≡ (ok (some after), stored after))
    × IsUpdate before (codes "c1") (codes "b") (status_of (codes "FAILED")) after
update_bitbucket_builds-IsUpdate_example =
    BuildLaws.update_bitbucket_builds-IsUpdate access before (codes "c1") (codes "b")
      (status_of (codes "FAILED")) after calm_disk-IsHealthy calm_disk-IsHealthy updated_once

abbrev path_block : Text → Json
path_block p = Json.obj (Fields.field (codes "path") (Json.str p) Fields.end)

-- A renamed file counts with both of its names.
renamed_paths :
    extract_file_paths (
      Fields.field
        (codes "old")
        (path_block (codes "b"))
        (Fields.field (codes "new") (path_block (codes "a")) Fields.end)
      ∷ [])
    ≡ codes "a" ∷ codes "b" ∷ []
unfolding extract_file_paths text_beq
renamed_paths = refl

abbrev github_pr : Fields
github_pr =
    Fields.field (codes "head")
      (Json.obj (Fields.field (codes "sha") (Json.str (codes "ab")) Fields.end))
      (Fields.field (codes "draft") (Json.bool false) Fields.end)

-- The hash of a snapshot may be shorter than that of the event; only some of its fields are kept.
pruned_match :
    find_prs_by_commit (codes "abcd") (ok (some github_pr) ∷ ok none ∷ [])
    ≡ Fields.field (codes "draft") (Json.bool false) Fields.end ∷ []
unfolding find_prs_by_commit text_beq
pruned_match = refl

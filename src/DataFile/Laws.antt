-- ===== src/DataFile/Laws.antt =====
-- A data file on a disk that answers every access.
use revchat.Base.{true, ◌≡◌, arith}
use revchat.Result.{ok}
use revchat.DataFile.{Content, stored, Disk, opened, written, removed, value, write_json, load}

-- Nothing fails in this access.
pub record IsHealthy (d : Disk) : Type 0 where
  pub path_ok : d.path_ok ≡ true
  pub fixed : d.fix_ok ≡ true
  pub can_open : d.open_outcome ≡ opened
  pub can_write : d.write_outcome ≡ written
  pub can_remove : d.remove_outcome ≡ removed

module _ {T : Type 0} (blank : T) {d : Disk} (h : IsHealthy d) where
  pub load-stored : (v : T) → load blank d (stored v) ≡ (ok (value v), stored v)
  unfolding load
  load-stored v = ground (arith, h.path_ok, h.can_open)

  pub write_json-stored : (v : T) (c : Content T) → write_json blank d v c ≡ (ok tt, stored v)
  unfolding write_json
  write_json-stored v c = ground (arith, h.path_ok, h.can_write)

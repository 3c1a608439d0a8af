-- ===== src/Stores/Access.antt =====
-- What the operating system answers to one attempt of an activity that reads a file and writes it.
use revchat.DataFile.{Disk}

pub record Access : Type 0 where
  pub reading : Disk
  pub writing : Disk

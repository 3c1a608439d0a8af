-- ===== src/Turns/Healthy.antt =====
-- The turns file when the disk answers, and holds a state that some operation has written.
use revchat.Base.{false, [], ◌==◌, ◌≡◌}
use revchat.Base.Text.{text_eq, Unicode}
use revchat.DataFile.{Disk, stored}
use revchat.DataFile.Laws.{IsHealthy, load-stored, write_json-stored}
use revchat.Result.{ok}
use revchat.Turns.File.{Env, TurnsFile, write_turns, read_turns}
use revchat.Turns.Normal.{IsNormal, normalize_of_IsNormal}
use revchat.Turns.State.{PrTurns, no_turns}

module _ ⦃u : Unicode⦄ where
  -- The surroundings answer every access, and the state on the disk has an author.
  pub record IsReady (env : Env) (t : PrTurns) : Type 0 where
    pub reads : IsHealthy env.reading
    pub writes : IsHealthy env.writing
    pub normal : IsNormal t
    pub has_author : (t.author == []) ≡ false

  pub write_turns-stored :
      {d : Disk} (t : PrTurns) (c : TurnsFile)
      → IsHealthy d
      → IsNormal t
      → write_turns d t c ≡ (ok tt, stored t)
  unfolding write_turns
  write_turns-stored t c h n = rw (normalize_of_IsNormal t n) (write_json-stored no_turns h t c)

  pub read_turns-stored :
      {env : Env} {t : PrTurns} → IsReady env t → read_turns env (stored t) ≡ (ok t, stored t)
  unfolding read_turns
  read_turns-stored {env} {t} r =
      rw (load-stored no_turns r.reads t, r.has_author, normalize_of_IsNormal t r.normal)

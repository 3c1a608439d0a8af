-- ===== src/Turns/Freeze.antt =====
-- `FreezeTurns`, `UnfreezeTurns` and `IsFrozen`.
use revchat.Base.{
  true, false, [], if◌then◌else◌, ◌≡◌, refl, sym, ap, ap₂, ◌∙◌, arith, Bool-cases, inl, inr,
}
use revchat.Base.Text.{Text, text_eq, Unicode, IsLower, to_lower}
use revchat.DataFile.{stored}
use revchat.Result.{ok}
use revchat.Turns.File.{Env}
use revchat.Turns.Healthy.{IsReady, write_turns-stored, read_turns-stored}
use revchat.Turns.Ops.{freeze_turns, unfreeze_turns}
use revchat.Turns.Queries.{is_frozen}
use revchat.Turns.State.{Time, is_zero, PrTurns}

module _ ⦃u : Unicode⦄ where
  abbrev with_frozen : PrTurns → Time → Text → PrTurns
  with_frozen t at by = record t { frozen_at = at; frozen_by = by }

  with_frozen-IsReady :
      {env : Env} {t : PrTurns} (at : Time) (by : Text)
      → IsReady env t
      → IsLower by
      → IsReady env (with_frozen t at by)
  with_frozen-IsReady {env} {t} at by r l = record {
    reads = r.reads;
    writes = r.writes;
    normal = record {
      author_lower = r.normal.author_lower;
      frozen_by_lower = l;
      reviewers_normal = r.normal.reviewers_normal;
      activity_normal = r.normal.activity_normal;
      approvers_normal = r.normal.approvers_normal;
    };
    has_author = r.has_author;
  }

  freeze_turns-stored :
      {env : Env} {t : PrTurns} (email : Text)
      → IsReady env t
      → IsLower email
      → freeze_turns env email (stored t) ≡ (
          if is_zero t.frozen_at
          then (ok true, stored (with_frozen t env.now email))
          else (ok false, stored t))
  unfolding freeze_turns
  freeze_turns-stored {env} {t} email r l = rw (read_turns-stored r) (
      ground (
        arith,
        write_turns-stored (with_frozen t env.now email) (stored t) r.writes
            (with_frozen-IsReady env.now email r l).normal,
      ))

  unfreeze_turns-stored :
      {env : Env} {t : PrTurns}
      → IsReady env t
      → unfreeze_turns env (stored t) ≡ (
          if is_zero t.frozen_at
          then (ok false, stored t)
          else (ok true, stored (with_frozen t 0 [])))
  unfolding unfreeze_turns to_lower
  unfreeze_turns-stored {env} {t} r = rw (read_turns-stored r) (
      ground (
        arith,
        write_turns-stored (with_frozen t 0 []) (stored t) r.writes
            (with_frozen-IsReady 0 [] r refl).normal,
      ))

  is_frozen-stored :
      {env : Env} {t : PrTurns}
      → IsReady env t
      → is_frozen env (stored t) ≡ (ok (record { at = t.frozen_at; by = t.frozen_by }), stored t)
  unfolding is_frozen
  is_frozen-stored r = rw (read_turns-stored r)

  -- The first user to freeze turns stays on record: `FreezeTurns` returns whether turns were not
  -- frozen, and `IsFrozen` then reports this call's time and user if they were not, and those of
  -- the earlier freeze if they were.
  freeze_turns-is_frozen :
      {env : Env} {t : PrTurns} (email : Text)
      → IsReady env t
      → IsLower email
      → ((freeze_turns env email (stored t)).0 ≡ ok (is_zero t.frozen_at))
        × (is_frozen env (freeze_turns env email (stored t)).1).0
          ≡ ok (
              if is_zero t.frozen_at
              then record { at = env.now; by = email }
              else record { at = t.frozen_at; by = t.frozen_by })
  freeze_turns-is_frozen {env} {t} email r l = elim (Bool-cases (is_zero t.frozen_at)) [
    | inl e ↦
        rw (freeze_turns-stored email r l, e)
          (refl, ap (λ s. s.0) (is_frozen-stored (with_frozen-IsReady env.now email r l)))
    | inr e ↦ rw (freeze_turns-stored email r l, e) (refl, ap (λ s. s.0) (is_frozen-stored r))
  ]

  -- `UnfreezeTurns` undoes `FreezeTurns`: on turns that are not frozen the file is back to what it
  -- held, and both calls return true, provided that the clock does not show the zero time.
  pub freeze_turns-unfreeze_turns :
      {env : Env} {t : PrTurns} (email : Text)
      → IsReady env t
      → IsLower email
      → t.frozen_at ≡ 0
      → t.frozen_by ≡ []
      → is_zero env.now ≡ false
      → ((freeze_turns env email (stored t)).0 ≡ ok true)
        × (unfreeze_turns env (freeze_turns env email (stored t)).1 ≡ (ok true, stored t))
  freeze_turns-unfreeze_turns {env} {t} email r l at by now =
      let e : is_zero t.frozen_at ≡ true = ground (arith, at) in
      rw (freeze_turns-stored email r l, e)
        (
          refl,
          unfreeze_turns-stored (with_frozen-IsReady env.now email r l)
              ∙ rw now (ap₂ (λ a b. (ok true, stored (with_frozen t a b))) (sym at) (sym by)),
        )

-- ===== src/Activity.antt =====
-- pkg/data/temporal.go: `executeLocalActivity`. How Temporal runs a local activity is a parameter.
-- Temporal tries an activity that returns an error again; what the surroundings, of type `E`, answer
-- differs from attempt to attempt.
use revchat.Base.{◌≡◌}
use revchat.Result.{Result, ok, err, Act}
pub mod Retry

-- What Temporal does with an activity in one call, and the surroundings of its first attempt. A
-- result without an error is that of an attempt; and if the first attempt returns no error, then the
-- result is that of this one.
pub record Temporal (E : Type 0) : Type 1 where
  pub first : E
  pub run : {S A : Type 0} → (E → Act S A) → Act S A
  pub ended :
      {S A : Type 0} (activity : E → Act S A) (c : S) (a : A) (c' : S)
      → run activity c ≡ (ok a, c')
      → (env : E) × (d : S) × (activity env d ≡ (ok a, c'))
  pub at_once :
      {S A : Type 0} (activity : E → Act S A) (c : S) (a : A) (c' : S)
      → activity first c ≡ (ok a, c')
      → run activity c ≡ (ok a, c')

-- `executeLocalActivity`
unfoldable pub execute_local_activity : {E S A : Type 0} → (E → Act S A) → Temporal E → Act S A
execute_local_activity activity temporal = temporal.run activity

-- What is left of a result when an error is only logged.
abbrev pub logged {ℓ} : {S : Type ℓ} {A : Type 0} → A → Result A × S → A × S
logged default (ok a, c) = (a, c)
logged default (err e, c) = (default, c)

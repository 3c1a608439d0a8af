-- ===== src/Activity/Retry.antt =====
-- A server as `Temporal` asks for, for runs on concrete inputs: it makes at most five attempts.
use revchat.Activity.{Temporal}
use revchat.Base.{ℕ, zero, suc, ◌+◌, ◌≡◌, refl, ap, ◌∙◌}
use revchat.Result.{Result, ok, err, Act}

module _ {S A : Type 0} where
  abbrev retried : Act S A → Result A × S → Result A × S
  retried again (ok a, c) = (ok a, c)
  retried again (err e, c) = again c

module _ {E S A : Type 0} where
  -- The attempts from the `i`-th on, with the number of those that may follow it.
  abbrev attempts : (E → Act S A) → (ℕ → E) → ℕ → ℕ → Act S A
  attempts activity envs i zero c = activity (envs i) c
  attempts activity envs i (suc left) c =
      retried (attempts activity envs (i + 1) left) (activity (envs i) c)

module _ {E S A : Type 0} (activity : E → Act S A) where
  -- Some attempt ended with this result.
  abbrev Ended : A → S → Type 0
  Ended a c' = (env : E) × (d : S) × (activity env d ≡ (ok a, c'))

  retried-Ended :
      (again : Act S A) (env : E) (c : S) (r : Result A × S) (a : A) (c' : S)
      → activity env c ≡ r
      → ((d : S) → again d ≡ (ok a, c') → Ended a c')
      → retried again r ≡ (ok a, c')
      → Ended a c'
  retried-Ended again env c (ok b, d) a c' h k e = (env, c, h ∙ e)
  retried-Ended again env c (err b, d) a c' h k e = k d e

  pub attempts-Ended :
      (envs : ℕ → E) (i left : ℕ) (c : S) (a : A) (c' : S)
      → attempts activity envs i left c ≡ (ok a, c')
      → Ended a c'
  attempts-Ended envs i zero c a c' e = (envs i, c, e)
  attempts-Ended envs i (suc left) c a c' e =
      retried-Ended (attempts activity envs (i + 1) left) (envs i) c (activity (envs i) c) a c' refl
        (λ d k. attempts-Ended envs (i + 1) left d a c' k) e

-- The server that gives each attempt these surroundings.
abbrev pub retrying : {E : Type 0} → (ℕ → E) → Temporal E
retrying envs = record {
  first = envs 0;
  run = λ activity. attempts activity envs 0 4;
  ended = λ activity c a c' e. attempts-Ended activity envs 0 4 c a c' e;
  at_once = λ activity c a c' e. ap (retried (attempts activity envs 1 3)) e;
}

-- ===== src/Result.antt =====
-- Go's pair of a value and an error, as one value or one error.

-- The errors that the modelled functions return, one for each message.
pub data Error : Type 0 where
  path_failed open_failed decode_failed write_failed remove_failed : Error
  snapshot_failed snapshot_missing : Error
  conflicting_users invalid_index_type panicked : Error

pub data Result {ℓ} (A : Type ℓ) : Type ℓ where
  ok : A → Result A
  err : Error → Result A

-- A computation over a state: the result, and the state that it leaves behind in any case.
abbrev pub Act {ℓ} : Type ℓ → Type 0 → Type ℓ
Act S A = S → Result A × S

abbrev pub continue {ℓ} : {S : Type ℓ} {A B : Type 0} → Result A × S → (A → Act S B) → Result B × S
continue (ok a, s) f = f a s
continue (err e, s) f = (err e, s)

infixl 5 ◌>>=◌ ◌>>◌
abbrev pub ◌>>=◌ {ℓ} : {S : Type ℓ} {A B : Type 0} → Act S A → (A → Act S B) → Act S B
◌>>=◌ m f s = continue (m s) f

abbrev pub ◌>>◌ {ℓ} : {S : Type ℓ} {B : Type 0} → Act S (Unit {0}) → Act S B → Act S B
◌>>◌ m k s = continue (m s) (λ _. k)

abbrev pub return {ℓ} : {S : Type ℓ} {A : Type 0} → A → Act S A
return a s = (ok a, s)

abbrev pub fail {ℓ} : {S : Type ℓ} {A : Type 0} → Error → Act S A
fail e s = (err e, s)

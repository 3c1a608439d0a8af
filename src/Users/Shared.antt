-- ===== src/Users/Shared.antt =====
-- Names that several users share, in the index of names.
use revchat.Base.{
  ℕ, zero, suc, ◌+◌, ◌≤◌, ◌<◌, Bool, true, false, not, ◌&&◌, ◌||◌, List, [], ◌∷◌, ◌++◌, beq_refl,
  Option, none, some, if◌then◌else◌, ◌==◌, length, ◌≡◌, refl, sym, ap, subst, ◌∙◌, arith,
  Bool-cases, inl, inr,
}
use revchat.Base.Dict.{lookup, has_key, put, lookup-put, has_key-put, lookup_of_not-has_key}
use revchat.Base.Integers.{ℤ, pos, negsuc}
use revchat.Base.Text.{Text, text_eq, Unicode}
use revchat.Result.{err, conflicting_users}
use revchat.Users.Db.{
  User, Users, Maps, no_maps, missing, find, put_unless, index_user, index_users, indexed,
  find_user_index, combine,
}
use revchat.Users.Ops.{Fields, upsert}

module _ (name : Text) (named : (name == []) ≡ false) where
  -- What an entry writes to the index of names.
  abbrev named_step : ℕ → Text → List (Text × ℤ) → List (Text × ℤ)
  named_step i key m = put_unless (key == []) key (if has_key key m then missing else pos i) m

  has_key-put_any :
      (key : Text) (v : ℤ) (m : List (Text × ℤ))
      → has_key name m ≡ true
      → has_key name (put key v m) ≡ true
  has_key-put_any key v m h = ground (arith, has_key-put key name v m)

  named_step-kept :
      (i : ℕ) (key : Text) (m : List (Text × ℤ))
      → has_key name m ≡ true
      → has_key name (named_step i key m) ≡ true
  named_step-kept i key m h = elim (Bool-cases (key == [])) [
    | inl y ↦ rw y h
    | inr n ↦ rw n (has_key-put_any key (if has_key key m then missing else pos i) m h)
  ]

  named_step-own : (i : ℕ) (m : List (Text × ℤ)) → has_key name (named_step i name m) ≡ true
  named_step-own i m = rw named (
      has_key-put name name (if has_key name m then missing else pos i) m
      ∙ (rw (beq_refl name) refl))

  named_step-shared :
      (i : ℕ) (m : List (Text × ℤ))
      → has_key name m ≡ true
      → lookup name (named_step i name m) ≡ some missing
  named_step-shared i m h =
      rw (named, h) (lookup-put name name missing m ∙ (rw (beq_refl name) refl))

  missing-has_key : (m : List (Text × ℤ)) → lookup name m ≡ some missing → has_key name m ≡ true
  missing-has_key m h = elim (Bool-cases (has_key name m)) [
    | inl y ↦ y
    | inr n ↦ absurd (ground (arith, h, lookup_of_not-has_key name m n))
  ]

  named_step-missing :
      (i : ℕ) (key : Text) (m : List (Text × ℤ))
      → lookup name m ≡ some missing
      → lookup name (named_step i key m) ≡ some missing
  named_step-missing i key m h = elim (Bool-cases (key == name)) [
    | inl same ↦
        subst (λ k. lookup name (named_step i k m) ≡ some missing)
          (sym ((text_eq.equals_iff key name).0 same)) (named_step-shared i m (missing-has_key m h))
    | inr other ↦ elim (Bool-cases (key == [])) [
      | inl y ↦ rw y h
      | inr n ↦
          rw n (lookup-put key name (if has_key key m then missing else pos i) m ∙ (rw other h))
    ]
  ]

  module _ ⦃t : Unicode⦄ where
    index_users-missing :
        (i : ℕ) (l : List User) (m : Maps)
        → lookup name m.names ≡ some missing
        → lookup name (index_users i l m).names ≡ some missing
    unfolding index_users index_user
    index_users-missing i [] m h = h
    index_users-missing i (user ∷ l) m h =
        index_users-missing (suc i) l (index_user i user m)
          (named_step-missing i user.real_name m.names h)

    -- The second entry of the name, behind one that wrote it.
    index_users-second :
        (i : ℕ) (mid after : List User) (b : User) (m : Maps)
        → b.real_name ≡ name
        → has_key name m.names ≡ true
        → lookup name (index_users i (mid ++ b ∷ after) m).names ≡ some missing
    unfolding index_users index_user
    index_users-second i [] after b m e h = index_users-missing (suc i) after (index_user i b m) (
        subst (λ k. lookup name (named_step i k m.names) ≡ some missing) (sym e)
          (named_step-shared i m.names h))
    index_users-second i (user ∷ mid) after b m e h =
        index_users-second (suc i) mid after b (index_user i user m) e
          (named_step-kept i user.real_name m.names h)

    index_users-shared :
        (i : ℕ) (before mid after : List User) (a b : User) (m : Maps)
        → a.real_name ≡ name
        → b.real_name ≡ name
        → lookup name (index_users i (before ++ a ∷ (mid ++ b ∷ after)) m).names ≡ some missing
    unfolding index_users index_user
    index_users-shared i [] mid after a b m ea eb =
        index_users-second (suc i) mid after b (index_user i a m) eb (
          subst (λ k. has_key name (named_step i k m.names) ≡ true) (sym ea)
            (named_step-own i m.names))
    index_users-shared i (user ∷ before) mid after a b m ea eb =
        index_users-shared (suc i) before mid after a b (index_user i user m) ea eb

-- The indexes give an address, and the mark of a shared name.
conflict :
    (now : ℕ) (f : Fields) (u : Users) (i : ℕ)
    → find u.email_index f.email ≡ some (pos i)
    → find u.name_index f.real_name ≡ some missing
    → upsert now f u ≡ (err conflicting_users, u)
unfolding upsert find_user_index combine revchat.Base.Integers.int_eq
conflict now f u i e g = rw (e, g, upsert, find_user_index) refl

-- If two entries of the file have the same name, which is not empty, then `UpsertUser` on the users as
-- they were read, with this name and an address that is in the index, changes nothing in memory and
-- reports a conflict, whatever the other keys are: also if the address is that of one of the two.
pub upsert-shared_name :
    ⦃t : Unicode⦄ (now : ℕ) (f : Fields) (before mid after : List User) (a b : User) (i : ℕ)
    → (f.real_name == []) ≡ false
    → a.real_name ≡ f.real_name
    → b.real_name ≡ f.real_name
    → find (indexed (before ++ a ∷ (mid ++ b ∷ after))).email_index f.email ≡ some (pos i)
    → upsert now f (indexed (before ++ a ∷ (mid ++ b ∷ after)))
      ≡ (err conflicting_users, indexed (before ++ a ∷ (mid ++ b ∷ after)))
unfolding find indexed
upsert-shared_name now f before mid after a b i named ea eb known =
    conflict now f (indexed (before ++ a ∷ (mid ++ b ∷ after))) i known
      (index_users-shared f.real_name named 0 before mid after a b no_maps ea eb)

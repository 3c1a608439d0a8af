-- ===== src/Cache/Visible.antt =====
-- What can be seen of a cache: the unexpired item of a key.
use revchat.Base.{
  ℕ, ◌≤◌, true, false, List, [], ◌∷◌, Option, none, some, if◌then◌else◌, ◌≡◌, refl, sym, subst, ◌∙◌,
  arith, Bool-cases, inl, inr,
}
use revchat.Base.Dict.{
  lookup, has_key, put, delete, IsMap, lookup-put, lookup-delete, lookup_of_not-has_key,
}
use revchat.Base.Text.{Text, text_eq}
use revchat.Cache.Store.{Item, expired, unexpired}

module _ {ℓ} {T : Type ℓ} where
  -- An item at a time: nothing once it has expired.
  abbrev pub live : ℕ → Option (Item T) → Option (Item T)
  live now none = none
  live now (some item) = if expired now item then none else some item

  -- The item of a key at a time.
  abbrev pub visible : ℕ → List (Text × Item T) → Text → Option (Item T)
  visible now m key = live now (lookup key m)

  -- An expired item stays so.
  pub expired-later :
      (t u : ℕ) (item : Item T) → t ≤ u → expired t item ≡ true → expired u item ≡ true
  unfolding expired
  expired-later t u item le h = ground arith

  pub live-later : (t u : ℕ) (o : Option (Item T)) → t ≤ u → live t o ≡ none → live u o ≡ none
  unfolding expired
  live-later t u none le h = refl
  live-later t u (some item) le h = ground arith

  pub visible-put :
      (u : ℕ) (k j : Text) (item : Item T) (m : List (Text × Item T))
      → visible u (put k item m) j
        ≡ (if text_eq.equals k j then live u (some item) else visible u m j)
  visible-put u k j item m = rw (lookup-put k j item m) (ground arith)

  pub visible-delete :
      (u : ℕ) (k j : Text) (m : List (Text × Item T))
      → visible u (delete k m) j ≡ (if text_eq.equals k j then none else visible u m j)
  visible-delete u k j m = rw (lookup-delete k j m) (ground arith)

  -- Deleting an expired item changes nothing that can be seen from then on.
  pub visible-delete-expired :
      (t u : ℕ) (k j : Text) (m : List (Text × Item T))
      → t ≤ u
      → visible t m k ≡ none
      → visible u (delete k m) j ≡ visible u m j
  visible-delete-expired t u k j m le h =
      visible-delete u k j m
      ∙ ground (arith, text_eq.equals_iff k j, live-later t u (lookup k m) le h)

  pub has_key-unexpired :
      (t : ℕ) (k : Text) (m : List (Text × Item T))
      → has_key k m ≡ false
      → has_key k (unexpired t m) ≡ false
  unfolding unexpired has_key
  has_key-unexpired t k [] h = refl
  has_key-unexpired t k ((j, item) ∷ m) h = ground (arith, has_key-unexpired t k m)

  pub unexpired-IsMap : (t : ℕ) (m : List (Text × Item T)) → IsMap m → IsMap (unexpired t m)
  unfolding unexpired
  unexpired-IsMap t [] h = tt
  unexpired-IsMap t ((j, item) ∷ m) h =
      ground (arith, has_key-unexpired t j m h.0, unexpired-IsMap t m h.1)

  -- An expired item in front of a map that has no other item of its key.
  visible-expired_cons :
      (t u : ℕ) (k j : Text) (item : Item T) (m : List (Text × Item T))
      → has_key k m ≡ false
      → t ≤ u
      → expired t item ≡ true
      → visible u ((k, item) ∷ m) j ≡ visible u m j
  unfolding lookup
  visible-expired_cons t u k j item m fresh le h = elim (Bool-cases (text_eq.equals k j)) [
    | inl y ↦
        let same : k ≡ j = (text_eq.equals_iff k j).0 y in
        let absent : lookup j m ≡ none =
          subst (λ i. lookup i m ≡ none) same (lookup_of_not-has_key k m fresh) in
        rw (y, absent, expired-later t u item le h) refl
    | inr n ↦ rw n refl
  ]

  visible-cons :
      (u : ℕ) (k j : Text) (item : Item T) (m n : List (Text × Item T))
      → visible u m j ≡ visible u n j
      → visible u ((k, item) ∷ m) j ≡ visible u ((k, item) ∷ n) j
  unfolding lookup
  visible-cons u k j item m n h = ground (arith, h)

  -- So does the deletion of all expired items.
  pub visible-unexpired :
      (t u : ℕ) (j : Text) (m : List (Text × Item T))
      → IsMap m
      → t ≤ u
      → visible u (unexpired t m) j ≡ visible u m j
  unfolding unexpired lookup has_key
  visible-unexpired t u j [] h le = refl
  visible-unexpired t u j ((k, item) ∷ m) h le =
      let rest = visible-unexpired t u j m h.1 le in
      elim (Bool-cases (expired t item)) [
        | inl y ↦ rw y (rest ∙ sym (visible-expired_cons t u k j item m h.0 le y))
        | inr n ↦ rw n (visible-cons u k j item (unexpired t m) m rest)
      ]

-- ===== src/Cache/Listing.antt =====
-- `Keys`, `Items`, `ItemCount` and `Len`.
use revchat.Base.{
  ℕ, ◌≤◌, Bool, true, false, List, [], ◌∷◌, Option, none, some, ◌≡◌, refl, ap, ◌∙◌, arith, length,
  contains,
}
use revchat.Base.Dict.{lookup, IsMap, lookup_of_not-has_key}
use revchat.Base.Text.{Text, text_eq}
use revchat.Cache.Store.{Item, Cache, keys_of, items_of, count_of, keys, items, item_count, len}
use revchat.Cache.Visible.{visible}

abbrev pub is_some {κ} : {A : Type κ} → Option A → Bool
is_some none = false
is_some (some a) = true

module _ {ℓ} {T : Type ℓ} where
  lookup-items_of :
      (now : ℕ) (j : Text) (m : List (Text × Item T))
      → IsMap m
      → lookup j (items_of now m) ≡ visible now m j
  unfolding items_of lookup
  lookup-items_of now j [] h = refl
  lookup-items_of now j ((key, item) ∷ m) h = ground (
    arith,
    lookup-items_of now j m h.1,
    text_eq.equals_iff key j,
    lookup_of_not-has_key key m h.0,
  )

  contains-keys_of :
      (now : ℕ) (j : Text) (m : List (Text × Item T))
      → contains (keys_of now m) j ≡ is_some (lookup j (items_of now m))
  unfolding keys_of items_of lookup contains
  contains-keys_of now j [] = refl
  contains-keys_of now j ((key, item) ∷ m) = ground (arith, contains-keys_of now j m)

  counts :
      (now : ℕ) (m : List (Text × Item T))
      → (count_of now m ≡ length (items_of now m))
        × (count_of now m ≡ length (keys_of now m))
        × (count_of now m ≤ length m)
  unfolding count_of items_of keys_of
  counts now [] = (refl, refl, omega arith)
  counts now ((key, item) ∷ m) = let (a, b, d) = counts now m in ground (arith, a, b, d)

  -- In a cache with no key twice, the keys, the items and their number are those that can be seen at
  -- the time, and `Len`, which counts the expired ones too, is at least as many.
  pub listing_visible :
      (now : ℕ) (c : Cache T)
      → IsMap c.entries
      → ((key : Text) → contains (keys now c) key ≡ is_some (visible now c.entries key))
        × ((key : Text) → lookup key (items now c) ≡ visible now c.entries key)
        × (item_count now c ≡ length (items now c))
        × (item_count now c ≡ length (keys now c))
        × (item_count now c ≤ len c)
  unfolding keys items item_count len
  listing_visible now c h = (
    (λ key. contains-keys_of now key c.entries ∙ ap is_some (lookup-items_of now key c.entries h)),
    (λ key. lookup-items_of now key c.entries h),
    (counts now c.entries).0,
    (counts now c.entries).1,
    (counts now c.entries).2,
  )

-- ===== src/Mapping/Laws.antt =====
-- What is left of a key after its deletion, and what is read back.
use revchat.Base.{
  true, false, ◌||◌, List, [], ◌∷◌, ◌++◌, none, some, if◌then◌else◌, ◌==◌, contains, ◌≡◌, refl, sym,
  ◌∙◌, arith, Bool-cases, inl, inr, beq_refl, ◌≢◌,
}
use revchat.Base.Dict.{lookup, put, delete, lookup-put, lookup-delete}
use revchat.Base.Text.{Text, text_eq, has_prefix}
use revchat.Mapping.Ops.{
  Mapping, value_of, set_mapping, delete_both, delete_values, more_keys_to_delete, delete_all,
  del_mapping,
}

lookup-delete-some :
    (k j v : Text) (m : Mapping)
    → lookup j (delete k m) ≡ some v
    → ((k == j) ≡ false) × (lookup j m ≡ some v)
lookup-delete-some k j v m h = ground (arith, lookup-delete k j m)

lookup-delete_values :
    (key j v : Text) (m : Mapping) → lookup j (delete_values key m) ≡ some v → (v == key) ≡ false
unfolding lookup delete_values
lookup-delete_values key j v [] h = ground arith
lookup-delete_values key j v ((k, w) ∷ m) h = ground (arith, lookup-delete_values key j v m)

lookup-delete_values-key :
    (key j : Text) (m : Mapping) → lookup j m ≡ none → lookup j (delete_values key m) ≡ none
unfolding lookup delete_values
lookup-delete_values-key key j [] h = refl
lookup-delete_values-key key j ((k, w) ∷ m) h = ground (arith, lookup-delete_values-key key j m)

lookup-delete_all :
    (keys : List Text) (j v : Text) (m : Mapping)
    → lookup j (delete_all keys m) ≡ some v
    → (contains keys j ≡ false) × (lookup j m ≡ some v)
unfolding delete_all contains
lookup-delete_all [] j v m h = (refl, h)
lookup-delete_all (k ∷ keys) j v m h =
    let (a, b) = lookup-delete_all keys j v (delete k m) h in
    let (d, e) = lookup-delete-some k j v m b in (ground arith, e)

contains-more_keys_to_delete :
    (prefix j v : Text) (m : Mapping)
    → lookup j m ≡ some v
    → (has_prefix j prefix || has_prefix v prefix) ≡ true
    → contains (more_keys_to_delete prefix m) j ≡ true
unfolding lookup more_keys_to_delete contains
contains-more_keys_to_delete prefix j v [] h p = ground arith
contains-more_keys_to_delete prefix j v ((k, w) ∷ m) h p =
    ground (arith, text_eq.equals_iff k j, contains-more_keys_to_delete prefix j v m)

none-some : (v : Text) → ¬ (none ≡ some v)
none-some v e = ground arith

lookup-left :
    (key k v : Text) (m : Mapping)
    → lookup k (delete_values key (delete key m)) ≡ some v
    → (key == k) ≡ false
lookup-left key k v m h = elim (Bool-cases (key == k)) [
  | inl y ↦
      let gone : lookup k (delete key m) ≡ none = lookup-delete key k m ∙ (rw y refl) in
      absurd (none-some v (sym (lookup-delete_values-key key k (delete key m) gone) ∙ h))
  | inr other ↦ other
]

not-either :
    (prefix j v : Text) (m : Mapping)
    → lookup j m ≡ some v
    → contains (more_keys_to_delete prefix m) j ≡ false
    → (has_prefix j prefix ≡ false) × (has_prefix v prefix ≡ false)
not-either prefix j v m h absent = ground (arith, contains-more_keys_to_delete prefix j v m h)

value_of-put :
    (k j v : Text) (m : Mapping) → value_of j (put k v m) ≡ (if k == j then v else value_of j m)
unfolding value_of
value_of-put k j v m = ground (arith, lookup-put k j v m)

-- After `SetURLAndIDMapping` each of the two is read back for the other, if they differ, and the
-- value of every other key is as before.
pub value_of-set_mapping :
    (url ids : Text) (m : Mapping)
    → url ≢ ids
    → (value_of url (set_mapping url ids m) ≡ ids)
      × (value_of ids (set_mapping url ids m) ≡ url)
      × ((k : Text)
          → (url == k || ids == k) ≡ false
          → value_of k (set_mapping url ids m) ≡ value_of k m)
unfolding set_mapping
value_of-set_mapping url ids m h =
    let differ : (ids == url) ≡ false = ground (arith, text_eq.equals_iff ids url) in
    (
      value_of-put ids url url (put url ids m)
          ∙ (rw differ (value_of-put url url ids m ∙ (rw (beq_refl url) refl))),
      value_of-put ids ids url (put url ids m) ∙ (rw (beq_refl ids) refl),
      λ k e. value_of-put ids k url (put url ids m) ∙ ground (arith, value_of-put url k ids m),
    )

-- After `DelURLAndIDMapping` no entry has the key, or a key or value that starts with the key and a
-- slash, and no entry has the key as its value.
pub lookup-del_mapping :
    (key k v : Text) (m : Mapping)
    → lookup k (del_mapping key m) ≡ some v
    → ((key == k) ≡ false)
      × ((v == key) ≡ false)
      × (has_prefix k (key ++ b'/' ∷ []) ≡ false)
      × (has_prefix v (key ++ b'/' ∷ []) ≡ false)
unfolding del_mapping delete_both
lookup-del_mapping key k v m h =
    let left = delete_values key (delete_both key m) in
    let prefix = key ++ b'/' ∷ [] in
    let (absent, there) = lookup-delete_all (more_keys_to_delete prefix left) k v left h in
    let (no_key, no_value) = not-either prefix k v left there absent in
    (
      lookup-left key k v (elim (lookup key m) [ none ↦ m | some w ↦ delete w m ]) there,
      lookup-delete_values key k v (delete_both key m) there,
      no_key,
      no_value,
    )

-- ===== src/Cache/Refine.antt =====
-- The cache against a store that never deletes an expired item.
use revchat.Base.{
  ℕ, ◌≤◌, Bool, true, false, Option, none, some, if◌then◌else◌, ◌≡◌, refl, sym, ◌∙◌, arith,
  Bool-cases, Option-cases, inl, inr,
}
use revchat.Base.Dict.{lookup, put, IsMap, put-IsMap, delete-IsMap}
use revchat.Base.Integers.{ℤ, int_eq}
use revchat.Base.Text.{Text, text_eq}
use revchat.Cache.Store.{
  read_item, finish_item, Item, Cache, with_entries, keep_ttl, expired, cleanup, del, get_item, get,
  expiration_time, set, add, replace, clear,
}
use revchat.Cache.Visible.{
  live, visible, visible-put, visible-delete, visible-delete-expired, unexpired-IsMap,
  visible-unexpired,
}

-- The operations.
pub data Command {ℓ} (T : Type ℓ) : Type ℓ where
  run_get run_del : Text → Command T
  run_set run_add run_replace : Text → T → ℤ → Command T
  run_clear run_cleanup : Command T

-- Their answers.
pub data Answer {ℓ} (T : Type ℓ) : Type ℓ where
  nothing : Answer T
  changed : Bool → Answer T
  found : Option T → Answer T

-- The store: for each key the item that was last stored, expired or not.
abbrev pub Store {ℓ} : Type ℓ → Type ℓ
Store T = Text → Option (Item T)

module _ {ℓ} {T : Type ℓ} where
  abbrev as_found : Option T × Cache T → Answer T × Cache T
  as_found (o, c) = (found o, c)

  abbrev as_changed : Bool × Cache T → Answer T × Cache T
  as_changed (b, c) = (changed b, c)

  unfoldable pub run : Command T → ℕ → Cache T → Answer T × Cache T
  unfolding get del set add replace clear cleanup
  run (run_get key) now c = as_found (get key now c)
  run (run_del key) now c = (nothing, del key c)
  run (run_set key value ttl) now c = (nothing, set key value ttl now c)
  run (run_add key value ttl) now c = as_changed (add key value ttl now c)
  run (run_replace key value ttl) now c = as_changed (replace key value ttl now c)
  run run_clear now c = (nothing, clear c)
  run run_cleanup now c = (nothing, cleanup now c)

  abbrev pub store_put : Text → Option (Item T) → Store T → Store T
  store_put key o s j = if text_eq.equals key j then o else s j

  abbrev pub value_of : Option (Item T) → Option T
  value_of none = none
  value_of (some item) = some item.value

  abbrev pub replaced : T → ℤ → ℕ → Item T → Item T
  replaced value ttl expiration item = record {
    value = value;
    expiration = if int_eq ttl keep_ttl then item.expiration else expiration;
  }

  -- `Add` and `Replace` on the store, by what is live.
  abbrev pub spec_add : Text → Item T → Store T → Option (Item T) → Answer T × Store T
  spec_add key item s none = (changed true, store_put key (some item) s)
  spec_add key item s (some _) = (changed false, s)

  abbrev pub spec_replace : Text → T → ℤ → ℕ → Store T → Option (Item T) → Answer T × Store T
  spec_replace key value ttl expiration s none = (changed false, s)
  spec_replace key value ttl expiration s (some item) =
      (changed true, store_put key (some (replaced value ttl expiration item)) s)

  -- The operations on the store, with the expiration time of the ttl. What they do depends on what
  -- is live at the time.
  abbrev pub spec : Command T → ℕ → (ℤ → ℕ) → Store T → Answer T × Store T
  spec (run_get key) now at s = (found (value_of (live now (s key))), s)
  spec (run_del key) now at s = (nothing, store_put key none s)
  spec (run_set key value ttl) now at s =
      (nothing, store_put key (some (record { value = value; expiration = at ttl })) s)
  spec (run_add key value ttl) now at s =
      spec_add key (record { value = value; expiration = at ttl }) s (live now (s key))
  spec (run_replace key value ttl) now at s =
      spec_replace key value ttl (at ttl) s (live now (s key))
  spec run_clear now at s = (nothing, λ j. none)
  spec run_cleanup now at s = (nothing, s)

  -- From a time on, a cache and a store show the same items.
  pub record Agree (now : ℕ) (c : Cache T) (s : Store T) : Type ℓ where
    pub is_map : IsMap c.entries
    pub shows : (key : Text) (t : ℕ) → now ≤ t → visible t c.entries key ≡ live t (s key)

  Agree-put :
      (now : ℕ) (c : Cache T) (s : Store T) (key : Text) (item : Item T)
      → Agree now c s
      → Agree now (with_entries (put key item c.entries) c) (store_put key (some item) s)
  Agree-put now c s key item h = record {
    is_map = put-IsMap key item c.entries h.is_map;
    shows = λ j t le. visible-put t key j item c.entries ∙ ground (arith, h.shows j t le);
  }

  Agree-del :
      (now : ℕ) (c : Cache T) (s : Store T) (key : Text)
      → Agree now c s
      → Agree now (del key c) (store_put key none s)
  unfolding del
  Agree-del now c s key h = record {
    is_map = delete-IsMap key c.entries h.is_map;
    shows = λ j t le. visible-delete t key j c.entries ∙ ground (arith, h.shows j t le);
  }

  -- The deletion of an item that cannot be seen.
  Agree-del-expired :
      (now : ℕ) (c : Cache T) (s : Store T) (key : Text)
      → visible now c.entries key ≡ none
      → Agree now c s
      → Agree now (del key c) s
  unfolding del
  Agree-del-expired now c s key gone h = record {
    is_map = delete-IsMap key c.entries h.is_map;
    shows = λ j t le. visible-delete-expired now t key j c.entries le gone ∙ h.shows j t le;
  }

  get-none :
      (key : Text) (now : ℕ) (c : Cache T) → lookup key c.entries ≡ none → get key now c ≡ (none, c)
  unfolding get get_item read_item finish_item
  get-none key now c e = rw (e, get_item, finish_item) refl

  get-expired :
      (key : Text) (now : ℕ) (c : Cache T) (item : Item T)
      → lookup key c.entries ≡ some item
      → expired now item ≡ true
      → get key now c ≡ (none, del key c)
  unfolding get get_item read_item finish_item
  get-expired key now c item e x = rw (e, x, get_item, finish_item) refl

  pub get-some :
      (key : Text) (now : ℕ) (c : Cache T) (item : Item T)
      → lookup key c.entries ≡ some item
      → expired now item ≡ false
      → get key now c ≡ (some item.value, c)
  unfolding get get_item read_item finish_item
  get-some key now c item e x = rw (e, x, get_item, finish_item) refl

  add-dead :
      (key : Text) (value : T) (ttl : ℤ) (now : ℕ) (c : Cache T)
      → visible now c.entries key ≡ none
      → add key value ttl now c ≡ (true, set key value ttl now c)
  unfolding add
  add-dead key value ttl now c h = ground arith

  add-live :
      (key : Text) (value : T) (ttl : ℤ) (now : ℕ) (c : Cache T) (item : Item T)
      → visible now c.entries key ≡ some item
      → add key value ttl now c ≡ (false, c)
  unfolding add
  add-live key value ttl now c item h = ground arith

  replace-dead :
      (key : Text) (value : T) (ttl : ℤ) (now : ℕ) (c : Cache T)
      → visible now c.entries key ≡ none
      → replace key value ttl now c ≡ (false, del key c)
  unfolding replace
  replace-dead key value ttl now c h = ground arith

  replace-live :
      (key : Text) (value : T) (ttl : ℤ) (now : ℕ) (c : Cache T) (item : Item T)
      → visible now c.entries key ≡ some item
      → replace key value ttl now c ≡ (
        true,
        with_entries (put key (replaced value ttl (expiration_time ttl now c) item) c.entries) c,
      )
  unfolding replace
  replace-live key value ttl now c item h = ground arith

  -- Each operation answers as on the store, and the two agree again behind it.
  pub run-Agree :
      (command : Command T) (now : ℕ) (c : Cache T) (s : Store T)
      → Agree now c s
      → ((run command now c).0 ≡ (spec command now (λ ttl. expiration_time ttl now c) s).0)
        × Agree now (run command now c).1 (spec command now (λ ttl. expiration_time ttl now c) s).1
  unfolding run set clear cleanup
  run-Agree (run_get key) now c s h =
      let seen = h.shows key now (omega arith) in
      elim (Option-cases (lookup key c.entries)) [
        | inl e ↦ rw (sym seen, get-none key now c e, e) (refl, h)
        | inr (item, e) ↦ elim (Bool-cases (expired now item)) [
          | inl x ↦
              rw (sym seen, get-expired key now c item e x, e, x)
                (refl, Agree-del-expired now c s key (rw (e, x) refl) h)
          | inr x ↦ rw (sym seen, get-some key now c item e x, e, x) (refl, h)
        ]
      ]
  run-Agree (run_del key) now c s h = (refl, Agree-del now c s key h)
  run-Agree (run_set key value ttl) now c s h = (
    refl,
    Agree-put now c s key (record { value = value; expiration = expiration_time ttl now c }) h,
  )
  run-Agree (run_add key value ttl) now c s h =
      let seen = h.shows key now (omega arith) in
      let item : Item T = record { value = value; expiration = expiration_time ttl now c } in
      elim (Option-cases (visible now c.entries key)) [
        | inl e ↦
            rw (add-dead key value ttl now c e, sym seen ∙ e) (refl, Agree-put now c s key item h)
        | inr (old, e) ↦ rw (add-live key value ttl now c old e, sym seen ∙ e) (refl, h)
      ]
  run-Agree (run_replace key value ttl) now c s h =
      let seen = h.shows key now (omega arith) in
      elim (Option-cases (visible now c.entries key)) [
        | inl e ↦
            rw (replace-dead key value ttl now c e, sym seen ∙ e)
              (refl, Agree-del-expired now c s key e h)
        | inr (old, e) ↦
            rw (replace-live key value ttl now c old e, sym seen ∙ e)
              (refl, Agree-put now c s key (replaced value ttl (expiration_time ttl now c) old) h)
      ]
  run-Agree run_clear now c s h = (refl, record { is_map = tt; shows = λ j t le. refl })
  run-Agree run_cleanup now c s h = (
    refl,
    record {
      is_map = unexpired-IsMap now c.entries h.is_map;
      shows = λ j t le. visible-unexpired now t j c.entries h.is_map le ∙ h.shows j t le;
    },
  )

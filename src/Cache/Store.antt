-- ===== src/Cache/Store.antt =====
-- internal/cache/cache.go and internal/cache/extras.go: the state and the operations.
use revchat.Base.{
  ℕ, ◌+◌, Bool, true, false, not, List, [], ◌∷◌, Option, none, some, if◌then◌else◌, ltb, nat_eq,
  length,
}
use revchat.Base.Dict.{lookup, put, delete}
use revchat.Base.Integers.{ℤ, pos, negsuc, int_eq, is_positive, plus_duration}
use revchat.Base.Text.{Text, text_eq}

-- `Item`: an expiration of zero means that the item never expires.
pub record Item {ℓ} (T : Type ℓ) : Type ℓ where
  pub value : T
  pub expiration : ℕ

pub record Cache {ℓ} (T : Type ℓ) : Type ℓ where
  pub entries : List (Text × Item T)
  pub default_expiration : ℤ

abbrev pub default_ttl : ℤ
default_ttl = pos 0

abbrev pub no_expiration : ℤ
no_expiration = negsuc 0

abbrev pub keep_ttl : ℤ
keep_ttl = negsuc 1

module _ {ℓ} {T : Type ℓ} where
  -- `Expired` and the test of `cleanupWorker`
  unfoldable pub expired : ℕ → Item T → Bool
  expired now item = if nat_eq item.expiration 0 then false else ltb item.expiration now

  -- `New`
  unfoldable pub new : ℤ → Cache T
  unfolding is_positive
  new default = record {
    entries = [];
    default_expiration = if is_positive default then default else no_expiration;
  }

  -- One run of the loop of `cleanupWorker`
  unfoldable pub unexpired : ℕ → List (Text × Item T) → List (Text × Item T)
  unfolding expired
  unexpired now [] = []
  unexpired now ((key, item) ∷ m) =
      let rest = unexpired now m in if expired now item then rest else (key, item) ∷ rest

  unfoldable pub cleanup : ℕ → Cache T → Cache T
  unfolding unexpired
  cleanup now c = record {
    entries = unexpired now c.entries;
    default_expiration = c.default_expiration;
  }

  abbrev pub with_entries : List (Text × Item T) → Cache T → Cache T
  with_entries m c = record { entries = m; default_expiration = c.default_expiration }

  -- `Del`
  unfoldable pub del : Text → Cache T → Cache T
  unfolding delete
  del key c = with_entries (delete key c.entries) c

  -- `Item` in two steps, since the lock is free between them: the lookup under the read lock, and
  -- the rest, with the lazy deletion of whatever the key has by then.
  unfoldable pub read_item : Text → Cache T → Option (Item T)
  unfolding lookup
  read_item key c = lookup key c.entries

  unfoldable pub finish_item : Text → ℕ → Option (Item T) → Cache T → Option (Item T) × Cache T
  unfolding expired del
  finish_item key now none c = (none, c)
  finish_item key now (some item) c = if expired now item then (none, del key c) else (some item, c)

  -- `Item` without another operation between its two steps.
  unfoldable pub get_item : Text → ℕ → Cache T → Option (Item T) × Cache T
  unfolding read_item finish_item
  get_item key now c = finish_item key now (read_item key c) c

  -- `Get`
  abbrev pub value_only : Option (Item T) × Cache T → Option T × Cache T
  value_only (none, c) = (none, c)
  value_only (some item, c) = (some item.value, c)

  unfoldable pub get : Text → ℕ → Cache T → Option T × Cache T
  unfolding get_item
  get key now c = value_only (get_item key now c)

  -- `expirationTime`
  unfoldable pub expiration_time : ℤ → ℕ → Cache T → ℕ
  unfolding int_eq is_positive plus_duration
  expiration_time ttl now c =
      let used = if int_eq ttl default_ttl then c.default_expiration else ttl in
      if is_positive used then plus_duration now used else 0

  -- `Set`
  unfoldable pub set : Text → T → ℤ → ℕ → Cache T → Cache T
  unfolding put expiration_time
  set key value ttl now c =
      with_entries
        (put key (record { value = value; expiration = expiration_time ttl now c }) c.entries) c

  -- `Add`
  unfoldable pub add : Text → T → ℤ → ℕ → Cache T → Bool × Cache T
  unfolding lookup expired set
  add key value ttl now c = elim (lookup key c.entries) [
    | none ↦ (true, set key value ttl now c)
    | some item ↦ if expired now item then (true, set key value ttl now c) else (false, c)
  ]

  -- `Replace`
  unfoldable pub replace : Text → T → ℤ → ℕ → Cache T → Bool × Cache T
  unfolding lookup expired del put expiration_time int_eq
  replace key value ttl now c = elim (lookup key c.entries) [
    | none ↦ (false, del key c)
    | some item ↦
        let kept = if int_eq ttl keep_ttl then item.expiration else expiration_time ttl now c in
        if expired now item then (false, del key c) else (
          true,
          with_entries (put key (record { value = value; expiration = kept }) c.entries) c,
        )
  ]

  -- `Clear`
  unfoldable pub clear : Cache T → Cache T
  clear c = with_entries [] c

  -- `Keys`, `Items`, `ItemCount` and `Len`
  unfoldable pub keys_of : ℕ → List (Text × Item T) → List Text
  unfolding expired
  keys_of now [] = []
  keys_of now ((key, item) ∷ m) =
      let rest = keys_of now m in if not (expired now item) then key ∷ rest else rest

  unfoldable pub keys : ℕ → Cache T → List Text
  unfolding keys_of
  keys now c = keys_of now c.entries

  unfoldable pub items_of : ℕ → List (Text × Item T) → List (Text × Item T)
  unfolding expired
  items_of now [] = []
  items_of now ((key, item) ∷ m) =
      let rest = items_of now m in if not (expired now item) then (key, item) ∷ rest else rest

  unfoldable pub items : ℕ → Cache T → List (Text × Item T)
  unfolding items_of
  items now c = items_of now c.entries

  unfoldable pub count_of : ℕ → List (Text × Item T) → ℕ
  unfolding expired
  count_of now [] = 0
  count_of now ((key, item) ∷ m) =
      let rest = count_of now m in if not (expired now item) then rest + 1 else rest

  unfoldable pub item_count : ℕ → Cache T → ℕ
  unfolding count_of
  item_count now c = count_of now c.entries

  unfoldable pub len : Cache T → ℕ
  unfolding length
  len c = length c.entries

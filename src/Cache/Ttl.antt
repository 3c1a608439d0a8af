-- ===== src/Cache/Ttl.antt =====
-- How long an item is kept that was stored with the default expiration.
use revchat.Base.{
  ℕ, ◌+◌, ◌≤◌, true, false, some, ◌≡◌, refl, ◌∙◌, arith, Bool-cases, Option-cases, inl, inr,
}
use revchat.Base.Dict.{lookup, lookup-put}
use revchat.Base.Integers.{ℤ, pos, int_eq, is_positive, plus_duration}
use revchat.Base.Text.{Text, text_eq}
use revchat.Cache.Store.{
  read_item, finish_item, Item, Cache, default_ttl, expired, expiration_time, add, get, get_item,
  set, del,
}
use revchat.Cache.Refine.{get-some}

module _ {ℓ} {T : Type ℓ} where
  -- The item that `Set` stores with the default expiration.
  abbrev pub kept_item : T → ℕ → Cache T → Item T
  kept_item value later c = record {
    value = value;
    expiration = expiration_time default_ttl later c;
  }

  pub set-default :
      (key : Text) (value : T) (ttl : ℤ) (now : ℕ) (c : Cache T)
      → (set key value ttl now c).default_expiration ≡ c.default_expiration
  unfolding set
  set-default key value ttl now c = refl

  pub get-default :
      (key : Text) (now : ℕ) (c : Cache T)
      → (get key now c).1.default_expiration ≡ c.default_expiration
  unfolding get get_item read_item finish_item del
  get-default key now c = elim (Option-cases (lookup key c.entries)) [
    | inl missing ↦ rw (missing, get_item, finish_item) refl
    | inr (item, found) ↦ elim (Bool-cases (expired now item)) [
      | inl late ↦ rw (found, late, get_item, finish_item) refl
      | inr fresh ↦ rw (found, fresh, get_item, finish_item) refl
    ]
  ]

  pub set-kept :
      (later : ℕ) (c : Cache T) (key : Text) (value : T)
      → lookup key (set key value default_ttl later c).entries ≡ some (kept_item value later c)
  unfolding set
  set-kept later c key value =
      lookup-put key key (kept_item value later c) c.entries
      ∙ ground (arith, text_eq.equals_iff key key)

  -- Until the default expiration has passed.
  module _ (ttl later now : ℕ) (c : Cache T) (default : c.default_expiration ≡ pos ttl)
      (in_time : now ≤ later + ttl) where
    kept_item-fresh :
        (value : T) → is_positive (pos ttl) ≡ true → expired now (kept_item value later c) ≡ false
    unfolding expired expiration_time int_eq is_positive plus_duration
    kept_item-fresh value h =
        rw (default, expired, expiration_time, is_positive, plus_duration) (ground arith)

    pub set_then_get :
        (key : Text) (value : T)
        → is_positive (pos ttl) ≡ true
        → get key now (set key value default_ttl later c)
          ≡ (some value, set key value default_ttl later c)
    set_then_get key value h =
        get-some key now (set key value default_ttl later c) (kept_item value later c)
          (set-kept later c key value) (kept_item-fresh value h)

    pub set_then_add :
        (key : Text) (value other : T) (ttl' : ℤ)
        → is_positive (pos ttl) ≡ true
        → add key other ttl' now (set key value default_ttl later c)
          ≡ (false, set key value default_ttl later c)
    unfolding add
    set_then_add key value other ttl' h =
        rw (set-kept later c key value, kept_item-fresh value h, add) refl

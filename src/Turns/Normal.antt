-- ===== src/Turns/Normal.antt =====
-- `normalizeEmailAddresses`: what it makes of the maps, and states that it leaves alone.
use revchat.Base.{Bool, true, not, List, [], ◌∷◌, ◌≡◌, refl, ◌⊎◌, inr, beq_refl, arith}
use revchat.Base.Dict.{
  has_key, put, delete, IsMap, put-IsMap, delete-IsMap, has_key-put, has_key-delete,
}
use revchat.Base.Text.{Text, text_eq, text_beq_iff, Unicode, to_lower, to_lower_idem, IsLower}
use revchat.Turns.State.{Time, is_zero, PrTurns, visit_key, lower_keys, normalize_email_addresses}

-- The three maps of a state hold no key twice.
pub record HasMaps (t : PrTurns) : Type 0 where
  pub reviewers_map : IsMap t.reviewers
  pub activity_map : IsMap t.activity
  pub approvers_map : IsMap t.approvers

module _ ⦃u : Unicode⦄ where
  abbrev pub LowerKeys {ℓ} : {V : Type ℓ} → List (Text × V) → Type 0
  LowerKeys [] = Unit
  LowerKeys ((k, v) ∷ m) = IsLower k × LowerKeys m

  -- A map as `writeTurns` leaves it.
  abbrev pub IsNormalMap {ℓ} : {V : Type ℓ} → List (Text × V) → Type 0
  IsNormalMap m = IsMap m × LowerKeys m

  pub lower_keys_of_LowerKeys {ℓ} :
      {V : Type ℓ} (keep : V → Bool) (m entries : List (Text × V))
      → LowerKeys entries
      → lower_keys keep m entries ≡ m
  unfolding lower_keys
  lower_keys_of_LowerKeys keep m [] h = refl
  lower_keys_of_LowerKeys keep m ((user, v) ∷ entries) h =
      rw ((text_beq_iff (to_lower user) user).1 h.0) (lower_keys_of_LowerKeys keep m entries h.1)

  lower_keys-IsMap {ℓ} :
      {V : Type ℓ} (keep : V → Bool) (m entries : List (Text × V))
      → IsMap m
      → IsMap (lower_keys keep m entries)
  unfolding lower_keys
  lower_keys-IsMap keep m [] h = h
  lower_keys-IsMap keep m ((user, v) ∷ entries) h =
      lower_keys-IsMap keep (visit_key keep m user v) entries (
        ground (
          arith,
          delete-IsMap user m h,
          delete-IsMap user (put (to_lower user) v m) (put-IsMap (to_lower user) v m h),
        ))

  -- A key is in lower case, or still to be visited.
  abbrev Pending {ℓ} : {V : Type ℓ} → List (Text × V) → List (Text × V) → Type 0
  Pending m entries = (k : Text) → has_key k m ≡ true → IsLower k ⊎ (has_key k entries ≡ true)

  visit-Pending {ℓ} :
      {V : Type ℓ} (keep : V → Bool) (m : List (Text × V)) (user : Text) (v : V)
      (entries : List (Text × V))
      → Pending m ((user, v) ∷ entries)
      → Pending (visit_key keep m user v) entries
  unfolding visit_key has_key
  visit-Pending keep m user v entries h k = ground (
    arith,
    h k,
    text_beq_iff (to_lower user) user,
    text_beq_iff user k,
    text_beq_iff (to_lower user) k,
    to_lower_idem user,
    has_key-delete user k m,
    has_key-delete user k (put (to_lower user) v m),
    has_key-put (to_lower user) k v m,
  )

  lower_keys-IsLower {ℓ} :
      {V : Type ℓ} (keep : V → Bool) (m entries : List (Text × V))
      → Pending m entries
      → (k : Text) → has_key k (lower_keys keep m entries) ≡ true
      → IsLower k
  unfolding lower_keys has_key
  lower_keys-IsLower keep m [] h k e = ground (arith, h k e)
  lower_keys-IsLower keep m ((user, v) ∷ entries) h k e =
      lower_keys-IsLower keep (visit_key keep m user v) entries
        (visit-Pending keep m user v entries h) k e

  LowerKeys-has_key {ℓ} :
      {V : Type ℓ} (m : List (Text × V))
      → ((k : Text) → has_key k m ≡ true → IsLower k)
      → LowerKeys m
  unfolding has_key
  LowerKeys-has_key [] h = tt
  LowerKeys-has_key ((k, v) ∷ m) h =
      (h k (rw beq_refl), LowerKeys-has_key m (λ j e. h j (ground arith)))

  pub lower_keys-IsNormalMap {ℓ} :
      {V : Type ℓ} (keep : V → Bool) (m : List (Text × V))
      → IsMap m
      → IsNormalMap (lower_keys keep m m)
  lower_keys-IsNormalMap keep m h = (
    lower_keys-IsMap keep m m h,
    LowerKeys-has_key _ (lower_keys-IsLower keep m m (λ k e. inr e)),
  )

  pub put-LowerKeys {ℓ} :
      {V : Type ℓ} (k : Text) (v : V) (m : List (Text × V))
      → IsLower k
      → LowerKeys m
      → LowerKeys (put k v m)
  unfolding put
  put-LowerKeys k v [] h n = (h, tt)
  put-LowerKeys k v ((j, w) ∷ m) h n = ground (arith, put-LowerKeys k v m h n.1)

  delete-LowerKeys {ℓ} :
      {V : Type ℓ} (k : Text) (m : List (Text × V)) → LowerKeys m → LowerKeys (delete k m)
  unfolding delete
  delete-LowerKeys k [] n = tt
  delete-LowerKeys k ((j, w) ∷ m) n = ground (arith, delete-LowerKeys k m n.1)

  pub put-IsNormalMap {ℓ} :
      {V : Type ℓ} (k : Text) (v : V) (m : List (Text × V))
      → IsLower k
      → IsNormalMap m
      → IsNormalMap (put k v m)
  put-IsNormalMap k v m h n = (put-IsMap k v m n.0, put-LowerKeys k v m h n.1)

  pub delete-IsNormalMap {ℓ} :
      {V : Type ℓ} (k : Text) (m : List (Text × V)) → IsNormalMap m → IsNormalMap (delete k m)
  delete-IsNormalMap k m n = (delete-IsMap k m n.0, delete-LowerKeys k m n.1)

  -- A state as `writeTurns` leaves it.
  pub record IsNormal (t : PrTurns) : Type 0 where
    pub author_lower : IsLower t.author
    pub frozen_by_lower : IsLower t.frozen_by
    pub reviewers_normal : IsNormalMap t.reviewers
    pub activity_normal : IsNormalMap t.activity
    pub approvers_normal : IsNormalMap t.approvers

  pub normalize-IsNormal : (t : PrTurns) → HasMaps t → IsNormal (normalize_email_addresses t)
  unfolding normalize_email_addresses
  normalize-IsNormal t h = record {
    author_lower = to_lower_idem t.author;
    frozen_by_lower = to_lower_idem t.frozen_by;
    reviewers_normal = lower_keys-IsNormalMap _ t.reviewers h.reviewers_map;
    activity_normal = lower_keys-IsNormalMap _ t.activity h.activity_map;
    approvers_normal = lower_keys-IsNormalMap _ t.approvers h.approvers_map;
  }

  -- A normalized state is left as it is.
  pub normalize_of_IsNormal : (t : PrTurns) → IsNormal t → normalize_email_addresses t ≡ t
  unfolding normalize_email_addresses
  normalize_of_IsNormal t n = ground (
    arith,
    n.author_lower,
    n.frozen_by_lower,
    lower_keys_of_LowerKeys (λ (b : Bool). true) t.reviewers t.reviewers n.reviewers_normal.1,
    lower_keys_of_LowerKeys (λ (s : Time). not (is_zero s)) t.activity t.activity
        n.activity_normal.1,
    lower_keys_of_LowerKeys (λ (s : Time). not (is_zero s)) t.approvers t.approvers
        n.approvers_normal.1,
  )

  pub IsNormal-HasMaps : (t : PrTurns) → IsNormal t → HasMaps t
  IsNormal-HasMaps t n = record {
    reviewers_map = n.reviewers_normal.0;
    activity_map = n.activity_normal.0;
    approvers_map = n.approvers_normal.0;
  }

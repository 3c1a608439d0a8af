-- ===== src/DataFile/Exclusion.antt =====
-- How long the mutex of a file stays the same.
use revchat.Base.{
  List, [], ◌∷◌, All, ◌==◌, ℕ, ◌+◌, ◌≤◌, Bool, true, false, Option, none, some, ◌≡◌, refl, ap, ◌∙◌,
  arith, Option-cases, Bool-cases, ◌⊎◌, inl, inr,
}
use revchat.Base.Dict.{lookup, lookup-put, lookup-delete}
use revchat.Base.Integers.{pos, is_positive, int_eq, plus_duration}
use revchat.Base.Text.{Text, text_eq}
use revchat.Cache.Ttl.{get-default, set-kept}
use revchat.Cache.Store.{
  Item, Cache, default_ttl, expired, expiration_time, unexpired, cleanup, del, read_item,
  finish_item, get_item, add, get, set,
}
use revchat.DataFile.Mutex.{one_day, Times, refreshed, added, get_data_file_mutex}

-- The calls that other goroutines make, for other files, and the runs of the cleanup.
pub data Other (M : Type 0) : Type 0 where
  other_call : Text → M → Times → Other M
  other_cleanup : ℕ → Other M

module _ {M : Type 0} where
  -- A mutex was returned, and the cache was left holding it from this time on.
  record Held (key : Text) (mu : M) (since : ℕ) (c : Cache (Option M)) : Type 0 where
    before : Cache (Option M)
    same : c ≡ set key (some mu) default_ttl since before
    default : before.default_expiration ≡ pos one_day

  -- What `Add` does to the cache.
  add-cases :
      (key : Text) (v : Option M) (now : ℕ) (c : Cache (Option M))
      → (add key v default_ttl now c ≡ (true, set key v default_ttl now c))
        ⊎ (add key v default_ttl now c ≡ (false, c))
  unfolding add
  add-cases key v now c = elim (Option-cases (lookup key c.entries)) [
    | inl missing ↦ inl (rw (missing, add) refl)
    | inr (item, found) ↦ elim (Bool-cases (expired now item)) [
      | inl late ↦ inl (rw (found, late, add) refl)
      | inr fresh ↦ inr (rw (found, fresh, add) refl)
    ]
  ]

  refreshed-Held :
      (key : Text) (t : Times) (m : M) (r : Option (Option M) × Cache (Option M))
      → r.1.default_expiration ≡ pos one_day
      → (refreshed key t r).0 ≡ some m
      → Held key m t.setting (refreshed key t r).1
  refreshed-Held key t m (none, c) d e = absurd (ground (arith, e))
  refreshed-Held key t m (some mu, c) d e = record {
    before = c;
    same = ap (λ v. set key v default_ttl t.setting c) e;
    default = d;
  }

  added-Held :
      (key : Text) (mu m : M) (t : Times) (c : Cache (Option M)) (r : Bool × Cache (Option M))
      → c.default_expiration ≡ pos one_day
      → (r ≡ (true, set key (some mu) default_ttl t.adding c)) ⊎ (r ≡ (false, c))
      → (added key mu t r).0 ≡ some m
      → Held key m t.adding (added key mu t r).1 ⊎ Held key m t.setting (added key mu t r).1
  added-Held key mu m t c r d (inl new) e = inl (
      rw new (record {
        before = c;
        same = ap (λ v. set key v default_ttl t.adding c) (rw new at e);
        default = d;
      }))
  added-Held key mu m t c r d (inr old) e = inr (
      rw old (
        refreshed-Held key t m (get key t.getting c) (get-default key t.getting c ∙ d)
          (rw old at e)))

  -- The mutex can be seen in the cache until some time.
  record Kept (key : Text) (mu : M) (until : ℕ) (c : Cache (Option M)) : Type 0 where
    expiration : ℕ
    there : lookup key c.entries ≡ some (record { value = some mu; expiration = expiration })
    late : until ≤ expiration

  Held-Kept :
      (key : Text) (mu : M) (since until : ℕ) (c : Cache (Option M))
      → until ≤ since + one_day
      → Held key mu since c
      → Kept key mu until c
  unfolding is_positive expiration_time int_eq plus_duration
  Held-Kept key mu since until c le h = record {
    expiration = since + one_day;
    there =
        ap (λ x. lookup key x.entries) h.same
        ∙ set-kept since h.before key (some mu)
        ∙ (rw (h.default, expiration_time, is_positive, plus_duration) refl);
    late = le;
  }

  abbrev pub run_other : Other M → Cache (Option M) → Cache (Option M)
  run_other (other_call key mu t) c = (get_data_file_mutex key mu t c).1
  run_other (other_cleanup now) c = cleanup now c

  abbrev pub run_others : List (Other M) → Cache (Option M) → Cache (Option M)
  run_others [] c = c
  run_others (o ∷ rest) c = run_others rest (run_other o c)

  -- Not for this file, and not later than this.
  abbrev pub IsOther : Text → ℕ → Other M → Type 0
  IsOther key until (other_call k mu t) = (k == key) ≡ false
  IsOther key until (other_cleanup now) = now ≤ until

  lookup-get :
      (key k : Text) (now : ℕ) (c : Cache (Option M))
      → (k == key) ≡ false
      → lookup key (get k now c).1.entries ≡ lookup key c.entries
  unfolding get get_item read_item finish_item del
  lookup-get key k now c other = elim (Option-cases (lookup k c.entries)) [
    | inl gone ↦ rw (gone, finish_item) refl
    | inr (item, found) ↦ elim (Bool-cases (expired now item)) [
      | inl late ↦ rw (found, late, finish_item) (lookup-delete k key c.entries ∙ (rw other refl))
      | inr fresh ↦ rw (found, fresh, finish_item) refl
    ]
  ]

  lookup-set :
      (key k : Text) (v : Option M) (now : ℕ) (c : Cache (Option M))
      → (k == key) ≡ false
      → lookup key (set k v default_ttl now c).entries ≡ lookup key c.entries
  unfolding set
  lookup-set key k v now c other = lookup-put k key _ c.entries ∙ (rw other refl)

  lookup-refreshed :
      (key k : Text) (t : Times) (r : Option (Option M) × Cache (Option M))
      → (k == key) ≡ false
      → lookup key (refreshed k t r).1.entries ≡ lookup key r.1.entries
  lookup-refreshed key k t (none, c) other = lookup-set key k none t.setting c other
  lookup-refreshed key k t (some mu, c) other = lookup-set key k mu t.setting c other

  lookup-added :
      (key k : Text) (mu : M) (t : Times) (c : Cache (Option M)) (r : Bool × Cache (Option M))
      → (r ≡ (true, set k (some mu) default_ttl t.adding c)) ⊎ (r ≡ (false, c))
      → (k == key) ≡ false
      → lookup key (added k mu t r).1.entries ≡ lookup key c.entries
  lookup-added key k mu t c r (inl new) other = rw new (lookup-set key k (some mu) t.adding c other)
  lookup-added key k mu t c r (inr old) other =
      rw old
        (lookup-refreshed key k t (get k t.getting c) other ∙ lookup-get key k t.getting c other)

  lookup-unexpired :
      (key : Text) (now : ℕ) (item : Item (Option M)) (m : List (Text × Item (Option M)))
      → lookup key m ≡ some item
      → expired now item ≡ false
      → lookup key (unexpired now m) ≡ some item
  unfolding lookup unexpired
  lookup-unexpired key now item [] h fresh = absurd (ground (arith, h))
  lookup-unexpired key now item ((k, i) ∷ m) h fresh =
      ground (arith, lookup-unexpired key now item m)

  run_other-Kept :
      (key : Text) (mu : M) (until : ℕ) (o : Other M) (c : Cache (Option M))
      → IsOther key until o
      → Kept key mu until c
      → Kept key mu until (run_other o c)
  unfolding get_data_file_mutex cleanup expired
  run_other-Kept key mu until (other_call k new t) c other h = record {
    expiration = h.expiration;
    there =
        lookup-added key k new t c (add k (some new) default_ttl t.adding c)
          (add-cases k (some new) t.adding c) other
        ∙ h.there;
    late = h.late;
  }
  run_other-Kept key mu until (other_cleanup now) c le h = record {
    expiration = h.expiration;
    there = lookup-unexpired key now _ c.entries h.there (ground (arith, le, h.late));
    late = h.late;
  }

  run_others-Kept :
      (key : Text) (mu : M) (until : ℕ) (l : List (Other M)) (c : Cache (Option M))
      → All (IsOther key until) l
      → Kept key mu until c
      → Kept key mu until (run_others l c)
  run_others-Kept key mu until [] c all h = h
  run_others-Kept key mu until (o ∷ rest) c (here, all) h =
      run_others-Kept key mu until rest (run_other o c) all (run_other-Kept key mu until o c here h)

  next-same :
      (key : Text) (mu other : M) (until : ℕ) (t : Times) (c : Cache (Option M))
      → Kept key mu until c
      → t.adding ≤ until
      → t.getting ≤ until
      → (get_data_file_mutex key other t c).0 ≡ some mu
  unfolding get_data_file_mutex add get get_item read_item finish_item expired
  next-same key mu other until t c h a g =
      let item : Item (Option M) = record { value = some mu; expiration = h.expiration } in
      let in_time : expired t.adding item ≡ false = ground (arith, a, h.late) in
      let still : expired t.getting item ≡ false = ground (arith, g, h.late) in
      rw (h.there, in_time, add) (rw (h.there, still, finish_item) refl)

  -- After a call for a file has returned a mutex, any number of calls for other files and of runs of
  -- the cleanup may follow, one after the other. If the next call for the file comes within a day of
  -- the first one, and the runs of the cleanup too, then it returns the same mutex.
  pub get_data_file_mutex-same :
      (key : Text) (mu other m : M) (t next : Times) (between : List (Other M))
      (c : Cache (Option M))
      → c.default_expiration ≡ pos one_day
      → t.adding ≤ t.setting
      → (get_data_file_mutex key mu t c).0 ≡ some m
      → All (IsOther key (t.adding + one_day)) between
      → next.adding ≤ t.adding + one_day
      → next.getting ≤ t.adding + one_day
      → (get_data_file_mutex key other next
          (run_others between (get_data_file_mutex key mu t c).1)).0
        ≡ some m
  unfolding get_data_file_mutex
  get_data_file_mutex-same key mu other m t next between c d le e others a g =
      let until = t.adding + one_day in
      let after = (added key mu t (add key (some mu) default_ttl t.adding c)).1 in
      let kept : Kept key m until after =
        elim (added-Held key mu m t c (add key (some mu) default_ttl t.adding c) d
          (add-cases key (some mu) t.adding c) e) [
            | inl held ↦ Held-Kept key m t.adding until after (omega arith) held
            | inr held ↦ Held-Kept key m t.setting until after (omega (arith, le)) held
          ] in
      next-same key m other until next (run_others between after)
        (run_others-Kept key m until between after others kept) a g

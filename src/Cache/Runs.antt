-- ===== src/Cache/Runs.antt =====
-- Sequences of operations at the times of a clock.
use revchat.Base.{
  ℕ, ◌≤◌, true, List, [], ◌∷◌, none, some, ◌≡◌, refl, sym, ap, ap₂, ◌∙◌, arith, beq_refl,
  Option-cases, Bool-cases, inl, inr,
}
use revchat.Base.Dict.{lookup, put, delete}
use revchat.Base.Integers.{ℤ}
use revchat.Base.Text.{Text, text_eq}
use revchat.Cache.Store.{
  Item, Cache, new, del, read_item, finish_item, get_item, get, set, expired, expiration_time,
  cleanup,
}
use revchat.Cache.Visible.{live, visible, visible-put, visible-delete, visible-delete-expired}
use revchat.Cache.Refine.{Command, Answer, Store, run, spec, Agree, run-Agree}

module _ {ℓ} {T : Type ℓ} where
  -- The answers of a sequence of operations.
  abbrev pub run_all : List (ℕ × Command T) → Cache T → List (Answer T)
  run_all [] c = []
  run_all ((now, command) ∷ l) c =
      let result = run command now c in result.0 ∷ run_all l (run command now c).1

  -- Those of the store, for a cache that was made with a default expiration.
  abbrev pub spec_all : ℤ → List (ℕ × Command T) → Store T → List (Answer T)
  spec_all default [] s = []
  spec_all default ((now, command) ∷ l) s =
      let result = spec command now (λ ttl. expiration_time ttl now (new {T = T} default)) s in
      result.0
      ∷ spec_all default l
          (spec command now (λ ttl. expiration_time ttl now (new {T = T} default)) s).1

  -- The clock does not go back.
  abbrev pub IsClock : ℕ → List (ℕ × Command T) → Type 0
  IsClock t [] = Unit
  IsClock t ((now, command) ∷ l) = (t ≤ now) × IsClock now l

  Agree-later : (t u : ℕ) (c : Cache T) (s : Store T) → t ≤ u → Agree t c s → Agree u c s
  Agree-later t u c s le h = record {
    is_map = h.is_map;
    shows = λ j v later. h.shows j v (omega (arith, le, later));
  }

  -- No operation changes the default expiration.
  default_kept :
      (command : Command T) (now : ℕ) (c : Cache T)
      → (run command now c).1.default_expiration ≡ c.default_expiration
  unfolding run revchat.Cache.Store.add revchat.Cache.Store.replace revchat.Cache.Store.clear
      cleanup get get_item del set
  default_kept command now c = ground arith

  -- The expiration times depend on the default expiration only.
  same_times :
      (default : ℤ) (now : ℕ) (c : Cache T)
      → c.default_expiration ≡ (new {T = T} default).default_expiration
      → ◌≡◌ {A = ℤ → ℕ}
          (λ ttl. expiration_time ttl now c)
          (λ ttl. expiration_time ttl now (new {T = T} default))
  unfolding expiration_time
  same_times default now c h =
      ap
        (λ d ttl. expiration_time {T = T} ttl now (record { entries = []; default_expiration = d }))
        h

  run_all_from :
      (default : ℤ) (t : ℕ) (l : List (ℕ × Command T)) (c : Cache T) (s : Store T)
      → c.default_expiration ≡ (new {T = T} default).default_expiration
      → Agree t c s
      → IsClock t l
      → run_all l c ≡ spec_all default l s
  run_all_from default t [] c s d h clock = refl
  run_all_from default t ((now, command) ∷ l) c s d h clock =
      let step = run-Agree command now c s (Agree-later t now c s clock.0 h) in
      let times = same_times default now c d in
      rw (sym times) (
        ap₂ ◌∷◌ step.0 (
          run_all_from default now l (run command now c).1
            (spec command now (λ ttl. expiration_time ttl now c) s).1
            (default_kept command now c ∙ d) step.1 clock.1))

  -- Whatever sequence of calls of Get, Del, Set, Add, Replace and Clear and of runs of the cleanup a
  -- new cache is given, one after the other at times that do not go back, it answers each as a store
  -- does that keeps the last item of each key for ever and shows it until it expires: none of these
  -- calls can tell whether an expired item has been deleted.
  pub run_all-spec_all :
      (default : ℤ) (l : List (ℕ × Command T))
      → IsClock 0 l
      → run_all l (new default) ≡ spec_all default l (λ key. none)
  unfolding new lookup
  run_all-spec_all default l clock =
      run_all_from default 0 l (new default) (λ key. none) refl
        (record { is_map = tt; shows = λ key t le. refl }) clock

  -- A lookup changes nothing that can be seen from then on.
  visible-get_item :
      (key j : Text) (now t : ℕ) (c : Cache T)
      → now ≤ t
      → visible t (get_item key now c).1.entries j ≡ visible t c.entries j
  unfolding get_item read_item finish_item del
  visible-get_item key j now t c le = elim (Option-cases (lookup key c.entries)) [
    | inl e ↦ rw (e, get_item, finish_item) refl
    | inr (item, e) ↦ elim (Bool-cases (expired now item)) [
      | inl x ↦
          rw (e, x, get_item, finish_item)
            (visible-delete-expired now t key j c.entries le (rw (e, x) refl))
      | inr x ↦ rw (e, x, get_item, finish_item) refl
    ]
  ]

  -- The lock is free between the two steps of `Item`. If it has looked up an expired item, and a call
  -- of `Set` for the key comes before its deletion, then the new item is lost: nothing can be seen of
  -- it from then on. It can be seen until it expires if it is set before or after the call of `Item`.
  pub lazy_deletion_race :
      (key : Text) (old : Item T) (value : T) (ttl : ℤ) (now t : ℕ) (c : Cache T)
      → now ≤ t
      → lookup key c.entries ≡ some old
      → expired now old ≡ true
      → let item : Item T = record { value = value; expiration = expiration_time ttl now c } in
        let between = set key value ttl now c in
        (visible t (finish_item key now (read_item key c) between).1.entries key ≡ none)
        × (visible t (set key value ttl now (get_item key now c).1).entries key
            ≡ live t (some item))
        × (visible t (get_item key now between).1.entries key ≡ live t (some item))
  unfolding del set expiration_time get_item read_item finish_item
  lazy_deletion_race key old value ttl now t c le there late =
      let item : Item T = record { value = value; expiration = expiration_time ttl now c } in
      let same = beq_refl key in
      (
        rw (there, late, finish_item)
            (visible-delete t key key (put key item c.entries) ∙ (rw same refl)),
        rw (there, late, finish_item)
            (visible-put t key key item (delete key c.entries) ∙ (rw same refl)),
        visible-get_item key key now t (set key value ttl now c) le
            ∙ visible-put t key key item c.entries
            ∙ (rw same refl),
      )

-- ===== src/Cache/Tests.antt =====
-- Runs of the cache, and its theorems at concrete inputs.
use revchat.Base.{
  ℕ, ◌≤◌, Bool, true, false, List, [], ◌∷◌, Option, none, some, length, contains, ◌≡◌, refl, arith,
}
use revchat.Base.Dict.{lookup}
use revchat.Base.Integers.{pos}
use revchat.Base.Text.{Text, codes, text_eq}
use revchat.Cache.Store.{
  Item, Cache, default_ttl, no_expiration, keep_ttl, new, expired, read_item, finish_item, get_item,
  set, expiration_time, keys, items, item_count, len,
}
use revchat.Cache.Visible.{live, visible}
use revchat.Cache.Refine.{
  Command, run_get, run_del, run_set, run_add, run_replace, run_clear, run_cleanup, Answer, nothing,
  changed, found,
}
use revchat.Cache.Runs.{run_all, spec_all, run_all-spec_all, lazy_deletion_race}
use revchat.Cache.Listing.{is_some, listing_visible}

abbrev key : Text
key = codes "a.json"

abbrev session : List (ℕ × Command ℕ)
session =
    (10, run_add key 1 default_ttl)
    ∷ (12, run_add key 2 default_ttl)
    ∷ (15, run_get key)
    ∷ (16, run_get key)
    ∷ (17, run_set key 3 no_expiration)
    ∷ (18, run_cleanup)
    ∷ (20, run_replace key 4 keep_ttl)
    ∷ (90, run_get key)
    ∷ (91, run_del key)
    ∷ (92, run_get key)
    ∷ []

session_answers :
    run_all session (new (pos 5))
    ≡ changed true
      ∷ changed false
      ∷ found (some 1)
      ∷ found none
      ∷ nothing
      ∷ nothing
      ∷ changed true
      ∷ found (some 4)
      ∷ nothing
      ∷ found none
      ∷ []
unfolding revchat.Cache.Refine.run new revchat.Base.Text.text_beq
session_answers = refl

run_all-spec_all_example : run_all session (new (pos 5)) ≡ spec_all (pos 5) session (λ _. none)
run_all-spec_all_example = run_all-spec_all (pos 5) session (
  omega arith,
  (
    omega arith,
    (
      omega arith,
      (
        omega arith,
        (
          omega arith,
          (omega arith, (omega arith, (omega arith, (omega arith, (omega arith, tt))))),
        ),
      ),
    ),
  ),
)

-- A cache with an item that expired at time 15, and one that does not expire.
abbrev stale : Cache ℕ
stale = record {
  entries =
      (key, record { value = 1; expiration = 15 })
      ∷ (codes "b.json", record { value = 2; expiration = 0 })
      ∷ [];
  default_expiration = pos 5;
}

lazy_deletion_race_example :
    let item : Item ℕ = record { value = 7; expiration = expiration_time no_expiration 16 stale } in
    let between = set key 7 no_expiration 16 stale in
    (visible 30 (finish_item key 16 (read_item key stale) between).1.entries key ≡ none)
    × (visible 30 (set key 7 no_expiration 16 (get_item key 16 stale).1).entries key
        ≡ live 30 (some item))
    × (visible 30 (get_item key 16 between).1.entries key ≡ live 30 (some item))
unfolding lookup expired revchat.Base.Text.text_beq
lazy_deletion_race_example =
    lazy_deletion_race key (record { value = 1; expiration = 15 }) 7 no_expiration 16 30 stale
      (omega arith) refl refl

listing_visible_example :
    ((k : Text) → contains (keys 16 stale) k ≡ is_some (visible 16 stale.entries k))
    × ((k : Text) → lookup k (items 16 stale) ≡ visible 16 stale.entries k)
    × (item_count 16 stale ≡ length (items 16 stale))
    × (item_count 16 stale ≡ length (keys 16 stale))
    × (item_count 16 stale ≤ len stale)
unfolding revchat.Base.Dict.has_key revchat.Base.Text.text_beq
listing_visible_example = listing_visible 16 stale (refl, (refl, tt))

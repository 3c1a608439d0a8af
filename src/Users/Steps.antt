-- ===== src/Users/Steps.antt =====
-- What each step of an update does to the indexes and the entries.
use revchat.Base.{
  ℕ, zero, suc, ◌<◌, Bool, true, false, not, ◌&&◌, List, [], ◌∷◌, Option, some, if◌then◌else◌, ◌==◌,
  length, get_elem?, ◌≡◌, refl, sym, ap, subst, ◌∙◌, arith, Bool-cases, inl, inr,
}
use revchat.Base.Dict.{put, lookup-put}
use revchat.Base.Integers.{ℤ, pos}
use revchat.Base.Text.{Text, text_eq}
use revchat.Result.{Result, ok, Act, continue, return}
use revchat.Users.Db.{User, Index, made, Users, find, write}
use revchat.Users.Ops.{
  Column, by_email, by_real_name, by_bitbucket_id, by_github_id, by_slack_id, index_of, with_index,
  with_field, change_at, change, set_index, is_indexed, set_column, set_thrippy_link,
}

abbrev pub same : Column → Column → Bool
same by_email by_email = true
same by_real_name by_real_name = true
same by_bitbucket_id by_bitbucket_id = true
same by_github_id by_github_id = true
same by_slack_id by_slack_id = true
same _ _ = false

-- All indexes are made, and hold no position behind the last entry.
pub record IsIndexed (u : Users) : Type 0 where
  pub is_made : (c : Column) → (m : List (Text × ℤ)) × (index_of c u ≡ made m)
  pub in_range :
      (c : Column) (key : Text) (i : ℕ)
      → find (index_of c u) key ≡ some (pos i)
      → i < length u.entries

index_of-with_index :
    (c d : Column) (m : Index) (u : Users)
    → index_of d (with_index c m u) ≡ (if same c d then m else index_of d u)
index_of-with_index c d m u = ground arith

entries-with_index : (c : Column) (m : Index) (u : Users) → (with_index c m u).entries ≡ u.entries
entries-with_index c m u = ground arith

length-change_at : (i : ℕ) (f : User → User) (l : List User) → length (change_at i f l) ≡ length l
unfolding change_at
length-change_at i f [] = refl
length-change_at zero f (user ∷ rest) = refl
length-change_at (suc i) f (user ∷ rest) = omega (arith, length-change_at i f rest)

pub get_elem?-lt :
    (i : ℕ) (l : List User) → i < length l → (user : User) × (get_elem? l i ≡ some user)
get_elem?-lt i [] h = absurd (omega (arith, h))
get_elem?-lt zero (user ∷ rest) h = (user, refl)
get_elem?-lt (suc i) (user ∷ rest) h = get_elem?-lt i rest (omega (arith, h))

change-lt :
    (i : ℕ) (f : User → User) (u : Users)
    → i < length u.entries
    → change i f u ≡ (ok tt, record u { entries = change_at i f u.entries })
unfolding change
change-lt i f u h = let (user, e) = get_elem?-lt i u.entries h in rw (e, change) refl

set_index-made :
    (c : Column) (key : Text) (i : ℕ) (u : Users) (m : List (Text × ℤ))
    → index_of c u ≡ made m
    → set_index c key i u ≡ (ok tt, with_index c (made (put key (pos i) m)) u)
unfolding set_index write
set_index-made c key i u m e = rw (e, set_index) refl

find-made :
    (key k : Text) (v : ℤ) (m : List (Text × ℤ))
    → find (made (put key v m)) k ≡ (if key == k then some v else find (made m) k)
unfolding find
find-made key k v m = lookup-put key k v m

-- Whether a key is put into its index.
abbrev pub puts : Column → Text → Bool
puts c key = not (key == []) && is_indexed c key

-- A step of an update that succeeds, keeps the indexes in range, and puts a key of a column at most.
pub record Step (i : ℕ) (c : Column) (key : Text) (b : Bool) (u : Users)
    (r : Result (Unit {0}) × Users) : Type 0 where
  pub is_ok : r.0 ≡ ok tt
  pub IsIndexed_kept : IsIndexed r.1
  pub has_entry : i < length r.1.entries
  pub finds :
      (d : Column) (k : Text)
      → find (index_of d r.1) k
        ≡ (if (b && same c d) && (key == k) then some (pos i) else find (index_of d u) k)

pub index_of-entries :
    (d : Column) (l : List User) (u : Users) → index_of d (record u { entries = l }) ≡ index_of d u
index_of-entries d l u = ground arith

change-IsIndexed :
    (i : ℕ) (f : User → User) (u : Users)
    → IsIndexed u
    → IsIndexed (record u { entries = change_at i f u.entries })
change-IsIndexed i f u h = record {
  is_made = λ c.
      subst (λ x. (m : List (Text × ℤ)) × (x ≡ made m))
        (sym (index_of-entries c (change_at i f u.entries) u)) (h.is_made c);
  in_range = λ c key n e.
      subst (λ x. n < x) (sym (length-change_at i f u.entries))
        (h.in_range c key n
          (ap (λ x. find x key) (sym (index_of-entries c (change_at i f u.entries) u)) ∙ e));
}

pub change-Step :
    (i : ℕ) (c : Column) (key : Text) (f : User → User) (u : Users)
    → IsIndexed u
    → i < length u.entries
    → Step i c key false u (change i f u)
change-Step i c key f u h lt = rw (change-lt i f u lt) (record {
  is_ok = refl;
  IsIndexed_kept = change-IsIndexed i f u h;
  has_entry = rw (length-change_at i f u.entries) lt;
  finds = λ d k. ap (λ x. find x k) (index_of-entries d (change_at i f u.entries) u);
})

same-index_of : (c d : Column) (u : Users) → same c d ≡ true → index_of d u ≡ index_of c u
same-index_of c d u h = ground arith

find-with_index :
    (c d : Column) (key k : Text) (v : ℤ) (u : Users) (m : List (Text × ℤ))
    → index_of c u ≡ made m
    → find (index_of d (with_index c (made (put key v m)) u)) k
      ≡ (if same c d && (key == k) then some v else find (index_of d u) k)
find-with_index c d key k v u m e = elim (Bool-cases (same c d)) [
  | inl y ↦
      rw (index_of-with_index c d (made (put key v m)) u, y, same-index_of c d u y, e)
        (find-made key k v m)
  | inr n ↦ rw (index_of-with_index c d (made (put key v m)) u, n) refl
]

made-with_index :
    (c d : Column) (m : List (Text × ℤ)) (u : Users)
    → ((n : List (Text × ℤ)) × (index_of d u ≡ made n))
    → (n : List (Text × ℤ)) × (index_of d (with_index c (made m) u) ≡ made n)
made-with_index c d m u (n, e) = elim (Bool-cases (same c d)) [
  | inl y ↦ (m, index_of-with_index c d (made m) u ∙ (rw y refl))
  | inr other ↦ (n, index_of-with_index c d (made m) u ∙ (rw other e))
]

put_in_range :
    (b : Bool) (i n l : ℕ) (o : Option ℤ)
    → i < l
    → (o ≡ some (pos n) → n < l)
    → (if b then some (pos i) else o) ≡ some (pos n)
    → n < l
put_in_range true i n l o lt h e = ground arith
put_in_range false i n l o lt h e = h e

set_index-Step :
    (i : ℕ) (c : Column) (key : Text) (u : Users)
    → IsIndexed u
    → i < length u.entries
    → Step i c key true u (set_index c key i u)
set_index-Step i c key u h lt =
    let (m, e) = h.is_made c in
    rw (set_index-made c key i u m e) (record {
      is_ok = refl;
      IsIndexed_kept = record {
        is_made = λ d. made-with_index c d (put key (pos i) m) u (h.is_made d);
        in_range = λ d k n found. rw (entries-with_index c (made (put key (pos i) m)) u) (
            put_in_range (same c d && (key == k)) i n (length u.entries) (find (index_of d u) k) lt
              (h.in_range d k n) (sym (find-with_index c d key k (pos i) u m e) ∙ found));
      };
      has_entry = rw (entries-with_index c (made (put key (pos i) m)) u) lt;
      finds = λ d k. find-with_index c d key k (pos i) u m e;
    })

pub Step-run :
    (i : ℕ) (c : Column) (key : Text) (b : Bool) (u : Users) (r : Result (Unit {0}) × Users)
    → Step i c key b u r
    → r ≡ (ok tt, r.1)
Step-run i c key b u (r, u2) h = ap (λ x. (x, u2)) h.is_ok

-- A change of the entry, and behind it a step.
change-then :
    (i : ℕ) (c : Column) (key : Text) (b : Bool) (f : User → User) (m : Act Users (Unit {0}))
    (u : Users)
    → IsIndexed u
    → i < length u.entries
    → ((v : Users) → IsIndexed v → i < length v.entries → Step i c key b v (m v))
    → Step i c key b u (continue (change i f u) (λ _. m))
change-then i c key b f m u h lt k =
    let first = change-Step i c key f u h lt in
    let next = k (change i f u).1 first.IsIndexed_kept first.has_entry in
    subst (λ r. Step i c key b u (continue r (λ _. m)))
      (sym (Step-run i c key false u (change i f u) first))
      (record {
        is_ok = next.is_ok;
        IsIndexed_kept = next.IsIndexed_kept;
        has_entry = next.has_entry;
        finds = λ d k2. ground (arith, next.finds d k2, first.finds d k2);
      })

return-Step :
    (i : ℕ) (c : Column) (key : Text) (u : Users)
    → IsIndexed u
    → i < length u.entries
    → Step i c key false u (ok tt, u)
return-Step i c key u h lt = record {
  is_ok = refl;
  IsIndexed_kept = h;
  has_entry = lt;
  finds = λ d k. refl;
}

index-Step :
    (i : ℕ) (c : Column) (key : Text) (u : Users)
    → IsIndexed u
    → i < length u.entries
    → Step i c key
        (is_indexed c key)
        u
        ((if is_indexed c key then set_index c key i else return tt) u)
index-Step i c key u h lt = elim (Bool-cases (is_indexed c key)) [
  | inl y ↦ rw y (set_index-Step i c key u h lt)
  | inr n ↦ rw n (return-Step i c key u h lt)
]

pub set_column-Step :
    (i : ℕ) (c : Column) (key : Text) (u : Users)
    → IsIndexed u
    → i < length u.entries
    → Step i c key (puts c key) u (set_column c key i u)
unfolding set_column
set_column-Step i c key u h lt = elim (Bool-cases (key == [])) [
  | inl y ↦ rw y (return-Step i c key u h lt)
  | inr n ↦ rw n (
      change-then i c key (is_indexed c key) (with_field c key)
        (λ v. (if is_indexed c key then set_index c key i else return tt) v) u h lt
        (index-Step i c key))
]

pub set_thrippy_link-Step :
    (i : ℕ) (link : Text) (u : Users)
    → IsIndexed u
    → i < length u.entries
    → Step i by_email [] false u (set_thrippy_link link i u)
unfolding set_thrippy_link
set_thrippy_link-Step i link u h lt = elim (Bool-cases (link == [])) [
  | inl y ↦ rw y (return-Step i by_email [] u h lt)
  | inr n ↦ rw n (change-Step i by_email [] _ u h lt)
]

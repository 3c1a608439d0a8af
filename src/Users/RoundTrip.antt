-- ===== src/Users/RoundTrip.antt =====
-- A user that was stored is found again by each of the keys that were given.
use revchat.Base.{
  ℕ, ◌<◌, true, List, [], ◌∷◌, ◌++◌, Option, none, some, length, length-append, ◌≡◌, refl, sym, ap,
  subst, ◌∙◌, arith, beq_refl,
}
use revchat.Base.Integers.{ℤ, pos, negsuc}
use revchat.Base.Text.{Text, text_eq}
use revchat.Result.{Result, ok, err}
use revchat.Users.Db.{User, no_user, Users, made, find, find_user_index, combine, and_then, missing}
use revchat.Users.Ops.{
  Column, by_email, by_real_name, by_bitbucket_id, by_github_id, by_slack_id, index_of, Fields,
  update_entry, upsert_at, upsert, select,
}
use revchat.Users.Steps.{IsIndexed, index_of-entries, puts}
use revchat.Users.Update.{key_of, Stored, update_entry-Stored}

and_then_in_range :
    (l : ℕ) (r : Result ℤ) (o : Option ℤ)
    → ((n : ℕ) → r ≡ ok (pos n) → n < l)
    → ((n : ℕ) → o ≡ some (pos n) → n < l)
    → (n : ℕ) → and_then r o ≡ ok (pos n)
    → n < l
unfolding combine
and_then_in_range l (err m) o h k n e = ground arith
and_then_in_range l (ok i) none h k n e = h n e
and_then_in_range l (ok (negsuc a)) (some j) h k n e = ground (arith, k n)
and_then_in_range l (ok (pos a)) (some j) h k n e = ground (arith, k n)

find_user_index-lt :
    (f : Fields) (u : Users)
    → IsIndexed u
    → (n : ℕ)
    → find_user_index u f.email f.real_name f.bitbucket_id f.github_id f.slack_id ≡ ok (pos n)
    → n < length u.entries
unfolding find_user_index
find_user_index-lt f u h =
    let l = length u.entries in
    and_then_in_range l _ (find u.slack_index f.slack_id)
      (and_then_in_range l _ (find u.github_index f.github_id)
        (and_then_in_range l _ (find u.bitbucket_index f.bitbucket_id)
          (and_then_in_range l _ (find u.name_index f.real_name)
            (and_then_in_range l (ok missing) (find u.email_index f.email) (λ n e. ground arith)
              (h.in_range by_email f.email))
            (h.in_range by_real_name f.real_name))
          (h.in_range by_bitbucket_id f.bitbucket_id))
        (h.in_range by_github_id f.github_id))
      (h.in_range by_slack_id f.slack_id)

append-IsIndexed :
    (u : Users) (user : User)
    → IsIndexed u
    → IsIndexed (record u { entries = u.entries ++ (user ∷ []) })
append-IsIndexed u user h =
    let l = u.entries ++ (user ∷ []) in
    record {
      is_made = λ c.
          subst (λ x. (m : List (Text × ℤ)) × (x ≡ made m)) (sym (index_of-entries c l u))
            (h.is_made c);
      in_range = λ c key n e. omega (
        arith,
        length-append u.entries (user ∷ []),
        h.in_range c key n (ap (λ x. find x key) (sym (index_of-entries c l u)) ∙ e),
      );
    }

select-Stored :
    (i : ℕ) (f : Fields) (u : Users) (r : Result User × Users) (c : Column)
    → (h : Stored i f u r) → puts c (key_of c f) ≡ true
    → select c (key_of c f) r.1 ≡ ok h.user
unfolding select
select-Stored i f u r c h p =
    let found : find (index_of c r.1) (key_of c f) ≡ some (pos i) =
      h.finds c (key_of c f) ∙ (rw (p, beq_refl (key_of c f)) refl) in
    rw (found, h.is_entry, select) refl

conclude :
    (i : ℕ) (f : Fields) (u : Users) (r : Result User × Users)
    → Stored i f u r
    → (user : User) × (r.0 ≡ ok user)
      × IsIndexed r.1
      × ((c : Column) → puts c (key_of c f) ≡ true → select c (key_of c f) r.1 ≡ ok user)
conclude i f u r h = (h.user, h.is_ok, h.indexed, λ c p. select-Stored i f u r c h p)

-- If the indexes are made and in range and the given keys do not conflict, then `UpsertUser` stores a
-- user: it returns no error before the file is written, the indexes are in range again, and
-- `SelectUser` finds the user that is returned by each key that was given, except by the address "bot".
pub upsert-select :
    (now : ℕ) (f : Fields) (u : Users) (z : ℤ)
    → IsIndexed u
    → find_user_index u f.email f.real_name f.bitbucket_id f.github_id f.slack_id ≡ ok z
    → (user : User) × ((upsert now f u).0 ≡ ok user)
      × IsIndexed (upsert now f u).1
      × ((c : Column)
          → puts c (key_of c f) ≡ true
          → select c (key_of c f) (upsert now f u).1 ≡ ok user)
unfolding upsert upsert_at
upsert-select now f u (pos n) h e =
    rw (e, upsert)
      (conclude n f u (update_entry now f n u)
        (update_entry-Stored now f n u h (find_user_index-lt f u h n e)))
upsert-select now f u (negsuc n) h e =
    let fresh : User = record no_user { created = now } in
    let bigger : Users = record u { entries = u.entries ++ (fresh ∷ []) } in
    rw (e, upsert)
      (conclude (length u.entries) f bigger (update_entry now f (length u.entries) bigger) (
        update_entry-Stored now f (length u.entries) bigger (append-IsIndexed u fresh h)
          (omega (arith, length-append u.entries (fresh ∷ [])))))

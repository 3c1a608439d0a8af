-- ===== src/Users/Update.antt =====
-- The entry of a user behind all the steps of an update.
use revchat.Base.{
  ℕ, ◌<◌, Bool, true, false, ◌&&◌, [], Option, some, if◌then◌else◌, ◌==◌, length, get_elem?, ◌≡◌,
  refl, sym, ap, subst, ◌∙◌,
}
use revchat.Base.Integers.{ℤ, pos}
use revchat.Base.Text.{Text, text_eq}
use revchat.Result.{Result, ok, Act, continue}
use revchat.Users.Db.{User, Users, find}
use revchat.Users.Ops.{
  Column, by_email, by_real_name, by_bitbucket_id, by_github_id, by_slack_id, index_of, change,
  entry, set_column, set_thrippy_link, Fields, update_entry,
}
use revchat.Users.Steps.{
  same, IsIndexed, get_elem?-lt, puts, Step, Step-run, change-Step, set_column-Step,
  set_thrippy_link-Step,
}

-- The key of a column in what is stored.
abbrev pub key_of : Column → Fields → Text
key_of by_email f = f.email
key_of by_real_name f = f.real_name
key_of by_bitbucket_id f = f.bitbucket_id
key_of by_github_id f = f.github_id
key_of by_slack_id f = f.slack_id

-- What a run that stores a user leaves: the user is an entry, and is found by the given keys; what
-- the other keys find is as before.
pub record Stored (i : ℕ) (f : Fields) (u : Users) (r : Result User × Users) : Type 0 where
  pub user : User
  pub is_ok : r.0 ≡ ok user
  pub is_entry : get_elem? r.1.entries i ≡ some user
  pub indexed : IsIndexed r.1
  pub finds :
      (c : Column) (key : Text)
      → find (index_of c r.1) key ≡ (
          if puts c (key_of c f) && (key_of c f == key)
          then some (pos i)
          else find (index_of c u) key)

entry-lt :
    (i : ℕ) (u : Users)
    → i < length u.entries
    → (user : User) × (entry i u ≡ (ok user, u)) × (get_elem? u.entries i ≡ some user)
unfolding entry
entry-lt i u h = let (user, e) = get_elem?-lt i u.entries h in (user, rw (e, entry) refl, e)

-- To go on behind a step.
behind :
    (P : Result User × Users → Type 0) (i : ℕ) (c : Column) (key : Text) (b : Bool) (u : Users)
    (r : Result (Unit {0}) × Users) (k : Act Users User)
    → Step i c key b u r
    → P (k r.1)
    → P (continue r (λ _. k))
behind P i c key b u r k h p =
    subst (λ x. P (continue x (λ _. k))) (sym (Step-run i c key b u r h)) p

other : (b x : Bool) (v o : Option ℤ) → (if (b && false) && x then v else o) ≡ o
other true x v o = refl
other false x v o = refl

this :
    (b x : Bool) (v o p : Option ℤ)
    → o ≡ p
    → (if (b && true) && x then v else o) ≡ (if b && x then v else p)
this true x v o p e = rw e refl
this false x v o p e = e

-- What a key finds behind the five columns.
five_steps :
    (c : Column) (f : Fields) (key : Text) (v o0 o1 o2 o3 o4 o5 : Option ℤ)
    → o1 ≡ (if (puts by_email f.email && same by_email c) && (f.email == key) then v else o0)
    → o2 ≡ (
        if (puts by_real_name f.real_name && same by_real_name c) && (f.real_name == key)
        then v
        else o1)
    → o3 ≡ (
        if (puts by_bitbucket_id f.bitbucket_id && same by_bitbucket_id c)
          && (f.bitbucket_id == key)
        then v
        else o2)
    → o4 ≡ (
        if (puts by_github_id f.github_id && same by_github_id c) && (f.github_id == key)
        then v
        else o3)
    → o5 ≡ (
        if (puts by_slack_id f.slack_id && same by_slack_id c) && (f.slack_id == key)
        then v
        else o4)
    → o5 ≡ (if puts c (key_of c f) && (key_of c f == key) then v else o0)
five_steps by_email f key v o0 o1 o2 o3 o4 o5 e1 e2 e3 e4 e5 =
    e5
    ∙ other (puts by_slack_id f.slack_id) (f.slack_id == key) v o4
    ∙ e4
    ∙ other (puts by_github_id f.github_id) (f.github_id == key) v o3
    ∙ e3
    ∙ other (puts by_bitbucket_id f.bitbucket_id) (f.bitbucket_id == key) v o2
    ∙ e2
    ∙ other (puts by_real_name f.real_name) (f.real_name == key) v o1
    ∙ e1
    ∙ this (puts by_email f.email) (f.email == key) v o0 o0 (refl)
five_steps by_real_name f key v o0 o1 o2 o3 o4 o5 e1 e2 e3 e4 e5 =
    e5
    ∙ other (puts by_slack_id f.slack_id) (f.slack_id == key) v o4
    ∙ e4
    ∙ other (puts by_github_id f.github_id) (f.github_id == key) v o3
    ∙ e3
    ∙ other (puts by_bitbucket_id f.bitbucket_id) (f.bitbucket_id == key) v o2
    ∙ e2
    ∙ this (puts by_real_name f.real_name) (f.real_name == key) v o1 o0
        (e1 ∙ other (puts by_email f.email) (f.email == key) v o0)
five_steps by_bitbucket_id f key v o0 o1 o2 o3 o4 o5 e1 e2 e3 e4 e5 =
    e5
    ∙ other (puts by_slack_id f.slack_id) (f.slack_id == key) v o4
    ∙ e4
    ∙ other (puts by_github_id f.github_id) (f.github_id == key) v o3
    ∙ e3
    ∙ this (puts by_bitbucket_id f.bitbucket_id) (f.bitbucket_id == key) v o2 o0 (
        e2
        ∙ other (puts by_real_name f.real_name) (f.real_name == key) v o1
        ∙ e1
        ∙ other (puts by_email f.email) (f.email == key) v o0)
five_steps by_github_id f key v o0 o1 o2 o3 o4 o5 e1 e2 e3 e4 e5 =
    e5
    ∙ other (puts by_slack_id f.slack_id) (f.slack_id == key) v o4
    ∙ e4
    ∙ this (puts by_github_id f.github_id) (f.github_id == key) v o3 o0 (
        e3
        ∙ other (puts by_bitbucket_id f.bitbucket_id) (f.bitbucket_id == key) v o2
        ∙ e2
        ∙ other (puts by_real_name f.real_name) (f.real_name == key) v o1
        ∙ e1
        ∙ other (puts by_email f.email) (f.email == key) v o0)
five_steps by_slack_id f key v o0 o1 o2 o3 o4 o5 e1 e2 e3 e4 e5 =
    e5
    ∙ this (puts by_slack_id f.slack_id) (f.slack_id == key) v o4 o0 (
        e4
        ∙ other (puts by_github_id f.github_id) (f.github_id == key) v o3
        ∙ e3
        ∙ other (puts by_bitbucket_id f.bitbucket_id) (f.bitbucket_id == key) v o2
        ∙ e2
        ∙ other (puts by_real_name f.real_name) (f.real_name == key) v o1
        ∙ e1
        ∙ other (puts by_email f.email) (f.email == key) v o0)

pub update_entry-Stored :
    (now : ℕ) (f : Fields) (i : ℕ) (u : Users)
    → IsIndexed u
    → i < length u.entries
    → Stored i f u (update_entry now f i u)
unfolding update_entry
update_entry-Stored now f i u h lt =
    let stamp : User → User = λ user. record user { updated = now } in
    let s0 = change-Step i by_email [] stamp u h lt in
    let u0 = (change i stamp u).1 in
    let s1 = set_column-Step i by_email f.email u0 s0.IsIndexed_kept s0.has_entry in
    let u1 = (set_column by_email f.email i u0).1 in
    let s2 = set_column-Step i by_real_name f.real_name u1 s1.IsIndexed_kept s1.has_entry in
    let u2 = (set_column by_real_name f.real_name i u1).1 in
    let s3 = set_column-Step i by_bitbucket_id f.bitbucket_id u2 s2.IsIndexed_kept s2.has_entry in
    let u3 = (set_column by_bitbucket_id f.bitbucket_id i u2).1 in
    let s4 = set_column-Step i by_github_id f.github_id u3 s3.IsIndexed_kept s3.has_entry in
    let u4 = (set_column by_github_id f.github_id i u3).1 in
    let s5 = set_column-Step i by_slack_id f.slack_id u4 s4.IsIndexed_kept s4.has_entry in
    let u5 = (set_column by_slack_id f.slack_id i u4).1 in
    let s6 = set_thrippy_link-Step i f.thrippy_link u5 s5.IsIndexed_kept s5.has_entry in
    let u6 = (set_thrippy_link f.thrippy_link i u5).1 in
    let (user, run, e) = entry-lt i u6 s6.has_entry in
    let P : Result User × Users → Type 0 = λ r. Stored i f u r in
    behind P i by_email [] false u (change i stamp u) _ s0 (
      behind P i by_email f.email (puts by_email f.email) u0 (set_column by_email f.email i u0) _ s1
        (behind P i by_real_name f.real_name (puts by_real_name f.real_name) u1
          (set_column by_real_name f.real_name i u1) _ s2
          (behind P i by_bitbucket_id f.bitbucket_id (puts by_bitbucket_id f.bitbucket_id) u2
            (set_column by_bitbucket_id f.bitbucket_id i u2) _ s3
            (behind P i by_github_id f.github_id (puts by_github_id f.github_id) u3
              (set_column by_github_id f.github_id i u3) _ s4
              (behind P i by_slack_id f.slack_id (puts by_slack_id f.slack_id) u4
                (set_column by_slack_id f.slack_id i u4) _ s5
                (behind P i by_email [] false u5 (set_thrippy_link f.thrippy_link i u5) (entry i) s6
                  (rw run (record {
                    user = user;
                    is_ok = refl;
                    is_entry = e;
                    indexed = s6.IsIndexed_kept;
                    finds = λ c key.
                        s6.finds c key
                        ∙ five_steps c f key (some (pos i)) (find (index_of c u0) key)
                            (find (index_of c u1) key) (find (index_of c u2) key)
                            (find (index_of c u3) key) (find (index_of c u4) key)
                            (find (index_of c u5) key) (s1.finds c key) (s2.finds c key)
                            (s3.finds c key) (s4.finds c key) (s5.finds c key)
                        ∙ ap
                            (λ o.
                              if puts c (key_of c f) && (key_of c f == key)
                              then some (pos i)
                              else o)
                            (s0.finds c key);
                  }))))))))

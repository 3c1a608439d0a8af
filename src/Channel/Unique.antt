-- ===== src/Channel/Unique.antt =====
-- The names that are tried for a pull request are different from each other, and from those for
-- another number.
use mathlib.Core.List.{append_assoc, append_cancel_left}
use revchat.Base.{
  ℕ, zero, suc, ◌+◌, ◌*◌, ◌/◌, ◌%◌, ◌-◌, ◌≤◌, ◌<◌, true, false, [], ◌∷◌, ◌++◌, if◌then◌else◌, ltb,
  length, length-append, ◌≡◌, ◌≢◌, refl, sym, ap, ◌∙◌, arith, Bool-cases, inl, inr,
}
use revchat.Base.Text.{Text}
use revchat.Channel.Pattern.{is_digit}
use revchat.Channel.Create.{digits, decimal, channel_name}

-- The number that the digits at the start of a text show, behind those of `n`.
abbrev leading : ℕ → Text → ℕ
leading n [] = n
leading n (c ∷ s) = let more = leading (n * 10 + (c - 48)) s in if is_digit c then more else n

leading-digit : (n d : ℕ) (s : Text) → d < 10 → leading n ((48 + d) ∷ s) ≡ leading (n * 10 + d) s
unfolding is_digit
leading-digit n d s h = ground arith

leading-only_digit : (n : ℕ) (s : Text) → n < 10 → leading 0 ((48 + n) ∷ s) ≡ leading n s
leading-only_digit n s h = leading-digit 0 n s h ∙ ap (λ m. leading m s) (omega arith)

leading-digits : (fuel n : ℕ) (s : Text) → n ≤ fuel → leading 0 (digits fuel n s) ≡ leading n s
unfolding digits
leading-digits zero n s h = leading-only_digit n s (omega (arith, h))
leading-digits (suc fuel) n s h = elim (Bool-cases (ltb n 10)) [
  | inl small ↦ rw small (leading-only_digit n s (ground arith))
  | inr large ↦ rw large (
      leading-digits fuel (n / 10) ((48 + n % 10) ∷ s) (ground arith)
      ∙ leading-digit (n / 10) (n % 10) s (omega arith)
      ∙ ap (λ m. leading m s) (omega arith))
]

digits-append : (fuel n : ℕ) (s t : Text) → digits fuel n s ++ t ≡ digits fuel n (s ++ t)
unfolding digits
digits-append zero n s t = refl
digits-append (suc fuel) n s t = elim (Bool-cases (ltb n 10)) [
  | inl small ↦ rw small refl
  | inr large ↦ rw large (digits-append fuel (n / 10) ((48 + n % 10) ∷ s) t)
]

leading-decimal : (n : ℕ) (s : Text) → leading 0 (decimal n (b'_' ∷ s)) ≡ n
unfolding decimal is_digit
leading-decimal n s = leading-digits n n (b'_' ∷ s) (omega arith) ∙ refl

leading-decimal-last : (n : ℕ) → leading 0 (decimal n []) ≡ n
unfolding decimal
leading-decimal-last n = leading-digits n n [] (omega arith)

-- What stands behind as many characters as a prefix has.
abbrev behind_prefix : Text → Text → Text
behind_prefix [] s = s
behind_prefix (p ∷ ps) [] = []
behind_prefix (p ∷ ps) (c ∷ s) = behind_prefix ps s

behind_prefix-append : (p s : Text) → behind_prefix p (p ++ s) ≡ s
behind_prefix-append [] s = refl
behind_prefix-append (c ∷ p) s = behind_prefix-append p s

-- The PR number in a channel name.
abbrev pr_id_of : Text → Text → ℕ
pr_id_of prefix name = leading 0 (behind_prefix (b'-' ∷ []) (behind_prefix prefix name))

-- The name of the first attempt, with any text behind it.
pr_id_of-first :
    (prefix : Text) (pr_id : ℕ) (title rest : Text)
    → pr_id_of prefix ((prefix ++ b'-' ∷ decimal pr_id (b'_' ∷ title)) ++ rest) ≡ pr_id
unfolding decimal
pr_id_of-first prefix n title rest =
    ap (pr_id_of prefix) (append_assoc prefix (b'-' ∷ decimal n (b'_' ∷ title)) rest)
    ∙ ap (λ s. leading 0 (behind_prefix (b'-' ∷ []) s))
        (behind_prefix-append prefix (b'-' ∷ (decimal n (b'_' ∷ title) ++ rest)))
    ∙ ap (leading 0) (digits-append n n (b'_' ∷ title) rest)
    ∙ leading-decimal n (title ++ rest)

-- The number of a PR is read back from the name of its channel.
pr_id_of-channel_name :
    (prefix : Text) (pr_id : ℕ) (title : Text) (i : ℕ)
    → pr_id_of prefix (channel_name prefix pr_id title i) ≡ pr_id
unfolding channel_name
pr_id_of-channel_name prefix n title i = elim (Bool-cases (ltb 1 i)) [
  | inl later ↦ rw later (pr_id_of-first prefix n title (b'_' ∷ decimal i []))
  | inr first ↦ rw first (
      ap (λ s. leading 0 (behind_prefix (b'-' ∷ []) s))
        (behind_prefix-append prefix (b'-' ∷ decimal n (b'_' ∷ title)))
      ∙ leading-decimal n title)
]

-- With the same prefix, two PRs that have different numbers never try the same name, whatever their
-- titles and the attempts are.
pub channel_name_differs :
    (prefix : Text) (pr_id other_id : ℕ) (title other_title : Text) (i j : ℕ)
    → pr_id ≢ other_id
    → channel_name prefix pr_id title i ≢ channel_name prefix other_id other_title j
channel_name_differs prefix n m title other_title i j differ e = differ (
    sym (pr_id_of-channel_name prefix n title i)
    ∙ ap (pr_id_of prefix) e
    ∙ pr_id_of-channel_name prefix m other_title j)

module _ (prefix : Text) (pr_id : ℕ) (title : Text) where
  -- The name of the first attempt.
  abbrev name : Text
  name = prefix ++ b'-' ∷ decimal pr_id (b'_' ∷ title)

  channel_name-first : (i : ℕ) → ltb 1 i ≡ false → channel_name prefix pr_id title i ≡ name
  unfolding channel_name
  channel_name-first i h = rw h refl

  channel_name-later :
      (i : ℕ) → ltb 1 i ≡ true → channel_name prefix pr_id title i ≡ name ++ b'_' ∷ decimal i []
  unfolding channel_name
  channel_name-later i h = rw h refl

  first-later : (s : Text) → ¬ (name ≡ name ++ b'_' ∷ s)
  first-later s e = omega (arith, ap (λ t. length t) e, length-append name (b'_' ∷ s))

  later-later : (i j : ℕ) → name ++ b'_' ∷ decimal i [] ≡ name ++ b'_' ∷ decimal j [] → i ≡ j
  later-later i j e =
      sym (leading-decimal-last i)
      ∙ ap (λ s. leading 0 (behind_prefix (b'_' ∷ []) s))
          (append_cancel_left name (b'_' ∷ decimal i []) (b'_' ∷ decimal j []) e)
      ∙ leading-decimal-last j

  -- The names of two attempts for one PR are different.
  channel_name_inj :
      (i j : ℕ)
      → 1 ≤ i
      → 1 ≤ j
      → channel_name prefix pr_id title i ≡ channel_name prefix pr_id title j
      → i ≡ j
  channel_name_inj i j hi hj e = elim (Bool-cases (ltb 1 i)) [
    | inl a ↦ elim (Bool-cases (ltb 1 j)) [
      | inl b ↦ later-later i j (sym (channel_name-later i a) ∙ e ∙ channel_name-later j b)
      | inr b ↦ absurd (
          first-later (decimal i [])
            (sym (channel_name-first j b) ∙ sym e ∙ channel_name-later i a))
    ]
    | inr a ↦ elim (Bool-cases (ltb 1 j)) [
      | inl b ↦
          absurd
            (first-later (decimal j []) (sym (channel_name-first i a) ∙ e ∙ channel_name-later j b))
      | inr b ↦ ground arith
    ]
  ]

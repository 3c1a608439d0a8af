-- ===== src/Channel/Shape.antt =====
-- The form of a normalized channel name.
use revchat.Base.{
  ℕ, zero, suc, ◌≤◌, Bool, true, false, ◌&&◌, [], ◌∷◌, if◌then◌else◌, ltb, length, take,
  length-take-le, ◌≡◌, refl, arith, Bool-cases, inl, inr,
}
use revchat.Base.Text.{Text, Unicode}
use revchat.Channel.Name.{
  dash, trim_prefix, trim_suffix, cleaned, only_valid, normalize_channel_name,
}
use revchat.Channel.Pattern.{
  is_separator, is_valid, is_invalid, span, invalid_characters, separators, replace_from,
  replace_all, replace_from-miss, replace_from-hit, replace_from-skip,
}

abbrev pub AllValid : Text → Type 0
AllValid [] = Unit
AllValid (c ∷ s) = (is_valid c ≡ true) × AllValid s

-- Valid characters with no two separators side by side, behind a character that is a separator or
-- not.
abbrev pub IsSpaced : Bool → Text → Type 0
IsSpaced behind [] = Unit
IsSpaced behind (c ∷ s) =
    (is_valid c ≡ true) × ((behind && is_separator c) ≡ false) × IsSpaced (is_separator c) s

abbrev pub ends_in_separator : Text → Bool
ends_in_separator [] = false
ends_in_separator (c ∷ []) = is_separator c
ends_in_separator (c ∷ d ∷ s) = ends_in_separator (d ∷ s)

-- A name of lower-case letters, digits and single separators, with none at either end.
pub record IsName (s : Text) : Type 0 where
  pub spaced : IsSpaced true s
  pub closed : ends_in_separator s ≡ false

span_yes : (p : ℕ → Bool) (c : ℕ) (s : Text) → p c ≡ true → span p (c ∷ s) ≡ suc (span p s)
unfolding span
span_yes p c s e = rw e

pub span_no : (p : ℕ → Bool) (c : ℕ) (s : Text) → p c ≡ false → span p (c ∷ s) ≡ 0
unfolding span
span_no p c s e = rw e

dash-valid : is_valid b'-' ≡ true
unfolding is_valid
dash-valid = refl

-- After the replacement of invalid characters every character is valid.
invalid_replaced : (k : ℕ) (s : Text) → AllValid (replace_from invalid_characters dash k s)
unfolding replace_from invalid_characters
invalid_replaced k [] = tt
invalid_replaced (suc k) (c ∷ s) = invalid_replaced k s
invalid_replaced zero (c ∷ s) = elim (Bool-cases (is_valid c)) [
  | inl v ↦
      rw (replace_from-miss invalid_characters dash c s (span_no is_invalid c s (rw v)))
        (v, invalid_replaced zero s)
  | inr v ↦
      rw
        (replace_from-hit invalid_characters dash c s (span is_invalid s)
          (span_yes is_invalid c s (rw v)))
        (dash-valid, invalid_replaced (span is_invalid s) s)
]

abbrev pub starts_with_separator : Text → Bool
starts_with_separator [] = false
starts_with_separator (c ∷ s) = is_separator c

-- From a text of valid characters the replacement of separators makes a spaced one, at a place
-- where no run is cut, and behind the run that starts a text.
separators-many :
    (c d : ℕ) (s : Text)
    → is_separator c ≡ true
    → is_separator d ≡ true
    → separators (c ∷ d ∷ s) ≡ suc (span is_separator (d ∷ s))
unfolding separators
separators-many c d s e f =
    rw (span_yes is_separator c (d ∷ s) e) (rw (span_yes is_separator d s f) (ground arith))

pub separators-few :
    (c : ℕ) (s : Text) → is_separator c && starts_with_separator s ≡ false → separators (c ∷ s) ≡ 0
unfolding separators span
separators-few c [] e = ground arith
separators-few c (d ∷ s) e = ground arith

-- The start of a run of separators.
run_replaced :
    (c : ℕ) (s : Text)
    → is_separator c && starts_with_separator s ≡ true
    → IsSpaced true (replace_from separators dash (span is_separator s) s)
    → (behind : Bool) → (behind && is_separator c) ≡ false
    → IsSpaced behind (replace_from separators dash zero (c ∷ s))
unfolding is_separator
run_replaced c [] many past b e = absurd (ground arith)
run_replaced c (d ∷ s) many past b e =
    rw
      (replace_from-hit separators dash c (d ∷ s) (span is_separator (d ∷ s))
        (separators-many c d s (ground arith) (ground arith)))
      (dash-valid, ground arith, past)

-- From a text of valid characters the replacement of separators makes a spaced one, both where no
-- run is cut and behind the run that starts the text.
separators_replaced :
    (s : Text)
    → AllValid s
    → ((behind : Bool)
        → (behind && starts_with_separator s) ≡ false
        → IsSpaced behind (replace_from separators dash zero s))
      × IsSpaced true (replace_from separators dash (span is_separator s) s)
unfolding replace_from
separators_replaced [] h = (λ b e. tt, tt)
separators_replaced (c ∷ s) h =
    let (at, past) = separators_replaced s h.1 in
    (
      λ b e. elim (Bool-cases (is_separator c && starts_with_separator s)) [
        | inl many ↦ run_replaced c s many past b e
        | inr few ↦
            rw (replace_from-miss separators dash c s (separators-few c s few)) (h.0, e, at _ few)
      ],
      elim (Bool-cases (is_separator c)) [
        | inl y ↦ rw (span_yes is_separator c s y, replace_from-skip separators dash c s) past
        | inr n ↦ rw (span_no is_separator c s n) (
            rw (replace_from-miss separators dash c s (separators-few c s (rw n)))
              (h.0, n, rw n (at false refl)))
      ],
    )

prefix_trimmed :
    (s : Text) → IsSpaced false s → IsSpaced true (trim_prefix b'_' (trim_prefix b'-' s))
unfolding trim_prefix is_separator
prefix_trimmed [] h = tt
prefix_trimmed (c ∷ []) h = ground arith
prefix_trimmed (c ∷ d ∷ s) h = ground arith

take-IsSpaced : (b : Bool) (n : ℕ) (s : Text) → IsSpaced b s → IsSpaced b (take n s)
take-IsSpaced b zero s h = tt
take-IsSpaced b (suc n) [] h = tt
take-IsSpaced b (suc n) (c ∷ s) h = (h.0, h.1, take-IsSpaced (is_separator c) n s h.2)

trim_suffix-IsSpaced : (b : Bool) (p : ℕ) (s : Text) → IsSpaced b s → IsSpaced b (trim_suffix p s)
unfolding trim_suffix
trim_suffix-IsSpaced b p [] h = tt
trim_suffix-IsSpaced b p (c ∷ []) h = ground arith
trim_suffix-IsSpaced b p (c ∷ d ∷ s) h =
    (h.0, h.1, trim_suffix-IsSpaced (is_separator c) p (d ∷ s) h.2)

length-trim_suffix-le : (p : ℕ) (s : Text) → length (trim_suffix p s) ≤ length s
unfolding trim_suffix
length-trim_suffix-le p [] = omega arith
length-trim_suffix-le p (c ∷ []) = ground arith
length-trim_suffix-le p (c ∷ d ∷ s) = omega (arith, length-trim_suffix-le p (d ∷ s))

closed_cons :
    (c d : ℕ) (s : Text)
    → (is_separator c && is_separator d) ≡ false
    → ends_in_separator (trim_suffix b'_' (d ∷ s)) ≡ false
    → ends_in_separator (c ∷ trim_suffix b'_' (d ∷ s)) ≡ false
unfolding trim_suffix is_separator
closed_cons c d [] h e = ground arith
closed_cons c d (f ∷ s) h e = e

suffix_trimmed :
    (b : Bool) (s : Text)
    → IsSpaced b s
    → ends_in_separator (trim_suffix b'_' (trim_suffix b'-' s)) ≡ false
unfolding trim_suffix is_separator
suffix_trimmed b [] h = refl
suffix_trimmed b (c ∷ []) h = ground arith
suffix_trimmed b (c ∷ d ∷ []) h = ground arith
suffix_trimmed b (c ∷ d ∷ e ∷ s) h =
    closed_cons c d (trim_suffix b'-' (e ∷ s)) h.2.1
      (suffix_trimmed (is_separator c) (d ∷ e ∷ s) h.2)

cut-IsName :
    (s : Text) (max_len : ℕ)
    → IsSpaced true s
    → (length (if ltb max_len (length s) then take max_len s else s) ≤ max_len)
      × IsSpaced true (if ltb max_len (length s) then take max_len s else s)
cut-IsName s max_len h = ground (arith, length-take-le max_len s, take-IsSpaced true max_len s h)

trimmed-IsName :
    (s : Text) (n : ℕ)
    → (length s ≤ n) × IsSpaced true s
    → (length (trim_suffix b'_' (trim_suffix b'-' s)) ≤ n)
      × IsName (trim_suffix b'_' (trim_suffix b'-' s))
trimmed-IsName s n h = (
  omega (arith, length-trim_suffix-le b'-' s, length-trim_suffix-le b'_' (trim_suffix b'-' s)),
  record {
    spaced = trim_suffix-IsSpaced true b'_' _ (trim_suffix-IsSpaced true b'-' s h.1);
    closed = suffix_trimmed true s h.1;
  },
)

module _ ⦃u : Unicode⦄ where
  only_valid-AllValid : (s : Text) → AllValid (only_valid s)
  unfolding only_valid replace_all
  only_valid-AllValid s = invalid_replaced zero (cleaned s)

  -- Whatever the title is, the channel name is no longer than asked for, holds only lower-case
  -- letters, digits, "-" and "_", has no two separators side by side, and none at either end.
  pub normalize_channel_name-IsName :
      (title : Text) (max_len : ℕ)
      → (length (normalize_channel_name title max_len) ≤ max_len)
        × IsName (normalize_channel_name title max_len)
  unfolding normalize_channel_name replace_all
  normalize_channel_name-IsName [] n = (omega arith, record { spaced = tt; closed = refl })
  normalize_channel_name-IsName (c ∷ s) n =
      let valid = only_valid-AllValid (c ∷ s) in
      let minimized = replace_all separators dash (only_valid (c ∷ s)) in
      let started = trim_prefix b'_' (trim_prefix b'-' minimized) in
      let spaced =
        prefix_trimmed minimized ((separators_replaced (only_valid (c ∷ s)) valid).0 false refl) in
      trimmed-IsName (if ltb n (length started) then take n started else started) n
        (cut-IsName started n spaced)

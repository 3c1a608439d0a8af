-- ===== src/Channel/Fixed.antt =====
-- A normalized channel name is left as it is by another normalization.
use revchat.Base.{
  ℕ, ◌≤◌, Bool, true, false, ◌&&◌, [], ◌∷◌, if◌then◌else◌, ltb, length, take, ◌≡◌, refl, ap, ap₂,
  arith,
}
use revchat.Base.Text.{Text, Unicode, lower_rune, to_lower}
use revchat.Channel.Name.{
  is_space, trim_left, trim_right, trim_space, dash, trim_prefix, trim_suffix, cleaned, only_valid,
  normalize_channel_name,
}
use revchat.Channel.Pattern.{
  is_upper, is_separator, is_valid, is_invalid, annotation, ticket, apostrophe, invalid_characters,
  separators, replace_all, NeverMatches, replace_from-NeverMatches,
}
use revchat.Channel.Shape.{
  AllValid, IsSpaced, IsName, ends_in_separator, starts_with_separator, separators-few, span_no,
  normalize_channel_name-IsName,
}

IsSpaced-AllValid : (b : Bool) (s : Text) → IsSpaced b s → AllValid s
IsSpaced-AllValid b [] h = tt
IsSpaced-AllValid b (c ∷ s) h = (h.0, IsSpaced-AllValid (is_separator c) s h.2)

annotation-AllValid : (s : Text) → AllValid s → NeverMatches annotation s
unfolding annotation is_valid
annotation-AllValid [] h = tt
annotation-AllValid (c ∷ s) h = (ground (arith, h.0), annotation-AllValid s h.1)

valid-not-upper : (c : ℕ) → is_valid c ≡ true → is_upper c ≡ false
unfolding is_valid is_upper
valid-not-upper c h = ground arith

ticket-AllValid : (s : Text) → AllValid s → NeverMatches ticket s
unfolding ticket
ticket-AllValid [] h = tt
ticket-AllValid (c ∷ s) h =
    (rw (span_no is_upper c s (valid-not-upper c h.0)) refl, ticket-AllValid s h.1)

apostrophe-AllValid : (s : Text) → AllValid s → NeverMatches apostrophe s
unfolding apostrophe is_valid
apostrophe-AllValid [] h = tt
apostrophe-AllValid (c ∷ s) h = (ground (arith, h.0), apostrophe-AllValid s h.1)

invalid_characters-AllValid : (s : Text) → AllValid s → NeverMatches invalid_characters s
unfolding invalid_characters
invalid_characters-AllValid [] h = tt
invalid_characters-AllValid (c ∷ s) h =
    (span_no is_invalid c s (rw h.0), invalid_characters-AllValid s h.1)

spaced_few :
    (b : Bool) (c : ℕ) (s : Text)
    → IsSpaced b (c ∷ s)
    → is_separator c && starts_with_separator s ≡ false
spaced_few b c [] h = ground arith
spaced_few b c (d ∷ s) h = h.2.1

separators-IsSpaced : (b : Bool) (s : Text) → IsSpaced b s → NeverMatches separators s
separators-IsSpaced b [] h = tt
separators-IsSpaced b (c ∷ s) h =
    (separators-few c s (spaced_few b c s h), separators-IsSpaced (is_separator c) s h.2)

trim_prefix-miss :
    (p : ℕ) (s : Text) → is_separator p ≡ true → IsSpaced true s → trim_prefix p s ≡ s
unfolding trim_prefix is_separator
trim_prefix-miss p [] e h = refl
trim_prefix-miss p (c ∷ s) e h = ground (arith, h.1)

trim_suffix-miss :
    (p : ℕ) (s : Text) → is_separator p ≡ true → ends_in_separator s ≡ false → trim_suffix p s ≡ s
unfolding trim_suffix is_separator
trim_suffix-miss p [] e h = refl
trim_suffix-miss p (c ∷ []) e h = ground arith
trim_suffix-miss p (c ∷ d ∷ s) e h = ap (◌∷◌ c) (trim_suffix-miss p (d ∷ s) e h)

valid-not-space : (c : ℕ) → is_valid c ≡ true → is_space c ≡ false
unfolding is_valid is_space
valid-not-space c h = ground arith

trim_left-AllValid : (s : Text) → AllValid s → trim_left s ≡ s
unfolding trim_left
trim_left-AllValid [] h = refl
trim_left-AllValid (c ∷ s) h = rw (valid-not-space c h.0) refl

trim_right-AllValid : (s : Text) → AllValid s → trim_right s ≡ s
unfolding trim_right
trim_right-AllValid [] h = refl
trim_right-AllValid (c ∷ s) h = rw (valid-not-space c h.0) (ap (◌∷◌ c) (trim_right-AllValid s h.1))

cut_miss : (s : Text) (n : ℕ) → length s ≤ n → (if ltb n (length s) then take n s else s) ≡ s
cut_miss s n le = ground arith

module _ ⦃u : Unicode⦄ where
  lower_rune-valid : (c : ℕ) → is_valid c ≡ true → lower_rune c ≡ c
  unfolding lower_rune is_valid
  lower_rune-valid c h = ground arith

  to_lower-AllValid : (s : Text) → AllValid s → to_lower s ≡ s
  unfolding to_lower
  to_lower-AllValid [] h = refl
  to_lower-AllValid (c ∷ s) h = ap₂ ◌∷◌ (lower_rune-valid c h.0) (to_lower-AllValid s h.1)

  cleaned-AllValid : (s : Text) → AllValid s → cleaned s ≡ s
  unfolding cleaned replace_all trim_space
  cleaned-AllValid s h =
      rw
        (
          replace_from-NeverMatches annotation [] s (annotation-AllValid s h),
          replace_from-NeverMatches ticket [] s (ticket-AllValid s h),
          to_lower-AllValid s h,
          trim_left-AllValid s h,
          trim_right-AllValid s h,
        )
        (replace_from-NeverMatches apostrophe [] s (apostrophe-AllValid s h))

  only_valid_fixed : (s : Text) → AllValid s → only_valid s ≡ s
  unfolding only_valid replace_all
  only_valid_fixed s h =
      rw (cleaned-AllValid s h)
        (replace_from-NeverMatches invalid_characters dash s (invalid_characters-AllValid s h))

  name_fixed : (s : Text) (n : ℕ) → length s ≤ n → IsName s → normalize_channel_name s n ≡ s
  unfolding normalize_channel_name replace_all
  name_fixed [] n le h = refl
  name_fixed (c ∷ s) n le h =
      rw
        (
          only_valid_fixed (c ∷ s) (IsSpaced-AllValid true (c ∷ s) h.spaced),
          replace_from-NeverMatches separators dash (c ∷ s)
              (separators-IsSpaced true (c ∷ s) h.spaced),
          trim_prefix-miss b'-' (c ∷ s) refl h.spaced,
          trim_prefix-miss b'_' (c ∷ s) refl h.spaced,
        )
        (rw (cut_miss (c ∷ s) n le, trim_suffix-miss b'-' (c ∷ s) refl h.closed)
          (trim_suffix-miss b'_' (c ∷ s) refl h.closed))

  -- Normalizing a normalized channel name to the same length changes nothing.
  pub normalize_channel_name_idem :
      (title : Text) (max_len : ℕ)
      → normalize_channel_name (normalize_channel_name title max_len) max_len
        ≡ normalize_channel_name title max_len
  normalize_channel_name_idem title n =
      let (short, named) = normalize_channel_name-IsName title n in
      name_fixed (normalize_channel_name title n) n short named

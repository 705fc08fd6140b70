-- ===== src/Phone/Laws.antt =====
-- The form of a normalized phone number, and that it is its own normal form.
use hi_wave_tel.Prelude.{
  ℕ, ◌≡◌, refl, ap, ◌∙◌, inl, inr, ◌⊎◌, Text, true, false, not, [], ◌∷◌, ◌==◌, filter, is_empty,
  is_digit, is_space, strip, lstrip, rstrip, text_in, All, Bool-cases, arith,
}
use hi_wave_tel.Phone.{
  plus, lstrip_char, rstrip_char, strip_char, is_filler, digits_of, with_plus, to_e164, is_unknown,
  normalize_phone_e164,
}

-- Nothing, or a plus sign and at least one digit, and only digits.
abbrev pub IsE164 : Text → Type 0
IsE164 [] = Unit
IsE164 (c ∷ cs) = (c ≡ plus) × (is_empty cs ≡ false) × All (λ d. is_digit d ≡ true) cs

digits_of-digits : (s : Text) → All (λ d. is_digit d ≡ true) (digits_of s)
digits_of-digits [] = tt
digits_of-digits (c ∷ cs) = elim (Bool-cases (is_digit c)) [
  | inl y ↦ rw y (y, digits_of-digits cs)
  | inr n ↦ rw n (digits_of-digits cs)
]

with_plus-IsE164 : (s : Text) → All (λ d. is_digit d ≡ true) s → IsE164 (with_plus s)
with_plus-IsE164 [] h = tt
with_plus-IsE164 (c ∷ cs) h = (refl, refl, h)

to_e164-IsE164 : (s : Text) → IsE164 (to_e164 s)
unfolding to_e164
to_e164-IsE164 [] = tt
to_e164-IsE164 (c ∷ cs) = elim (Bool-cases (c == plus)) [
  | inl y ↦ rw y (with_plus-IsE164 (digits_of cs) (digits_of-digits cs))
  | inr n ↦ rw n (with_plus-IsE164 (digits_of (c ∷ cs)) (digits_of-digits (c ∷ cs)))
]

normalize-IsE164 : (raw : Text) → IsE164 (normalize_phone_e164 raw)
unfolding normalize_phone_e164
normalize-IsE164 raw =
    let value = strip_char 39 (strip_char 34 (strip raw)) in
    elim (Bool-cases (is_unknown value)) [
      | inl y ↦ rw y tt
      | inr n ↦ rw n (to_e164-IsE164 (filter (λ c. not (is_filler c)) value))
    ]

-- A character of a normalized number.
abbrev IsKept : ℕ → Type 0
IsKept c = (is_digit c ≡ true) ⊎ (c ≡ plus)

kept_plain :
    (c : ℕ)
    → IsKept c
    → (is_space c ≡ false) × ((c == 34) ≡ false) × ((c == 39) ≡ false) × (is_filler c ≡ false)
unfolding is_digit is_space is_filler
kept_plain c (inl h) = (ground arith, ground arith, ground arith, ground arith)
kept_plain c (inr h) = (ground arith, ground arith, ground arith, ground arith)

-- What does not touch a text of kept characters.
strip-kept : (s : Text) → All IsKept s → strip s ≡ s
unfolding strip
strip-kept s h = ap rstrip (left s h) ∙ right s h
  where
    left : (t : Text) → All IsKept t → lstrip t ≡ t
    left [] k = unfold lstrip in refl
    left (c ∷ cs) (k, ks) = unfold lstrip in rw ((kept_plain c k).0) refl

    right : (t : Text) → All IsKept t → rstrip t ≡ t
    right [] k = unfold rstrip in refl
    right (c ∷ cs) (k, ks) =
        let ih = right cs ks in unfold rstrip in rw ((kept_plain c k).0, ih) refl

module _ (q : ℕ) (other : (c : ℕ) → IsKept c → (c == q) ≡ false) where
  lstrip_char-kept : (t : Text) → All IsKept t → lstrip_char q t ≡ t
  unfolding lstrip_char
  lstrip_char-kept [] k = refl
  lstrip_char-kept (c ∷ cs) (k, ks) = rw (other c k) refl

  rstrip_char-kept : (t : Text) → All IsKept t → rstrip_char q t ≡ t
  unfolding rstrip_char
  rstrip_char-kept [] k = refl
  rstrip_char-kept (c ∷ cs) (k, ks) = rw (other c k, rstrip_char-kept cs ks) refl

  strip_char-kept : (s : Text) → All IsKept s → strip_char q s ≡ s
  strip_char-kept s h = ap (rstrip_char q) (lstrip_char-kept s h) ∙ rstrip_char-kept s h

filter-kept : (s : Text) → All IsKept s → filter (λ c. not (is_filler c)) s ≡ s
filter-kept [] h = refl
filter-kept (c ∷ cs) (k, ks) = rw ((kept_plain c k).3, filter-kept cs ks) refl

digits_of-kept : (s : Text) → All (λ d. is_digit d ≡ true) s → digits_of s ≡ s
digits_of-kept [] h = refl
digits_of-kept (c ∷ cs) (d, ds) = rw (d, digits_of-kept cs ds) refl

All-IsKept : (s : Text) → All (λ d. is_digit d ≡ true) s → All IsKept s
All-IsKept [] h = tt
All-IsKept (c ∷ cs) (d, ds) = (inl d, All-IsKept cs ds)

-- A normalized number is left as it is.
normalize-fixed : (s : Text) → IsE164 s → normalize_phone_e164 s ≡ s
unfolding normalize_phone_e164 to_e164 text_in
normalize-fixed [] h = refl
normalize-fixed (c ∷ cs) (e, more, ds) =
    let kept : All IsKept (c ∷ cs) = (inr e, All-IsKept cs ds) in
    rw
      (
        strip-kept (c ∷ cs) kept,
        strip_char-kept 34 (λ d k. (kept_plain d k).1) (c ∷ cs) kept,
        strip_char-kept 39 (λ d k. (kept_plain d k).2) (c ∷ cs) kept,
        filter-kept (c ∷ cs) kept,
        digits_of-kept cs ds,
      )
      (rw e (rw more refl))

-- A normalized phone number is empty, or a plus sign and at least one digit and nothing else; and to
-- normalize it again changes nothing.
pub normalize_phone-normalize :
    (raw : Text)
    → IsE164 (normalize_phone_e164 raw)
      × (normalize_phone_e164 (normalize_phone_e164 raw) ≡ normalize_phone_e164 raw)
normalize_phone-normalize raw =
    (normalize-IsE164 raw, normalize-fixed (normalize_phone_e164 raw) (normalize-IsE164 raw))

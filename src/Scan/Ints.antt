-- ===== src/Scan/Ints.antt =====
-- Python's int(s) of a text, over the ASCII digits, and that it reads back what str(n) prints.
use hi_wave_tel.Prelude.{
  ℕ, zero, suc, ◌+◌, ◌*◌, ◌/◌, ◌%◌, ◌-◌, ◌<◌, ◌≡◌, refl, ap, ◌∙◌, inl, inr, Text, Bool, true, false,
  ◌&&◌, Option, none, some, [], ◌∷◌, if◌then◌else◌, ltb, ◌==◌, is_digit, is_space, lstrip, rstrip,
  strip, All, Bool-cases, arith,
}
use hi_wave_tel.Runtime.Exn.{ℤ, pos, negsuc}
use hi_wave_tel.Scan.{decimal, decimal_loop}

-- digits with single underscores between them; `ready` says that the character before was a digit
unfoldable pub digits_value : ℕ → (ready : Bool) → Text → Option ℕ
unfolding is_digit
digits_value acc ready [] = if ready then some acc else none
digits_value acc ready (c ∷ cs) =
    let digit = digits_value (10 * acc + (c - 48)) true cs in
    let gap = digits_value acc false cs in
    if is_digit c then digit else if (c == 95) && ready then gap else none

abbrev minus : Option ℕ → Option ℤ
minus none = none
minus (some zero) = some (pos 0)
minus (some (suc n)) = some (negsuc n)

abbrev plus : Option ℕ → Option ℤ
plus none = none
plus (some n) = some (pos n)

unfoldable pub signed_value : Text → Option ℤ
unfolding digits_value
signed_value [] = none
signed_value (c ∷ cs) =
    if c == 45
    then minus (digits_value 0 false cs)
    else if c == 43
    then plus (digits_value 0 false cs)
    else plus (digits_value 0 false (c ∷ cs))

-- int(s); `none` is a ValueError
unfoldable pub int_of_text : Text → Option ℤ
unfolding strip signed_value
int_of_text s = signed_value (strip s)

abbrev IsDigit : ℕ → Type 0
IsDigit c = is_digit c ≡ true

digit_not_space : (c : ℕ) → IsDigit c → is_space c ≡ false
unfolding is_digit is_space
digit_not_space c h = ground arith

digit_not_sign : (c k : ℕ) → IsDigit c → k < 48 → (c == k) ≡ false
unfolding is_digit
digit_not_sign c k h l = ground arith

strip-digits : (s : Text) → All IsDigit s → strip s ≡ s
unfolding strip
strip-digits s h = ap rstrip (left s h) ∙ right s h
  where
    left : (t : Text) → All IsDigit t → lstrip t ≡ t
    left [] h = unfold lstrip in refl
    left (c ∷ cs) (d, h) = unfold lstrip in rw (digit_not_space c d) refl

    right : (t : Text) → All IsDigit t → rstrip t ≡ t
    right [] h = unfold rstrip in refl
    right (c ∷ cs) (d, h) =
        let ih = right cs h in unfold rstrip in rw (digit_not_space c d, ih) refl

IsDigit-char : (n : ℕ) → n < 10 → IsDigit (48 + n)
unfolding is_digit
IsDigit-char n h = ground arith

decimal_loop-digits : (f n : ℕ) (acc : Text) → All IsDigit acc → All IsDigit (decimal_loop f n acc)
unfolding decimal_loop
decimal_loop-digits zero n acc h = h
decimal_loop-digits (suc f) n acc h = elim (Bool-cases (ltb n 10)) [
  | inl y ↦ rw y (IsDigit-char n (ground arith), h)
  | inr x ↦ rw x (decimal_loop-digits f (n / 10) _ (IsDigit-char (n % 10) (omega arith), h))
]

decimal_loop-value :
    (f n : ℕ) (ready : Bool) (acc : Text)
    → n < f
    → digits_value 0 ready (decimal_loop f n acc) ≡ digits_value n true acc
unfolding decimal_loop digits_value
decimal_loop-value zero n ready acc h = elim h [ ]
decimal_loop-value (suc f) n ready acc h = elim (Bool-cases (ltb n 10)) [
  | inl y ↦
      rw y (rw (IsDigit-char n (ground arith)) (ap (λ k. digits_value k true acc) (omega arith)))
  | inr x ↦ rw x (
      decimal_loop-value f (n / 10) ready ((48 + n % 10) ∷ acc) (ground arith)
      ∙ rw (IsDigit-char (n % 10) (omega arith)) (ap (λ k. digits_value k true acc) (omega arith)))
]

signed-digits :
    (n : ℕ) (t : Text)
    → All IsDigit t
    → digits_value 0 false t ≡ some n
    → signed_value t ≡ some (pos n)
unfolding signed_value digits_value
signed-digits n [] h e = absurd (ground arith)
signed-digits n (c ∷ cs) (d, h) e =
    rw (digit_not_sign c 45 d (omega arith), digit_not_sign c 43 d (omega arith)) (ap plus e)

-- int(str(n)) is n, for every natural number.
pub int_of_text-decimal : (n : ℕ) → int_of_text (decimal n) ≡ some (pos n)
unfolding int_of_text decimal
int_of_text-decimal n =
    let digits = decimal_loop-digits (n + 1) n [] tt in
    rw (strip-digits (decimal_loop (n + 1) n []) digits)
      (signed-digits n _ digits (decimal_loop-value (n + 1) n false [] (omega arith)))

-- ===== src/Prelude/Strings.antt =====
-- Python's `str` as the list of its code points, with the methods that the program calls.
-- `lower` and the character classes are those of ASCII: the texts that the program tests come from
-- mmcli, environment variables and constants. White space is all of Python's.
use Prim.Native.Nat.{ℕ, ◌+◌}
use Prim.Native.Char.{code}
use Prim.Native.String.{String}
use mathlib.Core.Path.{◌≡◌, refl, ap, ◌∙◌}
use mathlib.Core.Logic.{◌↔◌, ◌⊎◌, inl, inr}
use mathlib.Core.Bool.{Bool, true, false, ◌&&◌, ◌||◌}
use mathlib.Core.List.{List, [], ◌∷◌, map}
use native.Mathlib.Omega.{arith}
use hi_wave_tel.Prelude.Tests.{leb, ◌==◌, if◌then◌else◌, Bool-cases}
use hi_wave_tel.Prelude.Lists.{is_empty, any}

abbrev pub Text : Type 0
Text = List ℕ

abbrev pub codes : String → Text
codes String.[] = []
codes (String.◌∷◌ c s) = code c ∷ codes s

unfoldable pub text_eq : Text → Text → Bool
text_eq [] [] = true
text_eq (x ∷ xs) (y ∷ ys) = x == y && text_eq xs ys
text_eq _ _ = false

-- `x in xs` for a collection of texts.
unfoldable pub text_in : Text → List Text → Bool
unfolding text_eq
text_in x xs = any (text_eq x) xs

-- str.isspace
unfoldable pub is_space : ℕ → Bool
is_space c =
    (leb 9 c && leb c 13)
    || (leb 28 c && leb c 32)
    || c == 133
    || c == 160
    || c == 5760
    || (leb 8192 c && leb c 8202)
    || c == 8232
    || c == 8233
    || c == 8239
    || c == 8287
    || c == 12288

unfoldable pub lstrip : Text → Text
unfolding is_space
lstrip [] = []
lstrip (c ∷ cs) = if is_space c then lstrip cs else c ∷ cs

unfoldable pub rstrip : Text → Text
unfolding is_space
rstrip [] = []
rstrip (c ∷ cs) = let r = rstrip cs in if is_space c && is_empty r then [] else c ∷ r

unfoldable pub strip : Text → Text
unfolding lstrip rstrip
strip s = rstrip (lstrip s)

unfoldable pub lower_char : ℕ → ℕ
lower_char c = if leb 65 c && leb c 90 then c + 32 else c

unfoldable pub lower : Text → Text
unfolding lower_char
lower s = map lower_char s

unfoldable pub is_digit : ℕ → Bool
is_digit c = leb 48 c && leb c 57

unfoldable pub is_alnum : ℕ → Bool
unfolding is_digit
is_alnum c = is_digit c || (leb 65 c && leb c 90) || (leb 97 c && leb c 122)

unfoldable pub starts_with : Text → Text → Bool
starts_with [] s = true
starts_with (p ∷ ps) [] = false
starts_with (p ∷ ps) (c ∷ cs) = p == c && starts_with ps cs

-- `needle in s`
unfoldable pub contains : Text → Text → Bool
unfolding starts_with
contains needle [] = is_empty needle
contains needle (c ∷ cs) = starts_with needle (c ∷ cs) || contains needle cs

-- s.split('\n')[0]
unfoldable pub first_line : Text → Text
first_line [] = []
first_line (c ∷ cs) = if c == 10 then [] else c ∷ first_line cs

pub text_eq_iff : (s t : Text) → (text_eq s t ≡ true) ↔ (s ≡ t)
unfolding text_eq
text_eq_iff [] [] = ground arith
text_eq_iff [] (y ∷ ys) = ground arith
text_eq_iff (x ∷ xs) [] = ground arith
text_eq_iff (x ∷ xs) (y ∷ ys) = ground (arith, text_eq_iff xs ys)

pub text_eq_refl : (s : Text) → text_eq s s ≡ true
text_eq_refl s = (text_eq_iff s s).1 refl

lstrip-head :
    (s : Text)
    → (lstrip s ≡ []) ⊎ ((c : ℕ) × (cs : Text) × (lstrip s ≡ c ∷ cs) × (is_space c ≡ false))
unfolding lstrip
lstrip-head [] = inl refl
lstrip-head (c ∷ cs) = elim (Bool-cases (is_space c)) [
  | inl e ↦ unfold lstrip in rw e (lstrip-head cs)
  | inr e ↦ inr (c, cs, rw e, e)
]

rstrip-rstrip : (s : Text) → rstrip (rstrip s) ≡ rstrip s
unfolding rstrip
rstrip-rstrip [] = refl
rstrip-rstrip (c ∷ cs) = ground (arith, rstrip-rstrip cs)

-- Stripping twice is stripping once.
pub strip-strip : (s : Text) → strip (strip s) ≡ strip s
unfolding strip
strip-strip s = elim (lstrip-head s) [
  | inl e ↦ unfold lstrip rstrip in rw e refl
  | inr (c, cs, e, h) ↦ rw e (ap rstrip (stays c cs h) ∙ rstrip-rstrip (c ∷ cs))
]
  where
    stays : (c : ℕ) (cs : Text) → is_space c ≡ false → lstrip (rstrip (c ∷ cs)) ≡ rstrip (c ∷ cs)
    stays c cs h = unfold lstrip rstrip in simp h

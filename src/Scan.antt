-- ===== src/Scan.antt =====
-- What the program's regular expressions are made of, and its conversions of numbers to and from
-- text. `\d` is an ASCII digit.
pub mod Ints
use hi_wave_tel.Prelude.{
  ℕ, zero, suc, ◌+◌, ◌*◌, ◌/◌, ◌%◌, ◌-◌, Text, Bool, true, false, ◌&&◌, ◌||◌, Option, none, some,
  List, [], ◌∷◌, if◌then◌else◌, leb, ltb, ◌==◌, is_digit, is_space, lower_char, text_eq,
}

-- Equality of characters under re.IGNORECASE: ASCII letters, and the four others that fold to one.
unfoldable pub fold_char : ℕ → ℕ
unfolding lower_char
fold_char c =
    if c == 304 || c == 305
    then 105
    else if c == 383
    then 115
    else if c == 8490
    then 107
    else lower_char c

-- The rest of `s` behind a prefix that is written in lower case.
unfoldable pub behind_prefix : Text → Text → Option Text
unfolding fold_char
behind_prefix [] s = some s
behind_prefix (p ∷ ps) [] = none
behind_prefix (p ∷ ps) (c ∷ cs) = if fold_char c == p then behind_prefix ps cs else none

-- the rest behind a prefix as it is written
unfoldable pub exactly_behind : Text → Text → Option Text
exactly_behind [] s = some s
exactly_behind (p ∷ ps) [] = none
exactly_behind (p ∷ ps) (c ∷ cs) = if c == p then exactly_behind ps cs else none

-- \s*
unfoldable pub skip_spaces : Text → Text
unfolding is_space
skip_spaces [] = []
skip_spaces (c ∷ cs) = if is_space c then skip_spaces cs else c ∷ cs

-- \d+ at the start of a text: the digits
unfoldable pub digit_run : Text → Text
unfolding is_digit
digit_run [] = []
digit_run (c ∷ cs) = if is_digit c then c ∷ digit_run cs else []

-- pattern.search: the first position at which the pattern matches
unfoldable pub search_from : {A : Type 0} → (Text → Option A) → Text → Option A
search_from p [] = p []
search_from p (c ∷ cs) =
    let rest = search_from p cs in elim (p (c ∷ cs)) [ some a ↦ some a | none ↦ rest ]

-- pattern.findall, for a pattern that cannot match inside one of its own matches
unfoldable pub find_all : {A : Type 0} → (Text → Option A) → Text → List A
find_all p [] = []
find_all p (c ∷ cs) =
    let rest = find_all p cs in elim (p (c ∷ cs)) [ some a ↦ a ∷ rest | none ↦ rest ]

-- int(s) of a run of digits
unfoldable pub read_decimal : ℕ → Text → ℕ
read_decimal acc [] = acc
read_decimal acc (c ∷ cs) = read_decimal (10 * acc + (c - 48)) cs

-- str(n); `n + 1` rounds are more than there are digits
unfoldable pub decimal_loop : (fuel : ℕ) → ℕ → Text → Text
decimal_loop zero n acc = acc
decimal_loop (suc fuel) n acc =
    let more = decimal_loop fuel (n / 10) ((48 + n % 10) ∷ acc) in
    if ltb n 10 then (48 + n) ∷ acc else more

unfoldable pub decimal : ℕ → Text
unfolding decimal_loop
decimal n = decimal_loop (n + 1) n []

-- str.splitlines, up to empty lines between a carriage return and its line feed
unfoldable pub is_line_end : ℕ → Bool
is_line_end c =
    (leb 10 c && leb c 13) || (leb 28 c && leb c 30) || c == 133 || c == 8232 || c == 8233

abbrev onto_first : ℕ → List Text → List Text
onto_first c [] = (c ∷ []) ∷ []
onto_first c (l ∷ ls) = (c ∷ l) ∷ ls

unfoldable pub splitlines : Text → List Text
unfolding is_line_end
splitlines [] = []
splitlines (c ∷ cs) =
    let rest = splitlines cs in if is_line_end c then [] ∷ rest else onto_first c rest

-- sorted(set(…)) of numbers, and of texts by code points
unfoldable pub insert_number : ℕ → List ℕ → List ℕ
insert_number n [] = n ∷ []
insert_number n (m ∷ ms) =
    if n == m then m ∷ ms else if ltb n m then n ∷ m ∷ ms else m ∷ insert_number n ms

unfoldable pub sorted_numbers : List ℕ → List ℕ
unfolding insert_number
sorted_numbers [] = []
sorted_numbers (n ∷ ns) = insert_number n (sorted_numbers ns)

unfoldable pub text_lt : Text → Text → Bool
text_lt [] [] = false
text_lt [] (y ∷ ys) = true
text_lt (x ∷ xs) [] = false
text_lt (x ∷ xs) (y ∷ ys) = ltb x y || (x == y && text_lt xs ys)

unfoldable pub insert_text : Text → List Text → List Text
unfolding text_lt text_eq
insert_text s [] = s ∷ []
insert_text s (t ∷ ts) =
    if text_eq s t then t ∷ ts else if text_lt s t then s ∷ t ∷ ts else t ∷ insert_text s ts

unfoldable pub sorted_texts : List Text → List Text
unfolding insert_text
sorted_texts [] = []
sorted_texts (s ∷ ss) = insert_text s (sorted_texts ss)
